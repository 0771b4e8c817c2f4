-- ===== src/Nitro/Entropy.antt =====
-- How the loop of `random_bytes` ends.
use pzd.Base.{
  ℕ, zero, suc, ◌-◌, ◌≤◌, ◌<◌, ◌≡◌, min, arith, refl, sym, take, length, Option, none, some, [],
  ◌∷◌, ◌++◌, Bytes, codes, ltb, Bool, true, false, length-append, length-take, take-nil, ◌∙◌,
  ltb→lt,
}
use mathlib.Core.Path.{subst, ap}
use pzd.Base.Int.{ℤ}
use pzd.Base.Result.{Result, ok, err}
use pzd.Nitro.Attestation.{NitroError, nsm}
use pzd.Nitro.Device.{
  Response, Driver, EnclaveSelf, get_random, random, error, document, other, random_loop,
  random_bytes,
}

module _ (D : Driver) where
  -- A random answer of the module has at least one byte.
  abbrev pub Gives : D.World → Type 0
  Gives w =
      (fd : _) (r : Bytes) → (D.nsm_process_request fd get_random w).0 ≡ random r → 1 ≤ length r

  -- An answer of the module that is not random bytes, and the error for it.
  abbrev pub Declines : Response → NitroError → Type 0
  Declines (random r) e = ⊥
  Declines (error x) e = e ≡ nsm x
  Declines (document d) e = e ≡ nsm (codes "unexpected response")
  Declines other e = e ≡ nsm (codes "unexpected response")

  -- What a loop that ended gave: the bytes, or the error for an answer of the module.
  abbrev pub Sized : EnclaveSelf → ℕ → Result NitroError Bytes → Type 0
  Sized self n (ok out) = length out ≡ n
  Sized self n (err e) = (v : D.World) × Declines (D.nsm_process_request self.fd get_random v).0 e

  -- So many rounds end the loop, with as many bytes as asked or with an error of the module.
  abbrev pub Ends : EnclaveSelf → ℕ → Option (Result NitroError Bytes × D.World) → Type 0
  Ends self n none = ⊥
  Ends self n (some (r, w)) = Sized self n r

  random_loop-Ends :
      ((w : D.World) → Gives w)
      → (rounds : ℕ) (self : EnclaveSelf) (n : ℕ) (out : Bytes) (w : D.World) → length out ≤ n
      → n - length out ≤ rounds
      → Ends self n (random_loop D rounds self n out w)
  unfolding random_loop
  random_loop-Ends gives zero self n out w h f =
      let full : ltb (length out) n ≡ false = ground arith in
      let all : length out ≡ n = omega arith in
      subst (λ b. Ends self n (elim b [ true ↦ none | false ↦ some (ok out, w) ])) (sym full) all
  random_loop-Ends gives (suc rounds) self n out w h f =
      more (ltb (length out) n) refl (D.nsm_process_request self.fd get_random w) refl
        (gives w self.fd)
        (λ r w' less some_bytes.
          random_loop-Ends gives rounds self n (out ++ take (min (n - length out) (length r)) r) w'
            (grows r)
            (omega (
              arith,
              length-append out (take (min (n - length out) (length r)) r),
              length-take (min (n - length out) (length r)) r,
            )))
    where
      grows : (r : Bytes) → length (out ++ take (min (n - length out) (length r)) r) ≤ n
      grows r = omega (
        arith,
        length-append out (take (min (n - length out) (length r)) r),
        length-take (min (n - length out) (length r)) r,
      )

      more :
          (b : Bool)
          → ltb (length out) n ≡ b
          → (p : Response × D.World) → p.0 ≡ (D.nsm_process_request self.fd get_random w).0
          → ((r : Bytes) → p.0 ≡ random r → 1 ≤ length r)
          → ((r : Bytes) (w' : D.World)
              → length out < n
              → 1 ≤ length r
              → Ends self n (
                  random_loop D rounds self n (out ++ take (min (n - length out) (length r)) r) w'))
          → Ends self n (elim b [
            | true ↦
                let (response, w') = p in
                elim response [
                  | random r ↦
                      random_loop D rounds self n
                        (out ++ take (min (n - length out) (length r)) r)
                        w'
                  | error e ↦ some (err (nsm e), w')
                  | document d ↦ some (err (nsm (codes "unexpected response")), w')
                  | other ↦ some (err (nsm (codes "unexpected response")), w')
                ]
            | false ↦ some (ok out, w)
          ])
      more false e p q g ih = ground arith
      more true e (random r, w') q g ih = ih r w' (ltb→lt _ _ e) (g r refl)
      more true e (error x, w') q g ih = (w, subst (λ a. Declines a (nsm x)) q refl)
      more true e (document d, w') q g ih =
          (w, subst (λ a. Declines a (nsm (codes "unexpected response"))) q refl)
      more true e (other, w') q g ih =
          (w, subst (λ a. Declines a (nsm (codes "unexpected response"))) q refl)

  -- The loop of `random_bytes` ends within as many rounds as bytes are asked for, with exactly so many
  -- bytes or with the error for an answer of the module that is not random bytes, if each of its random
  -- answers has at least one byte.
  pub random_bytes_ends :
      ((w : D.World) → Gives w)
      → (self : EnclaveSelf) (n : ℕ) (w : D.World)
      → (r : Result NitroError Bytes) × (w' : D.World) × (random_bytes D n self n w ≡ some (r, w'))
        × Sized self n r
  unfolding random_bytes
  random_bytes_ends gives self n w =
      ended (random_loop D n self n [] w) refl
        (random_loop-Ends gives n self n [] w (omega arith) (omega arith))
    where
      ended :
          (o : Option (Result NitroError Bytes × D.World))
          → random_loop D n self n [] w ≡ o
          → Ends self n o
          → (r : Result NitroError Bytes) × (w' : D.World) × (random_loop D n self n [] w
              ≡ some (r, w'))
            × Sized self n r
      ended none e z = absurd z
      ended (some (r, w')) e z = (r, w', e, z)

  random_loop_starves :
      ((fd : ℤ) (w : D.World) → (D.nsm_process_request fd get_random w).0 ≡ random [])
      → (rounds : ℕ) (self : EnclaveSelf) (n : ℕ) (w : D.World)
      → random_loop D rounds self (suc n) [] w ≡ none
  unfolding random_loop
  random_loop_starves empty zero self n w =
      let short : ltb 0 (suc n) ≡ true = ground arith in
      ap (λ b. elim b [ true ↦ none | false ↦ some (ok [], w) ]) short
  random_loop_starves empty (suc rounds) self n w =
      started (ltb 0 (suc n)) (ground arith) (D.nsm_process_request self.fd get_random w)
        (empty self.fd w) (λ w'. random_loop_starves empty rounds self n w')
    where
      started :
          (b : Bool)
          → b ≡ true
          → (p : Response × D.World) → p.0 ≡ random []
          → ((w' : D.World) → random_loop D rounds self (suc n) [] w' ≡ none)
          → Path
              (Option (Result NitroError Bytes × D.World))
              (elim b [
                | true ↦
                    let (response, w') = p in
                    elim response [
                      | random r ↦
                          random_loop D rounds self (suc n) (take (min (suc n - 0) (length r)) r) w'
                      | error e ↦ some (err (nsm e), w')
                      | document d ↦ some (err (nsm (codes "unexpected response")), w')
                      | other ↦ some (err (nsm (codes "unexpected response")), w')
                    ]
                | false ↦ some (ok [], w)
              ])
              none
      started false f p e ih = absurd (cc)
      started true f (random [], w') e ih =
          ap (λ out. random_loop D rounds self (suc n) out w') (take-nil (min (suc n - 0) 0))
          ∙ ih w'
      started true f (random (b ∷ r), w') e ih = absurd (cc)
      started true f (error x, w') e ih = absurd (cc)
      started true f (document d, w') e ih = absurd (cc)
      started true f (other, w') e ih = absurd (cc)

  -- Against a module that answers with no bytes, no number of rounds ends the loop.
  pub random_bytes_starves :
      ((fd : ℤ) (w : D.World) → (D.nsm_process_request fd get_random w).0 ≡ random [])
      → (rounds : ℕ) (self : EnclaveSelf) (n : ℕ) (w : D.World) → 1 ≤ n
      → random_bytes D rounds self n w ≡ none
  unfolding random_bytes
  random_bytes_starves empty rounds self zero w h = absurd (omega arith)
  random_bytes_starves empty rounds self (suc n) w h = random_loop_starves empty rounds self n w
