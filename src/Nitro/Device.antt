-- ===== src/Nitro/Device.antt =====
-- crates/nitro-attestation/src/lib.rs, `EnclaveSelf`: the calls of the security module from the enclave. The
-- module is a state of the world that a request changes.
use pzd.Base.{
  ℕ, zero, suc, ◌-◌, min, take, length, Option, none, some, [], ◌++◌, Bytes, codes, ltb, true,
  false,
}
use pzd.Base.Int.{ℤ, pos, negsuc}
use pzd.Base.Result.{Result, ok, err}
use pzd.Nitro.Attestation.{NitroError, nsm}

pub data Request : Type 0 where
  -- The user data, the nonce and the public key.
  attestation : Option Bytes → Option Bytes → Option Bytes → Request
  get_random : Request

pub data Response : Type 0 where
  document : Bytes → Response
  random : Bytes → Response
  -- The debug print of the error.
  error : Bytes → Response
  other : Response

-- The driver of the security module.
pub record Driver : Type 1 where
  pub World : Type 0
  pub nsm_init : World → ℤ × World
  pub nsm_exit : ℤ → World → World
  pub nsm_process_request : ℤ → Request → World → Response × World
  -- The print of a number that may be negative.
  pub show : ℤ → Bytes

pub record EnclaveSelf : Type 0 where
  pub fd : ℤ

module _ (D : Driver) where
  abbrev pub opened : ℤ → Result NitroError EnclaveSelf
  opened (pos n) = ok (record { fd = pos n })
  opened (negsuc n) = err (nsm (codes "nsm_init failed: " ++ D.show (negsuc n)))

  unfoldable pub new : D.World → Result NitroError EnclaveSelf × D.World
  new w = let (fd, w') = D.nsm_init w in (opened fd, w')

  abbrev attestation_answer : Response → Result NitroError Bytes
  attestation_answer (document d) = ok d
  attestation_answer (random r) = err (nsm (codes "unexpected NSM response"))
  attestation_answer (error e) = err (nsm e)
  attestation_answer other = err (nsm (codes "unexpected NSM response"))

  unfoldable pub generate_attestation :
      EnclaveSelf
      → Option Bytes
      → Option Bytes
      → Option Bytes
      → D.World
      → Result NitroError Bytes × D.World
  generate_attestation self user_data nonce public_key w =
      let (response, w') =
        D.nsm_process_request self.fd (attestation user_data nonce public_key) w in
      (attestation_answer response, w')

  -- The loop of `random_bytes`, which has no bound of its own: `none` if so many rounds did not end it.
  unfoldable pub random_loop :
      ℕ → EnclaveSelf → ℕ → Bytes → D.World → Option (Result NitroError Bytes × D.World)
  random_loop zero self n out w = elim (ltb (length out) n) [
    | true ↦ none
    | false ↦ some (ok out, w)
  ]
  random_loop (suc rounds) self n out w = elim (ltb (length out) n) [
    | true ↦
        let (response, w') = D.nsm_process_request self.fd get_random w in
        elim response [
          | random r ↦
              random_loop rounds self n (out ++ take (min (n - length out) (length r)) r) w'
          | error e ↦ some (err (nsm e), w')
          | document d ↦ some (err (nsm (codes "unexpected response")), w')
          | other ↦ some (err (nsm (codes "unexpected response")), w')
        ]
    | false ↦ some (ok out, w)
  ]

  unfoldable pub random_bytes :
      ℕ → EnclaveSelf → ℕ → D.World → Option (Result NitroError Bytes × D.World)
  unfolding random_loop
  random_bytes rounds self n w = random_loop rounds self n [] w

  -- `Drop`
  unfoldable pub drop_self : EnclaveSelf → D.World → D.World
  drop_self self w = D.nsm_exit self.fd w
