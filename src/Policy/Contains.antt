-- ===== src/Policy/Contains.antt =====
-- `windows`, `any` and `contains` of policy.rs.
use pzd.Base.{
  ℕ, ◌≤◌, ◌≡◌, ◌≢◌, ◌↔◌, inl, inr, arith, Bool, true, false, [], ◌∷◌, ◌++◌, length, take, drop,
  take-append-drop, length-take, take-append, length-append, ap, ◌∙◌, sym, refl, Bytes, bytes_eq,
  bytes_eq_refl, bytes_eq_sound, ltb, Bool-cases,
}
use mathlib.Core.Path.{subst}
use pzd.Policy.{windows, any, contains}

-- The window `w` stands somewhere in the text.
pub record Occurs (w text : Bytes) : Type 0 where
  pub before : Bytes
  pub behind : Bytes
  pub split : text ≡ before ++ (w ++ behind)

Occurs-cons : (w text : Bytes) (b : ℕ) → Occurs w text → Occurs w (b ∷ text)
Occurs-cons w text b o = record {
  before = b ∷ o.before;
  behind = o.behind;
  split = ap (◌∷◌ b) o.split;
}

Occurs-length : (w text : Bytes) → Occurs w text → length w ≤ length text
Occurs-length w text o =
    omega
      (arith, ap length o.split, length-append o.before (w ++ o.behind), length-append w o.behind)

-- A test passes on some window exactly if it passes on some part of the text of that length.
pub any-windows :
    (test : Bytes → Bool) (n : ℕ) (text : Bytes)
    → any test (windows n text) ≡ true
    → (w : Bytes) × (test w ≡ true) × (length w ≡ n) × Occurs w text
unfolding any windows
any-windows test n [] h = absurd (cc)
any-windows test n (b ∷ bs) h = elim (Bool-cases (ltb (length (b ∷ bs)) n)) [
  | inl short ↦ absurd (let f : false ≡ true = rw short at h in cc)
  | inr enough ↦ elim (Bool-cases (test (take n (b ∷ bs)))) [
    | inl pass ↦ (
      take n (b ∷ bs),
      pass,
      ground (arith, length-take n (b ∷ bs)),
      record { before = []; behind = drop n (b ∷ bs); split = sym (take-append-drop n (b ∷ bs)) },
    )
    | inr miss ↦
        let (w, t, l, o) = any-windows test n bs (ground arith) in (w, t, l, Occurs-cons w bs b o)
  ]
]

any-windows_front :
    (test : Bytes → Bool) (n : ℕ) (w behind : Bytes)
    → 1 ≤ n
    → length w ≡ n
    → test w ≡ true
    → any test (windows n (w ++ behind)) ≡ true
unfolding any windows
any-windows_front test n [] behind pos l t = absurd (omega arith)
any-windows_front test n (c ∷ w) behind pos l t =
    let same : take n (c ∷ (w ++ behind)) ≡ c ∷ w =
      ap (λ k. take k (c ∷ (w ++ behind))) (sym l) ∙ take-append (c ∷ w) behind in
    ground (arith, length-append w behind, same)

pub windows-any :
    (test : Bytes → Bool) (n : ℕ) (before w behind : Bytes)
    → 1 ≤ n
    → length w ≡ n
    → test w ≡ true
    → any test (windows n (before ++ (w ++ behind))) ≡ true
unfolding any windows
windows-any test n [] w behind pos l t = any-windows_front test n w behind pos l t
windows-any test n (b ∷ before) w behind pos l t = ground (
  arith,
  windows-any test n before w behind pos l t,
  length-append before (w ++ behind),
  length-append w behind,
)

-- `contains` holds exactly for a needle that is not empty and stands somewhere in the text.
pub contains_iff :
    (haystack needle : Bytes)
    → (contains haystack needle ≡ true) ↔ ((needle ≢ []) × Occurs needle haystack)
unfolding contains
contains_iff haystack needle = (found, standing)
  where
    found : contains haystack needle ≡ true → (needle ≢ []) × Occurs needle haystack
    found h =
        let (w, t, l, o) =
          any-windows (λ w. bytes_eq w needle) (length needle) haystack (ground arith) in
        let e : w ≡ needle = bytes_eq_sound w needle t in
        (λ z. absurd (ground (arith, ap length z)), subst (λ v. Occurs v haystack) e o)

    standing : (needle ≢ []) × Occurs needle haystack → contains haystack needle ≡ true
    standing (some, o) =
        let pos : 1 ≤ length needle = nonempty needle some in
        let hit =
          windows-any (λ w. bytes_eq w needle) (length needle) o.before needle o.behind pos refl
            (bytes_eq_refl needle) in
        let whole : any (λ w. bytes_eq w needle) (windows (length needle) haystack) ≡ true =
          rw o.split hit in
        ground (arith, Occurs-length needle haystack o)
      where
        nonempty : (n : Bytes) → n ≢ [] → 1 ≤ length n
        nonempty [] h = absurd (h refl)
        nonempty (b ∷ n) h = omega arith
