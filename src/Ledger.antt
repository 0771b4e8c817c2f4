-- ===== src/Ledger.antt =====
-- services/pzdr-enclave/src/transparency.rs: the RFC 6962 log of the enclave.
-- SHA-256 is a parameter. A hash is a list of bytes, and an index or a size is a usize.
pub mod Split
pub mod Tree
pub mod Subproof
pub mod Climb
pub mod Inclusion
pub mod Twin
pub mod Consistency
pub mod Flags
pub mod Verify
pub mod Collision
pub mod TwinBinding
pub mod Trace
pub mod Overlong
pub mod Binding
pub mod Lengths
pub mod Audit
pub mod Leaves
pub mod History
pub mod Log
mod Runs
use Prim.Native.Nat.{bit_and}
use pzd.Base.{
  ℕ, zero, suc, ◌-◌, ◌*◌, ◌/◌, ◌%◌, ◌^◌, ◌≡◌, Bool, true, false, not, ◌&&◌, ◌||◌, Option, none,
  some, List, [], ◌∷◌, ◌++◌, length, get_elem?, take, drop, Bytes, bytes_eq, ltb, leb, ◌==◌,
  if◌then◌else◌,
}

-- What the code takes from the crate `sha2`: a digest of 32 bytes.
pub record Sha256 : Type 0 where
  pub digest : Bytes → Bytes
  pub length-digest : (b : Bytes) → length (digest b) ≡ 32

abbrev pub Hash : Type 0
Hash = Bytes

-- `while k < n { k <<= 1 }`, on fuel: 64 rounds at most, since `k` doubles up to a usize.
pub split_loop : ℕ → ℕ → ℕ → ℕ
split_loop zero n k = k
split_loop (suc fuel) n k =
    let rest = split_loop fuel n (k * 2 % 2 ^ 64) in if ltb k n then rest else k

pub split : ℕ → ℕ
split n = split_loop 64 n 1 / 2

-- `while f_n.is_multiple_of(2) && f_n != 0` halves both numbers; `f_n` rounds are enough.
pub strip_zeros : ℕ → ℕ → ℕ → ℕ × ℕ
strip_zeros zero f_n s_n = (f_n, s_n)
strip_zeros (suc fuel) f_n s_n =
    let rest = strip_zeros fuel (f_n / 2) (s_n / 2) in
    if f_n % 2 == 0 && not (f_n == 0) then rest else (f_n, s_n)

-- `while f_n % 2 == 1` halves both numbers; `f_n` rounds are enough.
pub strip_ones : ℕ → ℕ → ℕ → ℕ × ℕ
strip_ones zero f_n s_n = (f_n, s_n)
strip_ones (suc fuel) f_n s_n =
    let rest = strip_ones fuel (f_n / 2) (s_n / 2) in if f_n % 2 == 1 then rest else (f_n, s_n)

-- The variables of the loop of `verify_inclusion`.
pub record Walk : Type 0 where
  pub f_n : ℕ
  pub s_n : ℕ
  pub h : Hash

-- The variables of the loop of `verify_consistency`.
pub record TwinWalk : Type 0 where
  pub f_n : ℕ
  pub s_n : ℕ
  pub fr : Hash
  pub sr : Hash

pub record TransparencyLog : Type 0 where
  pub leaves : List Hash

pub new : TransparencyLog
new = record { leaves = [] }

pub size : TransparencyLog → ℕ
size log = length log.leaves

pub leaf_at : TransparencyLog → ℕ → Option Hash
leaf_at log idx = get_elem? log.leaves idx

module _ (H : Sha256) where
  pub leaf_hash : Bytes → Hash
  leaf_hash entry = H.digest (0 ∷ entry)

  pub node_hash : Hash → Hash → Hash
  node_hash l r = H.digest (1 ∷ (l ++ r))

  -- Each call halves the slice, so its length is fuel enough.
  pub mth_rec : ℕ → List Hash → Hash
  mth_rec fuel [] = H.digest []
  mth_rec fuel (x ∷ []) = x
  mth_rec zero (x ∷ y ∷ rest) = H.digest []
  mth_rec (suc fuel) (x ∷ y ∷ rest) =
      let k = split (length (x ∷ y ∷ rest)) in
      node_hash (mth_rec fuel (take k (x ∷ y ∷ rest))) (mth_rec fuel (drop k (x ∷ y ∷ rest)))

  pub mth : List Hash → Hash
  unfolding mth_rec
  mth leaves = mth_rec (length leaves) leaves

  pub inclusion_rec : ℕ → List Hash → ℕ → List Hash
  inclusion_rec zero leaves m = []
  inclusion_rec (suc fuel) leaves m =
      let n = length leaves in
      let k = split n in
      let left = inclusion_rec fuel (take k leaves) m ++ (mth (drop k leaves) ∷ []) in
      let right = inclusion_rec fuel (drop k leaves) (m - k) ++ (mth (take k leaves) ∷ []) in
      if n == 1 then [] else if ltb m k then left else right

  pub inclusion : List Hash → ℕ → List Hash
  unfolding inclusion_rec
  inclusion leaves m = inclusion_rec (length leaves) leaves m

  pub subproof_rec : ℕ → ℕ → List Hash → Bool → List Hash
  subproof_rec zero m leaves b = []
  subproof_rec (suc fuel) m leaves b =
      let n = length leaves in
      let k = split n in
      let left = subproof_rec fuel m (take k leaves) b ++ (mth (drop k leaves) ∷ []) in
      let right = subproof_rec fuel (m - k) (drop k leaves) false ++ (mth (take k leaves) ∷ []) in
      if m == n then (if b then [] else mth leaves ∷ []) else if leb m k then left else right

  pub subproof : ℕ → List Hash → Bool → List Hash
  unfolding subproof_rec
  subproof m leaves b = subproof_rec (length leaves) m leaves b

  -- `&mut self` and the returned index: the new log with the index.
  pub append : TransparencyLog → Bytes → TransparencyLog × ℕ
  append log entry =
      (record log { leaves = log.leaves ++ (leaf_hash entry ∷ []) }, length log.leaves)

  pub root : TransparencyLog → Hash
  root log = mth log.leaves

  pub root_at : TransparencyLog → ℕ → Option Hash
  root_at log n = if leb n (length log.leaves) then some (mth (take n log.leaves)) else none

  pub inclusion_path : TransparencyLog → ℕ → Option (List Hash)
  inclusion_path log idx =
      if ltb idx (length log.leaves) then some (inclusion log.leaves idx) else none

  pub consistency_path : TransparencyLog → ℕ → Option (List Hash)
  consistency_path log m =
      if ltb (length log.leaves) m
      then none
      else if m == 0
      then some []
      else if m == length log.leaves
      then some []
      else some (subproof m log.leaves true)

  -- One round of the loop of `verify_inclusion`.
  pub inclusion_step : Walk → Hash → Walk
  inclusion_step w sib =
      if w.f_n % 2 == 1 || w.f_n == w.s_n
      then (let (f, s) = strip_zeros w.f_n w.f_n w.s_n in
          record { f_n = f / 2; s_n = s / 2; h = node_hash sib w.h })
      else record { f_n = w.f_n / 2; s_n = w.s_n / 2; h = node_hash w.h sib }

  pub inclusion_loop : Walk → List Hash → Walk
  inclusion_loop w [] = w
  inclusion_loop w (sib ∷ path) = inclusion_loop (inclusion_step w sib) path

  pub verify_inclusion : Hash → ℕ → ℕ → List Hash → Hash → Bool
  unfolding inclusion_loop
  verify_inclusion leaf index n path r =
      let w = inclusion_loop (record { f_n = index; s_n = n - 1; h = leaf }) path in
      if leb n index || n == 0 then false else bytes_eq w.h r && w.s_n == 0

  -- One round of the loop of `verify_consistency`; `none` is its `return false`.
  pub consistency_step : TwinWalk → Hash → Option TwinWalk
  consistency_step w c =
      if w.s_n == 0
      then none
      else if w.f_n % 2 == 1 || w.f_n == w.s_n
      then (let (f, s) = strip_zeros w.f_n w.f_n w.s_n in
          some (record { f_n = f / 2; s_n = s / 2; fr = node_hash c w.fr; sr = node_hash c w.sr }))
      else some (record { f_n = w.f_n / 2; s_n = w.s_n / 2; fr = w.fr; sr = node_hash w.sr c })

  pub consistency_loop : TwinWalk → List Hash → Option TwinWalk
  consistency_loop w [] = some w
  consistency_loop w (c ∷ cs) = elim (consistency_step w c) [
    | none ↦ none
    | some w' ↦ consistency_loop w' cs
  ]

  -- The verdict behind the loop.
  pub consistency_verdict : Option TwinWalk → Hash → Hash → Bool
  consistency_verdict none first_root second_root = false
  consistency_verdict (some w) first_root second_root =
      bytes_eq w.fr first_root && bytes_eq w.sr second_root && w.s_n == 0

  -- `pr[0]` starts both hashes, and the loop reads `pr[1..]`.
  pub consistency_run : ℕ → ℕ → List Hash → Hash → Hash → Bool
  unfolding consistency_verdict consistency_loop consistency_step strip_ones
  consistency_run first_size second_size [] first_root second_root = false
  consistency_run first_size second_size (seed ∷ rest) first_root second_root =
      let (f, s) = strip_ones first_size (first_size - 1) (second_size - 1) in
      consistency_verdict
        (consistency_loop (record { f_n = f; s_n = s; fr = seed; sr = seed }) rest) first_root
        second_root

  pub verify_consistency : ℕ → Hash → ℕ → Hash → List Hash → Bool
  unfolding consistency_run
  verify_consistency first_size first_root second_size second_root proof =
      let pr : List Hash =
        if bit_and first_size (first_size - 1) == 0 then first_root ∷ proof else proof in
      if ltb second_size first_size
      then false
      else if first_size == second_size
      then bytes_eq first_root second_root && length proof == 0
      else if first_size == 0
      then true
      else consistency_run first_size second_size pr first_root second_root
