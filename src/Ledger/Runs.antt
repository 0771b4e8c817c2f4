-- ===== src/Ledger/Runs.antt =====
-- Runs of transparency.rs on a small log, and the theorems there. The digest is a checksum.
use pzd.Base.{
  ℕ, suc, ◌+◌, ◌*◌, ◌%◌, ◌≤◌, ◌<◌, ◌≡◌, ◌⊎◌, arith, true, none, List, [], ◌∷◌, some, refl, take,
  Bytes, get_elem?, bytes_eq,
}
use pzd.Ledger.{
  Sha256, Hash, TransparencyLog, new, split, split_loop, leaf_hash, node_hash, mth, inclusion,
  subproof, size, leaf_at, append, root, root_at, inclusion_path, consistency_path,
  verify_inclusion, verify_consistency, inclusion_step, strip_zeros,
}
use pzd.Ledger.Verify.{verify_inclusion-inclusion_path, verify_consistency-consistency_path}
use pzd.Ledger.Collision.{Collision}
use pzd.Ledger.Audit.{record_all, verify_inclusion-binds}
use pzd.Ledger.History.{verify_consistency-binds}
use pzd.Ledger.Log.{append_lem, queries_answer}

sum_from : ℕ → Bytes → ℕ
sum_from acc [] = acc
sum_from acc (b ∷ bs) = sum_from ((acc * 31 + b) % 65521) bs

abbrev zeros : ℕ → Bytes
zeros ℕ.zero = []
zeros (suc n) = 0 ∷ zeros n

abbrev checksum : Sha256
checksum = record { digest = λ b. sum_from 7 b ∷ zeros 31; length-digest = λ b. refl }

abbrev entries : List Bytes
entries = (1 ∷ []) ∷ (2 ∷ 2 ∷ []) ∷ (3 ∷ []) ∷ (4 ∷ []) ∷ (5 ∷ []) ∷ []

abbrev log : TransparencyLog
log = record_all checksum new entries

leaf_3 : Hash
leaf_3 = leaf_hash checksum (4 ∷ [])

split_5 : split 5 ≡ 4
unfolding split split_loop
split_5 = refl

verify_inclusion-inclusion_path_example :
    verify_inclusion checksum
      (leaf_hash checksum (4 ∷ []))
      3
      (size log)
      (inclusion checksum log.leaves 3)
      (root checksum log)
    ≡ true
unfolding size leaf_at inclusion_path record_all new append
verify_inclusion-inclusion_path_example =
    verify_inclusion-inclusion_path checksum log 3 (leaf_hash checksum (4 ∷ []))
      (inclusion checksum log.leaves 3) (omega arith) refl refl

verify_consistency-consistency_path_example :
    verify_consistency checksum 3
      (mth checksum (take 3 log.leaves))
      (size log)
      (root checksum log)
      (subproof checksum 3 log.leaves true)
    ≡ true
unfolding size root_at consistency_path record_all new append
verify_consistency-consistency_path_example =
    verify_consistency-consistency_path checksum log 3 (mth checksum (take 3 log.leaves))
      (subproof checksum 3 log.leaves true) (omega arith) refl refl

verify_inclusion-binds_example : (get_elem? entries 3 ≡ some (4 ∷ [])) ⊎ Collision checksum
unfolding verify_inclusion size root record_all new append inclusion inclusion_step strip_zeros mth
    split split_loop leaf_hash node_hash sum_from bytes_eq
verify_inclusion-binds_example =
    verify_inclusion-binds checksum entries (4 ∷ []) 3 (inclusion checksum log.leaves 3)
      (omega arith) (omega arith) refl

verify_consistency-binds_example : (take 3 entries ≡ take 3 entries) ⊎ Collision checksum
unfolding verify_consistency size root record_all new append subproof strip_zeros mth split
    split_loop leaf_hash node_hash sum_from bytes_eq
verify_consistency-binds_example =
    verify_consistency-binds checksum (take 3 entries) entries (subproof checksum 3 log.leaves true)
      (omega arith) (omega arith) refl

append_lem_example :
    let (log', idx) = append checksum log (6 ∷ []) in
    (idx ≡ size log)
    × (size log' ≡ size log + 1)
    × (leaf_at log' idx ≡ some (leaf_hash checksum (6 ∷ [])))
    × ((n : ℕ) → n ≤ size log → root_at checksum log' n ≡ root_at checksum log n)
    × ((i : ℕ) → i < size log → leaf_at log' i ≡ leaf_at log i)
append_lem_example = append_lem checksum log (6 ∷ [])

queries_answer_example :
    (5 < size log
      → ((leaf : Hash) × (leaf_at log 5 ≡ some leaf))
        × ((path : List Hash) × (inclusion_path checksum log 5 ≡ some path)))
    × (size log ≤ 5 → (leaf_at log 5 ≡ none) × (inclusion_path checksum log 5 ≡ none))
    × (5 ≤ size log
        → ((r : Hash) × (root_at checksum log 5 ≡ some r))
          × ((proof : List Hash) × (consistency_path checksum log 5 ≡ some proof)))
    × (size log < 5 → (root_at checksum log 5 ≡ none) × (consistency_path checksum log 5 ≡ none))
queries_answer_example = queries_answer checksum log 5
