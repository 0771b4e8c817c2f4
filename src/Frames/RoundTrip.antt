-- ===== src/Frames/RoundTrip.antt =====
-- `read_framed` on what `write_framed` wrote.
use pzd.Base.{
  ℕ, ◌*◌, ◌%◌, ◌^◌, ◌≤◌, ◌<◌, ◌≡◌, arith, [], ◌∷◌, ◌++◌, length, take, drop, Bytes, codes, ltb,
  refl, ap, ◌∙◌, ltb-false, lt→ltb, if◌then◌else◌, length-append,
}
use pzd.Base.Result.{ok, err}
use pzd.Frames.{to_be_bytes, from_be_bytes, read_exact, read_framed, write_framed}

from_be_bytes-to_be_bytes : (n : ℕ) → n < 2 ^ 32 → from_be_bytes (to_be_bytes n) ≡ n
unfolding from_be_bytes to_be_bytes
from_be_bytes-to_be_bytes n h = omega arith

take-append : (xs ys : Bytes) → take (length xs) (xs ++ ys) ≡ xs
take-append [] ys = refl
take-append (x ∷ xs) ys = ap (◌∷◌ x) (take-append xs ys)

drop-append : (xs ys : Bytes) → drop (length xs) (xs ++ ys) ≡ ys
drop-append [] ys = refl
drop-append (x ∷ xs) ys = drop-append xs ys

read_exact-append : (xs ys : Bytes) → read_exact (length xs) (xs ++ ys) ≡ ok (xs, ys)
unfolding read_exact
read_exact-append xs ys =
    let l = length-append xs ys in rw (take-append xs ys, drop-append xs ys) (ground arith)

read_exact-four :
    (a b c d : ℕ) (s : Bytes) → read_exact 4 (a ∷ b ∷ c ∷ d ∷ s) ≡ ok (a ∷ b ∷ c ∷ d ∷ [], s)
unfolding read_exact
read_exact-four a b c d s = ground arith

-- The reader behind the four bytes of the length.
read_framed-header :
    (a b c d : ℕ) (s : Bytes)
    → let len = from_be_bytes (a ∷ b ∷ c ∷ d ∷ []) in
      read_framed (a ∷ b ∷ c ∷ d ∷ s)
      ≡ (if ltb (64 * 1024 * 1024) len then err (codes "frame too large") else read_exact len s)
unfolding read_framed
read_framed-header a b c d s = rw (read_exact-four a b c d s) refl

-- The frame of a body that is shorter than 4 GiB.
read_framed-frame :
    (body rest : Bytes)
    → length body < 2 ^ 32
    → read_framed (write_framed body ++ rest) ≡ (
        if ltb (64 * 1024 * 1024) (length body)
        then err (codes "frame too large")
        else read_exact (length body) (body ++ rest))
unfolding write_framed to_be_bytes
read_framed-frame body rest h =
    read_framed-header _ _ _ _ (body ++ rest)
    ∙ rw (cut, from_be_bytes-to_be_bytes (length body) h) refl
  where
    cut : length body % 2 ^ 32 ≡ length body
    cut = omega arith

-- A body of at most 64 MiB that `write_framed` wrote is read back whole, and the bytes behind it stay
-- in the stream; a longer body below 4 GiB is refused.
pub read_framed-write_framed :
    (body rest : Bytes)
    → (length body ≤ 64 * 1024 * 1024 → read_framed (write_framed body ++ rest) ≡ ok (body, rest))
      × (64 * 1024 * 1024 < length body
          → length body < 2 ^ 32
          → read_framed (write_framed body ++ rest) ≡ err (codes "frame too large"))
read_framed-write_framed body rest = (
  (λ fits.
      rw
        (read_framed-frame body rest (omega arith), ltb-false (64 * 1024 * 1024) (length body) fits)
        (read_exact-append body rest)),
  λ large h. rw (read_framed-frame body rest h, lt→ltb (64 * 1024 * 1024) (length body) large) refl,
)
