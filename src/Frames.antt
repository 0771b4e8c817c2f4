-- ===== src/Frames.antt =====
-- services/pzdr-enclave/src/main.rs and crates/vsock-parent-proxy/src/main.rs, `read_framed` and
-- `write_framed`: a frame is four bytes of length and a body. A stream is the list of the bytes that are
-- still to be read, and of the bytes written; it ends early where they run out.
pub mod RoundTrip
mod Runs
use pzd.Base.{
  ℕ, ◌+◌, ◌*◌, ◌/◌, ◌%◌, ◌^◌, ◌>>=◌, true, false, List, [], ◌∷◌, ◌++◌, length, take, drop, Bytes,
  codes, ltb, if◌then◌else◌,
}
use pzd.Base.Result.{Result, ok, err}

-- `u32::to_be_bytes` and `u32::from_be_bytes`.
unfoldable pub to_be_bytes : ℕ → Bytes
to_be_bytes n = n / 2 ^ 24 ∷ (n / 2 ^ 16) % 2 ^ 8 ∷ (n / 2 ^ 8) % 2 ^ 8 ∷ n % 2 ^ 8 ∷ []

unfoldable pub from_be_bytes : Bytes → ℕ
from_be_bytes [] = 0
from_be_bytes (b ∷ bs) = b * (2 ^ 8) ^ length bs + from_be_bytes bs

-- `read_exact` of `n` bytes: the bytes and the rest of the stream.
unfoldable pub read_exact : ℕ → Bytes → Result Bytes (Bytes × Bytes)
read_exact n s = if ltb (length s) n then err (codes "early eof") else ok (take n s, drop n s)

unfoldable pub read_framed : Bytes → Result Bytes (Bytes × Bytes)
unfolding read_exact from_be_bytes
read_framed s = do
  (len_buf, rest) ← read_exact 4 s
  let len = from_be_bytes len_buf
  if ltb (64 * 1024 * 1024) len then err (codes "frame too large") else read_exact len rest

-- The length is cast with `as u32`, which keeps the low 32 bits.
unfoldable pub write_framed : Bytes → Bytes
unfolding to_be_bytes
write_framed bytes = to_be_bytes (length bytes % 2 ^ 32) ++ bytes
