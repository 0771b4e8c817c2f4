-- ===== src/Frames/Runs.antt =====
-- The frames of a short body.
use pzd.Base.{◌*◌, ◌^◌, ◌≤◌, ◌<◌, ◌≡◌, ◌++◌, length, refl, codes, [], ◌∷◌}
use pzd.Base.Result.{ok, err}
use pzd.Frames.{read_framed, write_framed}
use pzd.Frames.RoundTrip.{read_framed-write_framed}

reads_frame : read_framed (0 ∷ 0 ∷ 0 ∷ 2 ∷ 7 ∷ 8 ∷ 9 ∷ []) ≡ ok (7 ∷ 8 ∷ [], 9 ∷ [])
unfolding read_framed
reads_frame = refl

short_stream : read_framed (0 ∷ 0 ∷ 0 ∷ 2 ∷ 7 ∷ []) ≡ err (codes "early eof")
unfolding read_framed
short_stream = refl

read_framed-write_framed_example :
    (length (codes "ping") ≤ 64 * 1024 * 1024
      → read_framed (write_framed (codes "ping") ++ codes "rest") ≡ ok (codes "ping", codes "rest"))
    × (64 * 1024 * 1024 < length (codes "ping")
        → length (codes "ping") < 2 ^ 32
        → read_framed (write_framed (codes "ping") ++ codes "rest") ≡ err (codes "frame too large"))
read_framed-write_framed_example = read_framed-write_framed (codes "ping") (codes "rest")
