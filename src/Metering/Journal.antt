-- ===== src/Metering/Journal.antt =====
-- crates/marketplace-metering/src/lib.rs, `append_event_jsonl` and `read_events_jsonl`: a file of events, one to
-- a line. The file is its bytes, or nothing where there is none.
use pzd.Base.{◌>>=◌, if◌then◌else◌, ◌>>◌, Option, none, some, List, [], ◌∷◌, ◌++◌, Bytes, codes}
use pzd.Base.Result.{Result, ok, err, guard, map_err, unwrap_or}
use pzd.Base.Text.{lines, is_utf8}
use pzd.Metering.{MeteringError, io, json, MarketplaceUsageEvent, is_blank}

-- What the library takes from serde_json: the bytes that the writer has written at its end, with its
-- result, and the reader of an event.
pub record Serde : Type 0 where
  pub to_writer : MarketplaceUsageEvent → Bytes × Result Bytes (Unit {0})
  pub from_str : Bytes → Result Bytes MarketplaceUsageEvent

-- The errors of the file system that come between: of opening the file, and of writing the line feed.
pub record Faults : Type 0 where
  pub on_open : Option Bytes
  pub on_line_feed : Option Bytes

abbrev pub no_faults : Faults
no_faults = record { on_open = none; on_line_feed = none }

-- The line feed behind an event that was written.
unfoldable pub end_line : Option Bytes → Bytes → Result MeteringError (Unit {0}) × Option Bytes
end_line none body = (ok tt, some (body ++ (10 ∷ [])))
end_line (some e) body = (err (io e), some body)

unfoldable pub write_event :
    Faults
    → Bytes
    → Bytes × Result Bytes (Unit {0})
    → Result MeteringError (Unit {0}) × Option Bytes
unfolding end_line
write_event faults content (w, ok u) = end_line faults.on_line_feed (content ++ w)
write_event faults content (w, err e) = (err (json e), some (content ++ w))

module _ (S : Serde) where
  -- The result and the file behind it.
  unfoldable pub append_event_jsonl :
      Faults → Option Bytes → MarketplaceUsageEvent → Result MeteringError (Unit {0}) × Option Bytes
  unfolding write_event
  append_event_jsonl faults file event = elim faults.on_open [
    | some e ↦ (err (io e), file)
    | none ↦ write_event faults (unwrap_or file []) (S.to_writer event)
  ]

  -- The event of a line, and none for a blank one.
  unfoldable pub read_line : Bytes → Result MeteringError (Option MarketplaceUsageEvent)
  unfolding is_utf8 is_blank
  read_line line =
      guard (is_utf8 line) (io (codes "stream did not contain valid UTF-8"))
      >> (if is_blank line
          then ok none
          else (map_err (S.from_str line) json >>= λ event. ok (some event)))

  abbrev pub push :
      Option MarketplaceUsageEvent → List MarketplaceUsageEvent → List MarketplaceUsageEvent
  push none events = events
  push (some event) events = event ∷ events

  -- The loop over the lines.
  unfoldable pub read_lines : List Bytes → Result MeteringError (List MarketplaceUsageEvent)
  unfolding read_line
  read_lines [] = ok []
  read_lines (line ∷ ls) =
      read_line line >>= λ event. (read_lines ls >>= λ events. ok (push event events))

  -- The content of the file, or the error of opening it.
  unfoldable pub read_events_jsonl :
      Result Bytes Bytes → Result MeteringError (List MarketplaceUsageEvent)
  unfolding read_lines lines
  read_events_jsonl opened = do content ← map_err opened io; read_lines (lines content)
