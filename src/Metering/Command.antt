-- ===== src/Metering/Command.antt =====
-- crates/marketplace-metering/src/bin/pzdr-metering-payload.rs: the command that prints the payload of a file
-- of events.
use pzd.Base.{
  ◌>>=◌, Bool, true, false, ◌||◌, Option, none, some, List, [], ◌∷◌, ◌++◌, Bytes, codes, bytes_eq,
  if◌then◌else◌,
}
use pzd.Base.Result.{Result, ok, err, ok_or, map_err}
use pzd.Base.Text.{decimal}
use pzd.Metering.{
  MeteringError, missing, invalid_quantity, too_many_records, io, json, BatchMeterUsagePayload,
  batch_meter_usage_payload,
}
use pzd.Metering.Journal.{Serde, read_events_jsonl}

-- The two printers of serde_json.
pub record Printers : Type 0 where
  pub to_string : BatchMeterUsagePayload → Result Bytes Bytes
  pub to_string_pretty : BatchMeterUsagePayload → Result Bytes Bytes

-- `Box<dyn Error>`, by the text that it prints.
abbrev pub usage_error : Bytes
usage_error = codes "usage: pzdr-metering-payload <product-code> <events.jsonl> [--pretty]"

-- `Display` of an error of the library.
unfoldable pub show_error : MeteringError → Bytes
unfolding decimal
show_error (missing field) = codes "missing required field: " ++ field
show_error invalid_quantity = codes "quantity must be greater than zero"
show_error (too_many_records n) =
    codes "too many records for BatchMeterUsage: " ++ decimal n ++ codes "; maximum is 25"
show_error (io e) = codes "io: " ++ e
show_error (json e) = codes "json: " ++ e

-- `Iterator::next`.
abbrev pub next : List Bytes → Option (Bytes × List Bytes)
next [] = none
next (a ∷ args) = some (a, args)

unfoldable pub is_pretty : List Bytes → Bool
unfolding bytes_eq
is_pretty [] = false
is_pretty (a ∷ args) = bytes_eq a (codes "--pretty") || is_pretty args

-- What a process leaves: whether it succeeded, and what it wrote to its two outputs.
pub record Exit : Type 0 where
  pub success : Bool
  pub stdout : Bytes
  pub stderr : Bytes

module _ (S : Serde) (P : Printers) where
  unfoldable pub print_payload : Bool → BatchMeterUsagePayload → Result Bytes Bytes
  print_payload pretty payload =
      map_err (if pretty then P.to_string_pretty payload else P.to_string payload) (λ e. e)

  -- The arguments behind the name of the command, and the file system by the content of a path.
  unfoldable pub run : List Bytes → (Bytes → Result Bytes Bytes) → Result Bytes Bytes
  unfolding read_events_jsonl batch_meter_usage_payload is_pretty show_error print_payload
  run args open_file = do
    product ← ok_or (next args) usage_error
    events_path ← ok_or (next product.1) usage_error
    let pretty = is_pretty events_path.1
    events ← map_err (read_events_jsonl S (open_file events_path.0)) show_error
    payload ← map_err (batch_meter_usage_payload product.0 events) show_error
    text ← print_payload pretty payload
    ok (text ++ codes "\n")

  unfoldable pub exit_of : Result Bytes Bytes → Exit
  exit_of (ok out) = record { success = true; stdout = out; stderr = [] }
  exit_of (err e) = record {
    success = false;
    stdout = [];
    stderr = codes "error: " ++ e ++ codes "\n";
  }

  unfoldable pub main : List Bytes → (Bytes → Result Bytes Bytes) → Exit
  unfolding run exit_of
  main args open_file = exit_of (run args open_file)
