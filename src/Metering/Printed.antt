-- ===== src/Metering/Printed.antt =====
-- What the command prints of a file of events that were appended to it.
use pzd.Base.{
  ◌≡◌, ◌≤◌, ◌<◌, refl, ap, ◌∙◌, true, false, none, List, [], ◌∷◌, ◌++◌, All, length, map, Bytes,
  codes, ◌>>=◌,
}
use pzd.Base.Result.{Result, ok, map_err, unwrap_or}
use pzd.Base.Text.{decimal}
use pzd.Metering.{
  MeteringError, MarketplaceUsageEvent, BatchMeterUsagePayload, is_blank, batch_meter_usage_payload,
  usage_record,
}
use pzd.Metering.Batch.{batch_branches}
use pzd.Metering.Journal.{Serde, read_events_jsonl}
use pzd.Metering.Appended.{Written, append_all, read_events_jsonl-append_all}
use pzd.Metering.Command.{Printers, show_error, is_pretty, print_payload, run, exit_of, main}

module _ (S : Serde) (P : Printers) where
  -- The payload of events for a product.
  abbrev pub payload_of : Bytes → List MarketplaceUsageEvent → BatchMeterUsagePayload
  payload_of product events = record {
    product_code = product;
    usage_records = map usage_record events;
  }

  -- The command on what the library made of the events.
  run_events :
      (product path : Bytes) (args : List Bytes) (open_file : Bytes → Result Bytes Bytes)
      (events : List MarketplaceUsageEvent) (r : Result MeteringError BatchMeterUsagePayload)
      → read_events_jsonl S (open_file path) ≡ ok events
      → batch_meter_usage_payload product events ≡ r
      → run S P (product ∷ path ∷ args) open_file ≡ (
          map_err r show_error >>= λ payload.
          (print_payload S P (is_pretty args) payload >>= λ text. ok (text ++ codes "\n")))
  unfolding run
  run_events product path args open_file events r e1 e2 = rw (e1, e2) refl

  -- The command on a file to which events were appended, starting without a file: for a product that is
  -- named and at most 25 events it succeeds and prints the payload with one record for each event, in their
  -- order, in the style that the arguments ask for; for more events it fails and says how many they are.
  -- Here serde_json writes each event as a line of text that it reads back, and can print the payload.
  pub main_lem :
      (product path text : Bytes) (args : List Bytes) (open_file : Bytes → Result Bytes Bytes)
      (events : List MarketplaceUsageEvent)
      → All (Written S) events
      → open_file path ≡ ok (unwrap_or (append_all S none events) [])
      → is_blank product ≡ false
      → print_payload S P (is_pretty args) (payload_of product events) ≡ ok text
      → (length events ≤ 25
          → main S P (product ∷ path ∷ args) open_file
            ≡ record { success = true; stdout = text ++ codes "\n"; stderr = [] })
        × (25 < length events
            → main S P (product ∷ path ∷ args) open_file ≡ record {
              success = false;
              stdout = [];
              stderr =
                  codes "error: "
                  ++ (codes "too many records for BatchMeterUsage: "
                      ++ decimal (length events)
                      ++ codes "; maximum is 25")
                  ++ codes "\n";
            })
  unfolding main exit_of show_error
  main_lem product path text args open_file events w opened named printed =
      let read : read_events_jsonl S (open_file path) ≡ ok events =
        ap (read_events_jsonl S) opened ∙ read_events_jsonl-append_all S events w in
      let (blank, many, few) = batch_branches product events in
      (
        (λ fits.
            let (p, e, e1, e2) = few named fits in
            let same : p ≡ payload_of product events =
              ap (λ (c : Bytes). record p { product_code = c }) e1
              ∙ ap (λ u. record (payload_of product events) { usage_records = u }) e2 in
            ap (exit_of S P) (
              run_events product path args open_file events _ read e
              ∙ ap (λ p. print_payload S P (is_pretty args) p >>= λ text. ok (text ++ codes "\n"))
                  same
              ∙ ap (λ r. r >>= λ text. ok (text ++ codes "\n")) printed)),
        λ more.
            ap (exit_of S P)
              (run_events product path args open_file events _ read (many named more)),
      )
