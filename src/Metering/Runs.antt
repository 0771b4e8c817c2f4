-- ===== src/Metering/Runs.antt =====
-- Runs of the metering library on the inputs of its unit tests, and the theorems there.
use pzd.Base.{
  none, ℕ, zero, suc, ◌+◌, ◌*◌, ◌%◌, ◌≤◌, ◌<◌, ◌≡◌, ◌↔◌, ◌⊎◌, arith, true, false, [], ◌∷◌, length,
  refl, Bytes, codes,
}
use pzd.Base.Result.{Result, ok, err, unwrap_or}
use pzd.Base.Text.{is_utf8, decimal}
use pzd.Metering.Journal.{Serde, read_events_jsonl}
use pzd.Metering.Appended.{Written, append_all, read_events_jsonl-append_all}
use pzd.Metering.Command.{Printers, is_pretty, print_payload, main}
use pzd.Metering.Printed.{main_lem}
use pzd.Ledger.{Sha256}
use pzd.Ledger.Collision.{Collision}
use pzd.Metering.{
  MarketplaceUsageInput, MarketplaceUsageEvent, BatchMeterUsagePayload, is_blank, key_parts,
  event_of, new, batch_meter_usage_payload, missing, too_many_records, invalid_quantity, require,
}
use pzd.Metering.Keys.{Short}
use pzd.Metering.{MeteringError}
use pzd.Metering.Events.{Billable, Carries, Unbillable, new_iff, new_binds}
use pzd.Metering.Batch.{BillsAll, records_total, events_total, batch_meter_usage_payload_iff}

abbrev zeros : ℕ → Bytes
zeros zero = []
zeros (suc n) = 0 ∷ zeros n

abbrev mixed : ℕ → Bytes → ℕ
mixed acc [] = acc
mixed acc (b ∷ bs) = mixed ((acc * 31 + b) % 65521) bs

abbrev checksum : Sha256
checksum = record { digest = λ b. mixed 7 b ∷ zeros 31; length-digest = λ b. refl }

abbrev hex : Bytes → Bytes
hex b = b

abbrev sample : MarketplaceUsageInput
sample = record {
  product_code = codes "prod-123";
  customer_aws_account_id = codes "111122223333";
  dimension = codes "inference_request";
  quantity = 1;
  timestamp_unix_seconds = zeros 8;
  tenant_id = codes "tenant-a";
  request_id = codes "req-1";
  proof_id = codes "proof-abc";
  receipt_root_hex = codes "aa55";
}

abbrev event : MarketplaceUsageEvent
event = event_of checksum hex sample

accepts_sample : new checksum hex sample ≡ ok (event_of checksum hex sample)
unfolding new require
accepts_sample = refl

refuses_blank :
    new checksum hex (record sample { tenant_id = codes " " }) ≡ err (missing (codes "tenant_id"))
unfolding new require
refuses_blank = refl

refuses_zero : new checksum hex (record sample { quantity = 0 }) ≡ err invalid_quantity
unfolding new require
refuses_zero = refl

new_iff_example :
    ((e : MarketplaceUsageEvent)
      → (new checksum hex sample ≡ ok e) ↔ (Billable sample × Carries checksum hex sample e))
    × ((x : MeteringError) → new checksum hex sample ≡ err x → Unbillable sample x)
new_iff_example = new_iff checksum hex sample

short : Short (key_parts sample)
unfolding key_parts
short = (
  omega arith,
  (omega arith, (omega arith, (omega arith, (omega arith, (omega arith, (omega arith, tt)))))),
)

new_binds_example : (key_parts sample ≡ key_parts sample) ⊎ Collision checksum
unfolding key_parts
new_binds_example =
    new_binds checksum hex (λ a b e. e) sample sample event event short short accepts_sample
      accepts_sample refl

batch_meter_usage_payload_iff_example :
    ((p : BatchMeterUsagePayload)
      → (batch_meter_usage_payload (codes "prod-123") (event ∷ []) ≡ ok p) ↔ (
          (is_blank (codes "prod-123") ≡ false)
          × (length (event ∷ []) ≤ 25)
          × (p.product_code ≡ codes "prod-123")
          × BillsAll (event ∷ []) p.usage_records))
    × ((p : BatchMeterUsagePayload)
        → batch_meter_usage_payload (codes "prod-123") (event ∷ []) ≡ ok p
        → records_total p.usage_records ≡ events_total (event ∷ []))
    × ((x : MeteringError)
        → batch_meter_usage_payload (codes "prod-123") (event ∷ []) ≡ err x
        → ((is_blank (codes "prod-123") ≡ true) × (x ≡ missing (codes "product_code")))
          ⊎ ((is_blank (codes "prod-123") ≡ false)
              × (25 < length (event ∷ []))
              × (x ≡ too_many_records (length (event ∷ [])))))
batch_meter_usage_payload_iff_example =
    batch_meter_usage_payload_iff (codes "prod-123") (event ∷ [])

-- An encoding of the one event, and printers of its count.
abbrev journal : Serde
journal = record { to_writer = λ e. (codes "{\"quantity\":1}", ok tt); from_str = λ line. ok event }

abbrev printers : Printers
printers = record {
  to_string = λ p. ok (codes "payload");
  to_string_pretty = λ p. ok (codes "pretty payload");
}

event-Written : Written journal event
unfolding is_blank is_utf8
event-Written = record {
  line = codes "{\"quantity\":1}";
  is_written = refl;
  unbroken = ground arith;
  utf8 = refl;
  not_blank = refl;
  is_read = refl;
}

read_events_jsonl-append_all_example :
    read_events_jsonl journal (ok (unwrap_or (append_all journal none (event ∷ event ∷ [])) []))
    ≡ ok (event ∷ event ∷ [])
read_events_jsonl-append_all_example =
    read_events_jsonl-append_all journal (event ∷ event ∷ []) (event-Written, (event-Written, tt))

abbrev disk : Bytes → Result Bytes Bytes
disk path = ok (unwrap_or (append_all journal none (event ∷ [])) [])

main_lem_example :
    (1 ≤ 25
      → main journal printers (codes "prod-123" ∷ codes "events.jsonl" ∷ codes "--pretty" ∷ []) disk
        ≡ record { success = true; stdout = codes "pretty payload\n"; stderr = [] })
    × (25 < 1
        → main journal printers
            (codes "prod-123" ∷ codes "events.jsonl" ∷ codes "--pretty" ∷ [])
            disk
          ≡ record {
            success = false;
            stdout = [];
            stderr = codes "error: too many records for BatchMeterUsage: 1; maximum is 25\n";
          })
unfolding is_blank is_pretty print_payload decimal
main_lem_example =
    main_lem journal printers (codes "prod-123") (codes "events.jsonl") (codes "pretty payload")
      (codes "--pretty" ∷ []) disk (event ∷ []) (event-Written, tt) refl refl refl
