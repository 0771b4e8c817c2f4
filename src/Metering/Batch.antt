-- ===== src/Metering/Batch.antt =====
-- The payload of a batch of events.
use pzd.Base.{
  ℕ, ◌+◌, ◌∷◌, [], inl, inr, Bool-cases, ◌≤◌, ◌<◌, ◌≡◌, ◌↔◌, ◌⊎◌, arith, true, false, List, length,
  map, Bytes, codes, refl, sym, ap, ◌∙◌, ltb,
}
use mathlib.Core.Path.{subst, ap₂}
use pzd.Base.Result.{ok, err}
use native.Mathlib.Decide.{dec_lt}
use pzd.Metering.{
  MeteringError, MarketplaceUsageEvent, BatchMeterUsagePayload, is_blank, require, UsageRecord,
  missing, too_many_records, batch_meter_usage_payload, usage_record,
}

pub batch_branches :
    (product : Bytes) (events : List MarketplaceUsageEvent)
    → (is_blank product ≡ true
        → batch_meter_usage_payload product events ≡ err (missing (codes "product_code")))
      × (is_blank product ≡ false
          → 25 < length events
          → batch_meter_usage_payload product events ≡ err (too_many_records (length events)))
      × (is_blank product ≡ false
          → length events ≤ 25
          → (p : BatchMeterUsagePayload) × (batch_meter_usage_payload product events ≡ ok p)
            × (p.product_code ≡ product)
            × (p.usage_records ≡ map usage_record events))
unfolding batch_meter_usage_payload require
batch_branches product events = (
  (λ blank. rw blank refl),
  (λ filled large. let t : ltb 25 (length events) ≡ true = ground arith in rw (filled, t) refl),
  λ filled fits.
      let f : ltb 25 (length events) ≡ false = ground arith in
      (
        record { product_code = product; usage_records = map usage_record events },
        rw (filled, f) refl,
        refl,
        refl,
      ),
)

-- The record bills the event: in one allocation that is the whole quantity, for the tenant, the proof and the
-- receipt root of the event.
pub record Bills (e : MarketplaceUsageEvent) (r : UsageRecord) : Type 0 where
  pub same_customer : r.customer_aws_account_id ≡ e.customer_aws_account_id
  pub same_dimension : r.dimension ≡ e.dimension
  pub same_quantity : r.quantity ≡ e.quantity
  pub same_timestamp : r.timestamp ≡ e.timestamp_unix_seconds
  pub allocated :
      r.usage_allocations
      ≡ record {
        allocated_usage_quantity = e.quantity;
        tags =
            record { key = codes "tenant_id"; value = e.tenant_id }
            ∷ record { key = codes "proof_id"; value = e.proof_id }
            ∷ record { key = codes "receipt_root_hex"; value = e.receipt_root_hex }
            ∷ [];
      }
        ∷ []

abbrev pub BillsAll : List MarketplaceUsageEvent → List UsageRecord → Type 0
BillsAll [] [] = Unit
BillsAll [] (r ∷ rs) = ⊥
BillsAll (e ∷ es) [] = ⊥
BillsAll (e ∷ es) (r ∷ rs) = Bills e r × BillsAll es rs

-- The quantities of a batch and of a payload, all together.
abbrev pub events_total : List MarketplaceUsageEvent → ℕ
events_total [] = 0
events_total (e ∷ es) = e.quantity + events_total es

abbrev pub records_total : List UsageRecord → ℕ
records_total [] = 0
records_total (r ∷ rs) = r.quantity + records_total rs

usage_record-Bills : (e : MarketplaceUsageEvent) → Bills e (usage_record e)
unfolding usage_record
usage_record-Bills e = record {
  same_customer = refl;
  same_dimension = refl;
  same_quantity = refl;
  same_timestamp = refl;
  allocated = refl;
}

Bills-usage_record : (e : MarketplaceUsageEvent) (r : UsageRecord) → Bills e r → r ≡ usage_record e
unfolding usage_record
Bills-usage_record e r b = λ k. record {
  customer_aws_account_id = b.same_customer k;
  dimension = b.same_dimension k;
  quantity = b.same_quantity k;
  timestamp = b.same_timestamp k;
  usage_allocations = b.allocated k;
}

map-BillsAll : (es : List MarketplaceUsageEvent) → BillsAll es (map usage_record es)
map-BillsAll [] = tt
map-BillsAll (e ∷ es) = (usage_record-Bills e, map-BillsAll es)

BillsAll-map :
    (es : List MarketplaceUsageEvent) (rs : List UsageRecord)
    → BillsAll es rs
    → rs ≡ map usage_record es
BillsAll-map [] [] b = refl
BillsAll-map [] (r ∷ rs) b = absurd b
BillsAll-map (e ∷ es) [] b = absurd b
BillsAll-map (e ∷ es) (r ∷ rs) (b, bs) = ap₂ ◌∷◌ (Bills-usage_record e r b) (BillsAll-map es rs bs)

BillsAll-total :
    (es : List MarketplaceUsageEvent) (rs : List UsageRecord)
    → BillsAll es rs
    → records_total rs ≡ events_total es
BillsAll-total [] [] b = refl
BillsAll-total [] (r ∷ rs) b = absurd b
BillsAll-total (e ∷ es) [] b = absurd b
BillsAll-total (e ∷ es) (r ∷ rs) (b, bs) =
    let q = b.same_quantity in let rest = BillsAll-total es rs bs in omega arith

-- A payload is made of a batch exactly if the product is named and the batch has at most 25 events, and it has for
-- each event, in their order, one record with the event's customer, dimension, quantity and time and with
-- one allocation of the whole quantity, tagged with the event's tenant, proof and receipt root. What it bills all
-- together is what the events count. Otherwise the error is the blank product, or else the number of events.
pub batch_meter_usage_payload_iff :
    (product : Bytes) (events : List MarketplaceUsageEvent)
    → ((p : BatchMeterUsagePayload)
        → (batch_meter_usage_payload product events ≡ ok p) ↔ (
            (is_blank product ≡ false)
            × (length events ≤ 25)
            × (p.product_code ≡ product)
            × BillsAll events p.usage_records))
      × ((p : BatchMeterUsagePayload)
          → batch_meter_usage_payload product events ≡ ok p
          → records_total p.usage_records ≡ events_total events)
      × ((x : MeteringError)
          → batch_meter_usage_payload product events ≡ err x
          → ((is_blank product ≡ true) × (x ≡ missing (codes "product_code")))
            ⊎ ((is_blank product ≡ false)
                × (25 < length events)
                × (x ≡ too_many_records (length events))))
batch_meter_usage_payload_iff product events = (
  (λ p. (made p, λ (named, fits, same, billed). makes p named fits same billed)),
  (λ p h. let (named, fits, same, billed) = made p h in BillsAll-total _ _ billed),
  λ x h. refused x h,
)
  where
    Makes : BatchMeterUsagePayload → Type 0
    Makes p =
        (is_blank product ≡ false)
        × (length events ≤ 25)
        × (p.product_code ≡ product)
        × BillsAll events p.usage_records

    made : (p : BatchMeterUsagePayload) → batch_meter_usage_payload product events ≡ ok p → Makes p
    made p h =
        let (blank, many, few) = batch_branches product events in
        elim (Bool-cases (is_blank product)) [
          | inl b ↦ let e = blank b in absurd (cc)
          | inr named ↦ elim (dec_lt 25 (length events)) [
            | yes over ↦ let e = many named over in absurd (cc)
            | no under ↦
                let fits : length events ≤ 25 = omega arith in
                let (q, e, e1, e2) = few named fits in
                let same : q ≡ p = cc in
                (
                  named,
                  fits,
                  subst (λ q. q.product_code ≡ product) same e1,
                  subst (λ q. BillsAll events q.usage_records) same
                      (subst (BillsAll events) (sym e2) (map-BillsAll events)),
                )
          ]
        ]

    makes :
        (p : BatchMeterUsagePayload)
        → is_blank product ≡ false
        → length events ≤ 25
        → p.product_code ≡ product
        → BillsAll events p.usage_records
        → batch_meter_usage_payload product events ≡ ok p
    makes p named fits same billed =
        let (blank, many, few) = batch_branches product events in
        let (q, e, e1, e2) = few named fits in
        let rs = BillsAll-map events p.usage_records billed in
        e
        ∙ ap ok (λ k. record { product_code = (e1 ∙ sym same) k; usage_records = (e2 ∙ sym rs) k })

    refused :
        (x : MeteringError)
        → batch_meter_usage_payload product events ≡ err x
        → ((is_blank product ≡ true) × (x ≡ missing (codes "product_code")))
          ⊎ ((is_blank product ≡ false)
              × (25 < length events)
              × (x ≡ too_many_records (length events)))
    refused x h =
        let (blank, many, few) = batch_branches product events in
        elim (Bool-cases (is_blank product)) [
          | inl b ↦ let e = blank b in inl (b, cc)
          | inr named ↦ elim (dec_lt 25 (length events)) [
            | yes over ↦ let e = many named over in inr (named, over, cc)
            | no under ↦ let (q, e, e1, e2) = few named (omega arith) in absurd (cc)
          ]
        ]
