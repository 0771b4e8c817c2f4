-- ===== src/Metering.antt =====
-- crates/marketplace-metering/src/lib.rs: usage events with their idempotency key, and the payload of a
-- batch of them. SHA-256 and `hex::encode` are parameters. A string is the list of its UTF-8 bytes.
pub mod Keys
pub mod Events
pub mod Batch
pub mod Journal
pub mod Appended
pub mod Command
pub mod Printed
mod Runs
use pzd.Base.{
  ℕ, ◌+◌, ◌/◌, ◌%◌, ◌^◌, ◌>>=◌, ◌>>◌, Bool, true, false, ◌&&◌, ◌||◌, List, [], ◌∷◌, ◌++◌, length,
  map, Bytes, codes, ltb, leb, ◌==◌, if◌then◌else◌,
}
use pzd.Base.Result.{Result, ok, err}
use pzd.Ledger.{Sha256}

pub data MeteringError : Type 0 where
  missing : Bytes → MeteringError
  invalid_quantity : MeteringError
  too_many_records : ℕ → MeteringError
  io : Bytes → MeteringError
  json : Bytes → MeteringError

-- A timestamp is an i64, and the code never computes with it: its eight bytes.
pub record MarketplaceUsageInput : Type 0 where
  pub product_code : Bytes
  pub customer_aws_account_id : Bytes
  pub dimension : Bytes
  pub quantity : ℕ
  pub timestamp_unix_seconds : Bytes
  pub tenant_id : Bytes
  pub request_id : Bytes
  pub proof_id : Bytes
  pub receipt_root_hex : Bytes

pub record MarketplaceUsageEvent : Type 0 where
  pub product_code : Bytes
  pub customer_aws_account_id : Bytes
  pub dimension : Bytes
  pub quantity : ℕ
  pub timestamp_unix_seconds : Bytes
  pub tenant_id : Bytes
  pub request_id : Bytes
  pub proof_id : Bytes
  pub receipt_root_hex : Bytes
  pub idempotency_key : Bytes

pub record UsageAllocationTag : Type 0 where
  pub key : Bytes
  pub value : Bytes

pub record UsageAllocation : Type 0 where
  pub allocated_usage_quantity : ℕ
  pub tags : List UsageAllocationTag

pub record UsageRecord : Type 0 where
  pub customer_aws_account_id : Bytes
  pub dimension : Bytes
  pub quantity : ℕ
  pub timestamp : Bytes
  pub usage_allocations : List UsageAllocation

pub record BatchMeterUsagePayload : Type 0 where
  pub product_code : Bytes
  pub usage_records : List UsageRecord

-- The white space of Unicode, by the length of its UTF-8 encoding.
pub white_1 : ℕ → Bool
white_1 a = (leb 9 a && leb a 13) || a == 32

pub white_2 : ℕ → ℕ → Bool
white_2 a b = a == 0xC2 && (b == 0x85 || b == 0xA0)

pub white_3 : ℕ → ℕ → ℕ → Bool
white_3 a b c =
    (a == 0xE1 && b == 0x9A && c == 0x80)
    || (a == 0xE2
        && b == 0x80
        && ((leb 0x80 c && leb c 0x8A) || c == 0xA8 || c == 0xA9 || c == 0xAF))
    || (a == 0xE2 && b == 0x81 && c == 0x9F)
    || (a == 0xE3 && b == 0x80 && c == 0x80)

-- `value.trim().is_empty()`: nothing but white space.
unfoldable pub is_blank : Bytes → Bool
unfolding white_1 white_2 white_3
is_blank [] = true
is_blank (a ∷ []) = white_1 a
is_blank (a ∷ b ∷ []) = let rest = is_blank (b ∷ []) in if white_1 a then rest else white_2 a b
is_blank (a ∷ b ∷ c ∷ s) =
    let after_1 = is_blank (b ∷ c ∷ s) in
    let after_2 = is_blank (c ∷ s) in
    let after_3 = is_blank s in
    if white_1 a
    then after_1
    else if white_2 a b
    then after_2
    else if white_3 a b c
    then after_3
    else false

pub require : Bytes → Bytes → Result MeteringError (Unit {0})
unfolding is_blank
require field value = if is_blank value then err (missing field) else ok tt

-- `(part.len() as u64).to_be_bytes()`
pub length_bytes : ℕ → Bytes
length_bytes n =
    n / 2 ^ 56
    ∷ (n / 2 ^ 48) % 2 ^ 8
    ∷ (n / 2 ^ 40) % 2 ^ 8
    ∷ (n / 2 ^ 32) % 2 ^ 8
    ∷ (n / 2 ^ 24) % 2 ^ 8
    ∷ (n / 2 ^ 16) % 2 ^ 8
    ∷ (n / 2 ^ 8) % 2 ^ 8
    ∷ n % 2 ^ 8
    ∷ []

-- The bytes that the loop over the parts hands to the hasher.
pub hashed_parts : List Bytes → Bytes
unfolding length_bytes
hashed_parts [] = []
hashed_parts (part ∷ parts) = length_bytes (length part) ++ (part ++ hashed_parts parts)

-- The fields of the key, in their order.
pub key_parts : MarketplaceUsageInput → List Bytes
key_parts i =
    i.product_code ∷ i.customer_aws_account_id ∷ i.dimension ∷ i.tenant_id ∷ i.request_id
    ∷ i.proof_id ∷ i.receipt_root_hex ∷ []

-- The record of one event.
pub usage_record : MarketplaceUsageEvent → UsageRecord
usage_record event = record {
  customer_aws_account_id = event.customer_aws_account_id;
  dimension = event.dimension;
  quantity = event.quantity;
  timestamp = event.timestamp_unix_seconds;
  usage_allocations =
      record {
        allocated_usage_quantity = event.quantity;
        tags =
            record { key = codes "tenant_id"; value = event.tenant_id }
            ∷ record { key = codes "proof_id"; value = event.proof_id }
            ∷ record { key = codes "receipt_root_hex"; value = event.receipt_root_hex }
            ∷ [];
      }
      ∷ [];
}

unfoldable pub batch_meter_usage_payload :
    Bytes → List MarketplaceUsageEvent → Result MeteringError BatchMeterUsagePayload
batch_meter_usage_payload product_code events = do
  require (codes "product_code") product_code
  if ltb 25 (length events)
      then err (too_many_records (length events))
      else ok (record { product_code = product_code; usage_records = map usage_record events })

module _ (H : Sha256) (hex_encode : Bytes → Bytes) where
  pub stable_idempotency_key : List Bytes → Bytes
  stable_idempotency_key parts = hex_encode (H.digest (hashed_parts parts))

  -- The event of an input, with its key.
  pub event_of : MarketplaceUsageInput → MarketplaceUsageEvent
  event_of input = record {
    product_code = input.product_code;
    customer_aws_account_id = input.customer_aws_account_id;
    dimension = input.dimension;
    quantity = input.quantity;
    timestamp_unix_seconds = input.timestamp_unix_seconds;
    tenant_id = input.tenant_id;
    request_id = input.request_id;
    proof_id = input.proof_id;
    receipt_root_hex = input.receipt_root_hex;
    idempotency_key = stable_idempotency_key (key_parts input);
  }

  pub new : MarketplaceUsageInput → Result MeteringError MarketplaceUsageEvent
  new input = do
    require (codes "product_code") input.product_code
    require (codes "customer_aws_account_id") input.customer_aws_account_id
    require (codes "dimension") input.dimension
    require (codes "tenant_id") input.tenant_id
    require (codes "request_id") input.request_id
    require (codes "proof_id") input.proof_id
    require (codes "receipt_root_hex") input.receipt_root_hex
    if input.quantity == 0 then err invalid_quantity else ok (event_of input)

  pub inference :
      Bytes
      → Bytes
      → Bytes
      → Bytes
      → Bytes
      → Bytes
      → Bytes
      → Result MeteringError MarketplaceUsageEvent
  inference product_code customer_aws_account_id tenant_id request_id proof_id receipt_root_hex
        timestamp =
      new (record {
        product_code = product_code;
        customer_aws_account_id = customer_aws_account_id;
        dimension = codes "inference_request";
        quantity = 1;
        timestamp_unix_seconds = timestamp;
        tenant_id = tenant_id;
        request_id = request_id;
        proof_id = proof_id;
        receipt_root_hex = receipt_root_hex;
      })
