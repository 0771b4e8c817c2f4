-- ===== src/Metering/Events.antt =====
-- Which inputs `new` makes an event of, and what two events with one key share.
use pzd.Base.{
  ◌∷◌, [], inl, inr, Bool-cases, ==_iff, ◌≡◌, ◌≢◌, ◌↔◌, ◌⊎◌, arith, Bool, true, false, List, All,
  Bytes, codes, refl, sym, ap, ◌∙◌, ◌==◌, if◌then◌else◌,
}
use mathlib.Core.Path.{subst}
use pzd.Base.Fails.{Fails, Fails-err, Fails-if}
use pzd.Base.Result.{Result, ok, err, >>=-inv, ◌>>◌}
use pzd.Ledger.{Sha256}
use pzd.Ledger.Collision.{Collision}
use pzd.Metering.{
  MeteringError, MarketplaceUsageInput, MarketplaceUsageEvent, is_blank, require, key_parts,
  stable_idempotency_key, event_of, new, missing, invalid_quantity,
}
use pzd.Metering.Keys.{Short, stable_idempotency_key_binds}

-- Every field that the key covers has more than white space in it, and something is to be billed.
pub record Billable (i : MarketplaceUsageInput) : Type 0 where
  pub filled : All (λ part. is_blank part ≡ false) (key_parts i)
  pub counts : i.quantity ≢ 0

-- The texts that have to be filled, by the names that an error has for them, in the order of the checks.
abbrev pub named_texts : MarketplaceUsageInput → List (Bytes × Bytes)
named_texts i =
    (codes "product_code", i.product_code)
    ∷ (codes "customer_aws_account_id", i.customer_aws_account_id)
    ∷ (codes "dimension", i.dimension)
    ∷ (codes "tenant_id", i.tenant_id)
    ∷ (codes "request_id", i.request_id)
    ∷ (codes "proof_id", i.proof_id)
    ∷ (codes "receipt_root_hex", i.receipt_root_hex)
    ∷ []

-- The name belongs to the first blank text.
abbrev pub FirstBlank : Bytes → List (Bytes × Bytes) → Type 0
FirstBlank name [] = ⊥
FirstBlank name ((field, value) ∷ texts) =
    ((is_blank value ≡ true) × (name ≡ field)) ⊎ ((is_blank value ≡ false) × FirstBlank name texts)

-- What is wrong with an input, by the error that stands for it.
pub data Unbillable (i : MarketplaceUsageInput) : MeteringError → Type 0 where
  lacks : (name : Bytes) → FirstBlank name (named_texts i) → Unbillable i (missing name)
  free :
      All (λ part. is_blank part ≡ false) (key_parts i)
      → i.quantity ≡ 0
      → Unbillable i invalid_quantity

-- The checks of some texts, one after the other, and what is done behind them.
abbrev checked :
    {A : Type 0} → List (Bytes × Bytes) → Result MeteringError A → Result MeteringError A
checked [] rest = rest
checked ((field, value) ∷ texts) rest = require field value >> checked texts rest

checked-Fails :
    {A : Type 0} (P : MeteringError → Type 0) (texts : List (Bytes × Bytes))
    (rest : Result MeteringError A)
    → ((name : Bytes) → FirstBlank name texts → P (missing name))
    → (All (λ t. is_blank t.1 ≡ false) texts → Fails P rest)
    → Fails P (checked texts rest)
unfolding require
checked-Fails P [] rest first later = later tt
checked-Fails P ((field, value) ∷ texts) rest first later = elim (Bool-cases (is_blank value)) [
  | inl blank ↦
      subst (λ b. Fails P ((if b then err (missing field) else ok tt) >> checked texts rest))
        (sym blank) (Fails-err P _ (first field (inl (blank, refl))))
  | inr filled ↦
      subst (λ b. Fails P ((if b then err (missing field) else ok tt) >> checked texts rest))
        (sym filled)
        (checked-Fails P texts rest (λ name f. first name (inr (filled, f)))
          (λ fs. later (filled, fs)))
]

require-inv :
    (field value : Bytes) (u : Unit {0}) → require field value ≡ ok u → is_blank value ≡ false
unfolding require
require-inv field value u h = ground arith

require-filled : (field value : Bytes) → is_blank value ≡ false → require field value ≡ ok tt
unfolding require
require-filled field value h = rw h refl

module _ (H : Sha256) (hex_encode : Bytes → Bytes) where
  new-Billable :
      (i : MarketplaceUsageInput) (e : MarketplaceUsageEvent)
      → new H hex_encode i ≡ ok e
      → Billable i × (e ≡ event_of H hex_encode i)
  unfolding new key_parts
  new-Billable i e h =
      let (u1, r1, h1) = >>=-inv (require (codes "product_code") i.product_code) _ _ h in
      let (u2, r2, h2) =
        >>=-inv (require (codes "customer_aws_account_id") i.customer_aws_account_id) _ _ h1 in
      let (u3, r3, h3) = >>=-inv (require (codes "dimension") i.dimension) _ _ h2 in
      let (u4, r4, h4) = >>=-inv (require (codes "tenant_id") i.tenant_id) _ _ h3 in
      let (u5, r5, h5) = >>=-inv (require (codes "request_id") i.request_id) _ _ h4 in
      let (u6, r6, h6) = >>=-inv (require (codes "proof_id") i.proof_id) _ _ h5 in
      let (u7, r7, h7) = >>=-inv (require (codes "receipt_root_hex") i.receipt_root_hex) _ _ h6 in
      let (counts, same) = last (i.quantity == 0) (event_of H hex_encode i) e h7 in
      let billed : i.quantity ≢ 0 = λ z. absurd (ground arith) in
      (
        record {
          filled = (
            require-inv _ _ _ r1,
            (
              require-inv _ _ _ r2,
              (
                require-inv _ _ _ r3,
                (
                  require-inv _ _ _ r4,
                  (require-inv _ _ _ r5, (require-inv _ _ _ r6, (require-inv _ _ _ r7, tt))),
                ),
              ),
            ),
          );
          counts = billed;
        },
        same,
      )
    where
      last :
          (b : Bool) (d e : MarketplaceUsageEvent)
          → Path
              (Result MeteringError MarketplaceUsageEvent)
              (if b then err invalid_quantity else ok d)
              (ok e)
          → (b ≡ false) × (e ≡ d)
      last true d e h = absurd (cc)
      last false d e h = (refl, cc)

  Billable-new :
      (i : MarketplaceUsageInput) → Billable i → new H hex_encode i ≡ ok (event_of H hex_encode i)
  unfolding new key_parts
  Billable-new i b =
      let f = b.filled in
      let q : (i.quantity == 0) ≡ false = ground (arith, b.counts) in
      rw
        (
          require-filled (codes "product_code") i.product_code (f.0),
          require-filled (codes "customer_aws_account_id") i.customer_aws_account_id (f.1.0),
          require-filled (codes "dimension") i.dimension (f.1.1.0),
          require-filled (codes "tenant_id") i.tenant_id (f.1.1.1.0),
          require-filled (codes "request_id") i.request_id (f.1.1.1.1.0),
          require-filled (codes "proof_id") i.proof_id (f.1.1.1.1.1.0),
          require-filled (codes "receipt_root_hex") i.receipt_root_hex (f.1.1.1.1.1.1.0),
          q,
        )
        refl

  new-Unbillable : (i : MarketplaceUsageInput) → Fails (Unbillable i) (new H hex_encode i)
  unfolding new key_parts
  new-Unbillable i =
      checked-Fails (Unbillable i) (named_texts i)
        (if i.quantity == 0 then err invalid_quantity else ok (event_of H hex_encode i))
        (λ name f. lacks name f)
        (λ fs.
          Fails-if (Unbillable i) (i.quantity == 0) _ _
            (λ z. Fails-err (Unbillable i) _ (free fs ((==_iff i.quantity 0).0 z)))
            (λ f e h. absurd (cc)))

  -- The event has the data of the input, and a key of its seven texts in their order.
  pub record Carries (i : MarketplaceUsageInput) (e : MarketplaceUsageEvent) : Type 0 where
    pub same_product : e.product_code ≡ i.product_code
    pub same_customer : e.customer_aws_account_id ≡ i.customer_aws_account_id
    pub same_dimension : e.dimension ≡ i.dimension
    pub same_quantity : e.quantity ≡ i.quantity
    pub same_timestamp : e.timestamp_unix_seconds ≡ i.timestamp_unix_seconds
    pub same_tenant : e.tenant_id ≡ i.tenant_id
    pub same_request : e.request_id ≡ i.request_id
    pub same_proof : e.proof_id ≡ i.proof_id
    pub same_root : e.receipt_root_hex ≡ i.receipt_root_hex
    pub keyed :
        e.idempotency_key
        ≡ stable_idempotency_key H hex_encode (
            i.product_code ∷ i.customer_aws_account_id ∷ i.dimension ∷ i.tenant_id ∷ i.request_id
            ∷ i.proof_id ∷ i.receipt_root_hex ∷ [])

  event_of-Carries : (i : MarketplaceUsageInput) → Carries i (event_of H hex_encode i)
  unfolding event_of key_parts
  event_of-Carries i = record {
    same_product = refl;
    same_customer = refl;
    same_dimension = refl;
    same_quantity = refl;
    same_timestamp = refl;
    same_tenant = refl;
    same_request = refl;
    same_proof = refl;
    same_root = refl;
    keyed = refl;
  }

  -- An event is determined by its ten fields.
  Carries-event_of :
      (i : MarketplaceUsageInput) (e : MarketplaceUsageEvent)
      → Carries i e
      → e ≡ event_of H hex_encode i
  unfolding event_of key_parts
  Carries-event_of i e c = λ k. record {
    product_code = c.same_product k;
    customer_aws_account_id = c.same_customer k;
    dimension = c.same_dimension k;
    quantity = c.same_quantity k;
    timestamp_unix_seconds = c.same_timestamp k;
    tenant_id = c.same_tenant k;
    request_id = c.same_request k;
    proof_id = c.same_proof k;
    receipt_root_hex = c.same_root k;
    idempotency_key = c.keyed k;
  }

  -- An input becomes an event exactly if each of its seven texts has more than white space in it and its
  -- quantity is not zero, and the event has each field of the input and the key of the seven texts in their
  -- order. Otherwise the error names the first text that is blank, or says that the quantity is zero where
  -- none is.
  pub new_iff :
      (i : MarketplaceUsageInput)
      → ((e : MarketplaceUsageEvent) → (new H hex_encode i ≡ ok e) ↔ (Billable i × Carries i e))
        × ((x : MeteringError) → new H hex_encode i ≡ err x → Unbillable i x)
  new_iff i = (
    (λ e. (
      (λ h. let (b, s) = new-Billable i e h in (b, subst (Carries i) (sym s) (event_of-Carries i))),
      λ (b, c). Billable-new i b ∙ ap ok (sym (Carries-event_of i e c)),
    )),
    λ x h. new-Unbillable i x h,
  )

  -- Two events that were made with one idempotency key agree in their product, customer, dimension, tenant,
  -- request, proof and receipt root, or they show a collision of SHA-256, where hex encoding tells
  -- digests apart and no text has 2^64 bytes.
  pub new_binds :
      ((a b : Bytes) → hex_encode a ≡ hex_encode b → a ≡ b)
      → (i j : MarketplaceUsageInput) (d e : MarketplaceUsageEvent) → Short (key_parts i)
      → Short (key_parts j)
      → new H hex_encode i ≡ ok d
      → new H hex_encode j ≡ ok e
      → d.idempotency_key ≡ e.idempotency_key
      → (key_parts i ≡ key_parts j) ⊎ Collision H
  unfolding event_of key_parts
  new_binds inj i j d e si sj hi hj same =
      let (bi, pi) = new-Billable i d hi in
      let (bj, pj) = new-Billable j e hj in
      stable_idempotency_key_binds H hex_encode inj (key_parts i) (key_parts j) refl si sj
        (sym (ap (λ x. x.idempotency_key) pi) ∙ same ∙ ap (λ x. x.idempotency_key) pj)
