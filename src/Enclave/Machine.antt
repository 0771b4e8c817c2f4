-- ===== src/Enclave/Machine.antt =====
-- services/pzdr-enclave/src/main.rs, `EnclaveState`: the state of the enclave beside its machine, and
-- the steps that read or change them. A handler is a step that returns a value or an error, and what it
-- changed before an error stays changed.
use pzd.Base.{◌≡◌, ap, ℕ, ◌+◌, ◌-◌, ◌%◌, ◌^◌, Bytes}
use pzd.Base.Result.{Result, ok, err}
use pzd.Ledger.{TransparencyLog, Hash}
use pzd.Policy.{Policy}
use pzd.Enclave.Crates.{Crates}
use pzd.Enclave.Wire.{
  CheckpointStatement, SignedCheckpoint, canonical_json, checkpoint_statement_value,
}

pub record EnclaveState : Type 0 where
  pub channel_sk : Bytes
  pub channel_pk : Bytes
  pub proof_sk : Bytes
  pub counter : ℕ
  pub ledger : TransparencyLog
  pub policy : Policy

module _ (C : Crates) where
  pub record Machine : Type 0 where
    pub state : EnclaveState
    pub world : C.World

abbrev pub Act : Crates → Type 0 → Type 0
Act C A = Machine C → Result Bytes A × Machine C

abbrev pub pure : {C : Crates} {A : Type 0} → A → Act C A
pure a m = (ok a, m)

infixl 5 ◌>>=◌
abbrev pub ◌>>=◌ : {C : Crates} {A B : Type 0} → Act C A → (A → Act C B) → Act C B
(act >>= f) m = let (r, m') = act m in elim r [ ok a ↦ f a m' | err e ↦ (err e, m') ]

-- A step that answered, and the steps behind it.
pub >>=-ok :
    {C : Crates} {A B : Type 0} (act : Act C A) (f : A → Act C B) (m m' : Machine C) (a : A)
    → act m ≡ (ok a, m')
    → (act >>= f) m ≡ f a m'
>>=-ok act f m m' a e = ap (λ p. elim p.0 [ ok b ↦ f b p.1 | err b ↦ (err b, p.1) ]) e

-- `?` on a result, and `ok_or_else` on an option.
abbrev pub try : {C : Crates} {A : Type 0} → Result Bytes A → Act C A
try r m = (r, m)

module _ (C : Crates) where
  -- `self`
  unfoldable pub current : Act C EnclaveState
  current m = (ok m.state, m)

  unfoldable pub now_secs : Act C ℕ
  now_secs m = let (t, w) = C.read_clock m.world in (ok t, record m { world = w })

  unfoldable pub random_hex : ℕ → Act C Bytes
  random_hex n m =
      let (b, w) = C.fill_bytes n m.world in (ok (C.hex_encode b), record m { world = w })

  -- `t0.elapsed().as_micros() as u64`
  unfoldable pub elapsed_us : ℕ → Act C ℕ
  elapsed_us t0 m =
      let (t, w) = C.read_instant m.world in (ok ((t - t0) % 2 ^ 64), record m { world = w })

  unfoldable pub instant_now : Act C ℕ
  instant_now m = let (t, w) = C.read_instant m.world in (ok t, record m { world = w })

  -- `self.counter.fetch_add(1)`, which wraps and returns the old value.
  unfoldable pub fetch_add : Act C ℕ
  fetch_add m = (
    ok m.state.counter,
    record m { state = record m.state { counter = (m.state.counter + 1) % 2 ^ 64 } },
  )

  -- The panic of `expect` is an error of its own.
  unfoldable pub sign_checkpoint : ℕ → Hash → Act C SignedCheckpoint
  unfolding current now_secs
  sign_checkpoint size root = do
    t ← now_secs
    let statement : CheckpointStatement = record {
      size = size;
      root_hex = C.hex_encode root;
      timestamp = t;
    }
    self ← current
    bytes ← try (canonical_json C (checkpoint_statement_value statement))
    pure (record {
      size = statement.size;
      root_hex = statement.root_hex;
      timestamp = statement.timestamp;
      checkpoint_signature_b64 = C.base64_encode (C.sign self.proof_sk bytes);
    })
