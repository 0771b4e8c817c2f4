-- ===== src/Enclave/Sessions.antt =====
-- A run of the enclave: requests served one after the other, as `main` accepts them, each to its end.
use mathlib.Core.Path.{subst}
use pzd.Base.{
  ℕ, ◌+◌, ◌^◌, ◌%◌, ◌≤◌, ◌<◌, ◌≡◌, inl, inr, arith, Bool, true, false, ◌&&◌, List, [], ◌∷◌, Bytes,
  codes, refl, sym, ap, ◌∙◌, bytes_eq, bytes_eq_refl, bytes_eq_sound, and_parts, if◌then◌else◌,
  Bool-cases,
}
use pzd.Base.Result.{Result}
use pzd.Ledger.{size, root_at, leaf_at, append}
use pzd.Ledger.Log.{append_lem}
use pzd.Enclave.Crates.{Crates, VsockEnvelope}
use pzd.Enclave.Machine.{EnclaveState, Machine}
use pzd.Enclave.Dispatch.{VsockResponse, dispatch, inference}
use pzd.Enclave.Requests.{IsInference, Served, dispatch-Served}

-- Whether a request is a session, and how many of some requests are.
unfoldable pub is_session : VsockEnvelope → Bool
is_session env = bytes_eq env.method (codes "POST") && bytes_eq env.path inference

unfoldable pub sessions : List VsockEnvelope → ℕ
unfolding is_session
sessions [] = 0
sessions (env ∷ envs) = (if is_session env then 1 else 0) + sessions envs

is_session-true : (env : VsockEnvelope) → IsInference env → is_session env ≡ true
unfolding is_session
is_session-true env (a, b) =
    let x : bytes_eq env.method (codes "POST") ≡ true =
      ap (λ t. bytes_eq t (codes "POST")) a ∙ bytes_eq_refl (codes "POST") in
    let y : bytes_eq env.path inference ≡ true =
      ap (λ t. bytes_eq t inference) b ∙ bytes_eq_refl inference in
    ground arith

is_session-false : (env : VsockEnvelope) → ¬ IsInference env → is_session env ≡ false
unfolding is_session
is_session-false env other = elim (Bool-cases (is_session env)) [
  | inl t ↦
      absurd
        (other (bytes_eq_sound _ _ (and_parts _ _ t).0, bytes_eq_sound _ _ (and_parts _ _ t).1))
  | inr f ↦ f
]

module _ (C : Crates) where
  -- `loop { listener.accept() .. handle_conn }`
  pub serve_all : List VsockEnvelope → Machine C → Machine C
  serve_all [] m = m
  serve_all (env ∷ envs) m = serve_all envs (dispatch C env m).1

  -- The step from one state of the enclave to a later one, in which `k` sessions ended.
  pub record Later (k : ℕ) (s t : EnclaveState) : Type 0 where
    pub counted : t.counter ≡ (s.counter + k) % 2 ^ 64
    pub grown : size t.ledger ≡ size s.ledger + k
    pub kept : (n : ℕ) → n ≤ size s.ledger → root_at C.sha t.ledger n ≡ root_at C.sha s.ledger n
    pub same_leaves : (i : ℕ) → i < size s.ledger → leaf_at t.ledger i ≡ leaf_at s.ledger i
    pub same_keys : (t.channel_sk ≡ s.channel_sk) × (t.proof_sk ≡ s.proof_sk)

  Later-zero : (s : EnclaveState) → s.counter < 2 ^ 64 → Later 0 s s
  Later-zero s h = record {
    counted = omega arith;
    grown = omega arith;
    kept = λ n le. refl;
    same_leaves = λ i lt. refl;
    same_keys = (refl, refl);
  }

  Later-append :
      (s : EnclaveState) (entry : Bytes)
      → Later 1 s (record s {
        counter = (s.counter + 1) % 2 ^ 64;
        ledger = (append C.sha s.ledger entry).0;
      })
  Later-append s entry =
      let (at, grown, leaf, roots, leaves) = append_lem C.sha s.ledger entry in
      record {
        counted = refl;
        grown = grown;
        kept = roots;
        same_leaves = leaves;
        same_keys = (refl, refl);
      }

  Later-trans : (j k : ℕ) (s t u : EnclaveState) → Later j s t → Later k t u → Later (j + k) s u
  Later-trans j k s t u p q = record {
    counted = omega (arith, p.counted, q.counted);
    grown = omega (arith, p.grown, q.grown);
    kept = λ n le. q.kept n (omega (arith, p.grown)) ∙ p.kept n le;
    same_leaves = λ i lt. q.same_leaves i (omega (arith, p.grown)) ∙ p.same_leaves i lt;
    same_keys = (q.same_keys.0 ∙ p.same_keys.0, q.same_keys.1 ∙ p.same_keys.1);
  }

  Served-Later :
      (env : VsockEnvelope) (m : Machine C) (out : Result Bytes VsockResponse × Machine C)
      → m.state.counter < 2 ^ 64
      → Served C env m out
      → Later (if is_session env then 1 else 0) m.state out.1.state
  Served-Later env m out h (Served.session here m' r e) =
      rw (is_session-true env here)
        (subst (Later 1 m.state) (sym (e ∙ r.left)) (Later-append m.state r.received.entry))
  Served-Later env m out h (Served.query other resp w) =
      rw (is_session-false env other) (Later-zero m.state h)

  -- Whatever requests come, the counter goes up by one for every session (mod 2^64), the log grows by one
  -- leaf for every session and keeps its leaves and the root of every size that it had, and the keys stay.
  pub serve_all-Later :
      (envs : List VsockEnvelope) (m : Machine C)
      → m.state.counter < 2 ^ 64
      → Later (sessions envs) m.state (serve_all envs m).state
  unfolding serve_all sessions
  serve_all-Later [] m h = Later-zero m.state h
  serve_all-Later (env ∷ envs) m h =
      let m1 = (dispatch C env m).1 in
      let step = Served-Later env m (dispatch C env m) h (dispatch-Served C env m) in
      Later-trans _ _ m.state m1.state _ step
        (serve_all-Later envs m1 (omega (arith, step.counted)))
