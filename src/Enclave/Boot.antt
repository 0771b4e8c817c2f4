-- ===== src/Enclave/Boot.antt =====
-- services/pzdr-enclave/src/main.rs, `EnclaveState::new`: the security module is opened and asked for two
-- seeds, and the keys are made of them. Where the module is closed again by an early return, `Drop` runs.
use pzd.Base.{ℕ, ◌≡◌, refl, sym, Option, none, some, ◌++◌, length, Bytes, codes}
use mathlib.Core.Path.{subst}
use pzd.Base.Result.{Result, ok, err}
use pzd.Enclave.Crates.{Crates}
use pzd.Enclave.Machine.{EnclaveState}
use pzd.Enclave.Queries.{boot}
use pzd.Base.Int.{ℤ, pos, negsuc}
use pzd.Nitro.Attestation.{NitroError, nsm}
use pzd.Nitro.Device.{Driver, EnclaveSelf, get_random, opened, new, random_bytes, drop_self}
use pzd.Nitro.Entropy.{Gives, Declines, Sized, random_bytes_ends}

-- What the boot takes from x25519 and from the derived `Debug` of an error.
pub record Keys : Type 0 where
  pub public_key : Bytes → Bytes
  pub debug_nitro : NitroError → Bytes

module _ (C : Crates) (D : Driver) (K : Keys) where
  -- How the boot ends: with the state and the open module, or with an error.
  abbrev pub Booted : Type 0
  Booted = Result Bytes (EnclaveState × EnclaveSelf) × D.World

  -- A draw of 32 bytes with the rest of the boot, behind a module that is closed on an error.
  abbrev pub drawn :
      EnclaveSelf
      → Option (Result NitroError Bytes × D.World)
      → (Bytes → D.World → Option Booted)
      → Option Booted
  drawn self none rest = none
  drawn self (some (ok seed, w)) rest = rest seed w
  drawn self (some (err e, w)) rest = some (err (K.debug_nitro e), drop_self D self w)

  unfoldable pub with_seeds : EnclaveSelf → Bytes → Bytes → D.World → Option Booted
  with_seeds self channel_seed proof_seed w =
      some (ok (boot C channel_seed (K.public_key channel_seed) proof_seed, self), w)

  unfoldable pub with_module : ℕ → EnclaveSelf → D.World → Option Booted
  unfolding random_bytes with_seeds
  with_module rounds self w = drawn self (random_bytes D rounds self 32 w) λ channel_seed w'.
      drawn self (random_bytes D rounds self 32 w')
        λ proof_seed w''. with_seeds self channel_seed proof_seed w''

  abbrev pub opened_or :
      Result NitroError EnclaveSelf → D.World → (EnclaveSelf → Option Booted) → Option Booted
  opened_or (ok self) w rest = rest self
  opened_or (err e) w rest = some (err (codes "nsm init: " ++ K.debug_nitro e), w)

  -- `none` if a draw has not ended after so many rounds.
  unfoldable pub new_state : ℕ → D.World → Option Booted
  unfolding new with_module
  new_state rounds w = let (r, w') = new D w in opened_or r w' (λ self. with_module rounds self w')

  -- A boot that ended: fresh keys of two seeds of 32 bytes with an empty log, or the error for a module that
  -- cannot be opened, or that answers a draw with something else than random bytes and is closed again.
  pub data Boots : Option Booted → Type 0 where
    started :
        (self : EnclaveSelf) (channel_seed proof_seed : Bytes) (w : D.World)
        → length channel_seed ≡ 32
        → length proof_seed ≡ 32
        → Boots (some (ok (boot C channel_seed (K.public_key channel_seed) proof_seed, self), w))
    unopened :
        (n : ℕ) (v w : D.World)
        → (D.nsm_init v).0 ≡ negsuc n
        → Boots (
            some (
              err (
                  codes "nsm init: "
                  ++ K.debug_nitro (nsm (codes "nsm_init failed: " ++ D.show (negsuc n)))),
              w,
            ))
    declined :
        (self : EnclaveSelf) (e : NitroError) (v w : D.World)
        → Declines D (D.nsm_process_request self.fd get_random v).0 e
        → Boots (some (err (K.debug_nitro e), drop_self D self w))

  drawn-Boots :
      (self : EnclaveSelf) (o : Option (Result NitroError Bytes × D.World))
      (rest : Bytes → D.World → Option Booted)
      → (r : Result NitroError Bytes) (w : D.World) → o ≡ some (r, w)
      → Sized D self 32 r
      → ((seed : Bytes) (w : D.World) → length seed ≡ 32 → Boots (rest seed w))
      → Boots (drawn self o rest)
  drawn-Boots self o rest (ok seed) w e s h =
      subst (λ o. Boots (drawn self o rest)) (sym e) (h seed w s)
  drawn-Boots self o rest (err x) w e s h =
      subst (λ o. Boots (drawn self o rest)) (sym e) (declined self x s.0 w s.1)

  with_module-Boots :
      ((w : D.World) → Gives D w)
      → (self : EnclaveSelf) (w : D.World) → Boots (with_module 32 self w)
  unfolding with_module with_seeds
  with_module-Boots gives self w =
      let (r, v, e, s) = random_bytes_ends D gives self 32 w in
      drawn-Boots self (random_bytes D 32 self 32 w) _ r v e s λ channel_seed w' l.
        let (r', v', e', s') = random_bytes_ends D gives self 32 w' in
        drawn-Boots self (random_bytes D 32 self 32 w') _ r' v' e' s'
          λ proof_seed w'' l'. started self channel_seed proof_seed w'' l l'

  -- If each random answer of the security module has at least one byte, the boot ends within 32 rounds for each
  -- seed: with an empty log, the counter at 0 and keys of two seeds of exactly 32 bytes, so that no
  -- copy of a seed panics, or with an error because the module could not be opened or did not answer a
  -- draw with random bytes.
  pub new_state-Boots : ((w : D.World) → Gives D w) → (w : D.World) → Boots (new_state 32 w)
  unfolding new_state new
  new_state-Boots gives w = began (D.nsm_init w) refl
    where
      began :
          (p : ℤ × D.World)
          → (D.nsm_init w).0 ≡ p.0
          → Boots (opened_or (opened D p.0) p.1 (λ self. with_module 32 self p.1))
      began (pos n, w') e = with_module-Boots gives (record { fd = pos n }) w'
      began (negsuc n, w') e = unopened n w w' e
