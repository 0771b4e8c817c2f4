-- ===== src/Enclave/BootRuns.antt =====
-- A run of the boot.
use mathlib.Core.Path.{subst}
use pzd.Base.{ℕ, ◌≡◌, ◌≤◌, ◌∷◌, [], length, codes, arith}
use pzd.Nitro.Entropy.{Gives}
use pzd.Nitro.Toy.{toy_driver}
use pzd.Enclave.Small.{small}
use pzd.Enclave.Boot.{Keys, Boots, new_state, new_state-Boots}

abbrev small_keys : Keys
small_keys = record { public_key = λ seed. seed; debug_nitro = λ e. codes "Nsm" }

new_state-Boots_example :
    Boots small toy_driver small_keys (new_state small toy_driver small_keys 32 7)
new_state-Boots_example = new_state-Boots small toy_driver small_keys gives 7
  where
    gives : (w : ℕ) → Gives toy_driver w
    gives w fd r e = let e' : w ∷ w ∷ w ∷ [] ≡ r = cc in subst (λ r. 1 ≤ length r) e' (omega arith)
