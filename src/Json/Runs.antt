-- ===== src/Json/Runs.antt =====
-- Runs of `sort_keys`, and the theorems there.
use pzd.Base.{◌≡◌, refl, codes, bytes_eq}
use pzd.Json.{Value, empty, entry, number, object, array, nil, item, sort_keys, sort, collect, keys}
use mathlib.Core.Option
use pzd.Base.{List}
use pzd.Json.Canonical.{Canonical}
use pzd.Json.Sorted.{Step, at, sort_keys_lem}

abbrev ordered : Value
ordered =
    object (entry (codes "a") (number 1) (entry (codes "b") (array (item (number 2) nil)) empty))

abbrev unordered : Value
unordered =
    object (entry (codes "b") (array (item (number 2) nil)) (entry (codes "a") (number 1) empty))

sorts_keys : sort_keys unordered ≡ ordered
unfolding sort_keys collect sort keys bytes_eq
sorts_keys = refl

sort_keys_lem_example :
    Canonical (sort_keys unordered)
    × ((p : List Step) → at p (sort_keys unordered) ≡ Option.map sort_keys (at p unordered))
    × (Canonical unordered → sort_keys unordered ≡ unordered)
sort_keys_lem_example = sort_keys_lem unordered
