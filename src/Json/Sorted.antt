-- ===== src/Json/Sorted.antt =====
-- What `sort_keys` keeps: at every path into a value, what stood there, sorted.
use mathlib.Core.Path.{subst}
use mathlib.Core.Option
use pzd.Base.{
  ℕ, zero, suc, ◌≡◌, inl, inr, arith, Bool, true, false, ◌||◌, Option, none, some, List, [], ◌∷◌,
  Bytes, bytes_eq, bytes_eq_sound, bytes_eq_refl, refl, sym, ap, ◌∙◌, Bool-cases, Option-cases,
  if◌then◌else◌,
}
use pzd.Json.{
  Value, null, bool, number, other_number, string, array, object, Items, nil, item, Map, empty,
  entry, key_lt, insert, get, keys, insert_key, sort, collect, insert_found, field, sort_keys,
  sort_items, sort_values,
}
use pzd.Json.Canonical.{Canonical, sort_keys-Canonical}
use pzd.Json.Keys.{sort_keys-ordered}

-- A step into a value: to a key of an object, or to an index of an array.
pub data Step : Type 0 where
  key : Bytes → Step
  index : ℕ → Step

pub nth : ℕ → Items → Option Value
nth n nil = none
nth zero (item v vs) = some v
nth (suc n) (item v vs) = nth n vs

pub step : Step → Value → Option Value
unfolding nth field
step (key k) v = field k v
step (index n) (array a) = nth n a
step (index n) null = none
step (index n) (bool b) = none
step (index n) (number m) = none
step (index n) (other_number t) = none
step (index n) (string s) = none
step (index n) (object m) = none

-- The rest of a path, where there is something to go on from.
abbrev pub onward : Option Value → (Value → Option Value) → Option Value
onward none rest = none
onward (some v) rest = rest v

-- What stands at the end of a path.
pub at : List Step → Value → Option Value
unfolding step
at [] v = some v
at (s ∷ p) v = onward (step s v) (at p)

get-insert_same : (k : Bytes) (v : Value) (m : Map) → get k (insert k v m) ≡ some v
unfolding get insert
get-insert_same k v empty = rw (bytes_eq_refl k) refl
get-insert_same k v (entry q w m) = elim (Bool-cases (bytes_eq k q)) [
  | inl same ↦ rw (same, bytes_eq_refl k) refl
  | inr other ↦ elim (Bool-cases (key_lt k q)) [
    | inl below ↦ rw (other, below, bytes_eq_refl k) refl
    | inr above ↦ rw (other, above, other) (get-insert_same k v m)
  ]
]

get-insert_other :
    (k q : Bytes) (v : Value) (m : Map) → bytes_eq k q ≡ false → get k (insert q v m) ≡ get k m
unfolding get insert
get-insert_other k q v empty h = rw h refl
get-insert_other k q v (entry r w m) h = elim (Bool-cases (bytes_eq q r)) [
  | inl same ↦
      let e = bytes_eq_sound q r same in rw (same, h, subst (λ x. bytes_eq k x ≡ false) e h) refl
  | inr other ↦ elim (Bool-cases (key_lt q r)) [
    | inl below ↦ rw (other, below, h) refl
    | inr above ↦
        rw (other, above)
          (ap (λ g. if bytes_eq k r then some w else g) (get-insert_other k q v m h))
  ]
]

-- Whether a key is one of some.
has : Bytes → List Bytes → Bool
has k [] = false
has k (q ∷ qs) = bytes_eq k q || has k qs

has-insert_key :
    (k q : Bytes) (qs : List Bytes) → has k (insert_key q qs) ≡ (bytes_eq k q || has k qs)
unfolding has insert_key
has-insert_key k q [] = refl
has-insert_key k q (r ∷ rs) = elim (Bool-cases (key_lt r q)) [
  | inl below ↦ rw below (let ih = has-insert_key k q rs in ground arith)
  | inr above ↦ rw above refl
]

has-sort : (k : Bytes) (ks : List Bytes) → has k (sort ks) ≡ has k ks
unfolding has sort
has-sort k [] = refl
has-sort k (q ∷ qs) = has-insert_key k q (sort qs) ∙ ap (λ b. bytes_eq k q || b) (has-sort k qs)

has-keys : (k : Bytes) (m : Map) (v : Value) → get k m ≡ some v → has k (keys m) ≡ true
unfolding get has keys
has-keys k empty v h = absurd (cc)
has-keys k (entry q w m) v h = elim (Bool-cases (bytes_eq k q)) [
  | inl same ↦ rw same refl
  | inr other ↦ rw other (has-keys k m v (sym (ap (λ b. if b then some w else get k m) other) ∙ h))
]

-- A pass of the loop keeps an entry that is the map's.
get-insert_found :
    (k q : Bytes) (o : Option Value) (m sorted : Map)
    → get q m ≡ o
    → get k sorted ≡ get k m
    → get k (insert_found q o sorted) ≡ get k m
unfolding insert_found
get-insert_found k q none m sorted f h = h
get-insert_found k q (some v) m sorted f h = elim (Bool-cases (bytes_eq k q)) [
  | inl same ↦
      let e = bytes_eq_sound k q same in
      subst (λ x. get x (insert q v sorted) ≡ get x m) (sym e) (get-insert_same q v sorted ∙ sym f)
  | inr other ↦ get-insert_other k q v sorted other ∙ h
]

get-collect_kept :
    (k : Bytes) (ks : List Bytes) (m sorted : Map)
    → get k sorted ≡ get k m
    → get k (collect ks m sorted) ≡ get k m
unfolding collect
get-collect_kept k [] m sorted h = h
get-collect_kept k (q ∷ qs) m sorted h =
    get-collect_kept k qs m (insert_found q (get q m) sorted)
      (get-insert_found k q (get q m) m sorted refl h)

get-collect_found :
    (k : Bytes) (ks : List Bytes) (m sorted : Map) (v : Value)
    → get k m ≡ some v
    → has k ks ≡ true
    → get k (collect ks m sorted) ≡ get k m
unfolding collect has insert_found
get-collect_found k [] m sorted v f h = absurd (cc)
get-collect_found k (q ∷ qs) m sorted v f h = elim (Bool-cases (bytes_eq k q)) [
  | inl same ↦
      let f' : get q m ≡ some v = subst (λ x. get x m ≡ some v) (bytes_eq_sound k q same) f in
      get-collect_kept k qs m (insert_found q (get q m) sorted) (
        subst (λ o. get k (insert_found q o sorted) ≡ get k m) (sym f')
          (subst (λ x. get x (insert q v sorted) ≡ get x m) (sym (bytes_eq_sound k q same))
            (get-insert_same q v sorted ∙ sym f')))
  | inr other ↦ get-collect_found k qs m (insert_found q (get q m) sorted) v f (ground arith)
]

get-sort_values : (k : Bytes) (m : Map) → get k (sort_values m) ≡ Option.map sort_keys (get k m)
unfolding get sort_values
get-sort_values k empty = refl
get-sort_values k (entry q w m) = elim (Bool-cases (bytes_eq k q)) [
  | inl same ↦ rw same refl
  | inr other ↦ rw other (get-sort_values k m)
]

get-sorted :
    (k : Bytes) (m : Map)
    → get k (collect (sort (keys m)) (sort_values m) empty) ≡ Option.map sort_keys (get k m)
unfolding get
get-sorted k m = elim (Option-cases (get k m)) [
  | inl e ↦
      let f : get k (sort_values m) ≡ none = get-sort_values k m ∙ ap (Option.map sort_keys) e in
      get-collect_kept k (sort (keys m)) (sort_values m) empty (sym f) ∙ get-sort_values k m
  | inr (v, e) ↦
      let f : get k (sort_values m) ≡ some (sort_keys v) =
        get-sort_values k m ∙ ap (Option.map sort_keys) e in
      get-collect_found k (sort (keys m)) (sort_values m) empty (sort_keys v) f
        (has-sort k (keys m) ∙ has-keys k m v e)
      ∙ get-sort_values k m
]

nth-sort_items : (n : ℕ) (a : Items) → nth n (sort_items a) ≡ Option.map sort_keys (nth n a)
unfolding nth sort_items
nth-sort_items n nil = refl
nth-sort_items zero (item v vs) = refl
nth-sort_items (suc n) (item v vs) = nth-sort_items n vs

step-sort_keys : (s : Step) (v : Value) → step s (sort_keys v) ≡ Option.map sort_keys (step s v)
unfolding step field sort_keys
step-sort_keys (key k) null = refl
step-sort_keys (key k) (bool b) = refl
step-sort_keys (key k) (number n) = refl
step-sort_keys (key k) (other_number t) = refl
step-sort_keys (key k) (string t) = refl
step-sort_keys (key k) (array a) = refl
step-sort_keys (key k) (object m) = get-sorted k m
step-sort_keys (index n) null = refl
step-sort_keys (index n) (bool b) = refl
step-sort_keys (index n) (number m) = refl
step-sort_keys (index n) (other_number t) = refl
step-sort_keys (index n) (string t) = refl
step-sort_keys (index n) (array a) = nth-sort_items n a
step-sort_keys (index n) (object m) = refl

onward-sort_keys :
    (rest : Value → Option Value) (o : Option Value)
    → ((w : Value) → rest (sort_keys w) ≡ Option.map sort_keys (rest w))
    → onward (Option.map sort_keys o) rest ≡ Option.map sort_keys (onward o rest)
onward-sort_keys rest none h = refl
onward-sort_keys rest (some w) h = h w

at-sort_keys : (p : List Step) (v : Value) → at p (sort_keys v) ≡ Option.map sort_keys (at p v)
unfolding at
at-sort_keys [] v = refl
at-sort_keys (s ∷ p) v =
    ap (λ o. onward o (at p)) (step-sort_keys s v)
    ∙ onward-sort_keys (at p) (step s v) (λ w. at-sort_keys p w)

-- Whatever the order of its maps: a value whose keys were sorted has every map in the order of its keys, each
-- key once; at every path of keys and indices it has what the value had there, with its keys sorted, and nothing
-- where the value had nothing; and a value that was in that order already stays as it was.
pub sort_keys_lem :
    (v : Value)
    → Canonical (sort_keys v)
      × ((p : List Step) → at p (sort_keys v) ≡ Option.map sort_keys (at p v))
      × (Canonical v → sort_keys v ≡ v)
sort_keys_lem v = (sort_keys-ordered v, (λ p. at-sort_keys p v), λ c. sort_keys-Canonical v c)
