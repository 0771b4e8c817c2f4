-- ===== src/Json.antt =====
-- services/pzdr-enclave/src/main.rs and policy.rs, `sort_keys`: the values of `serde_json`, and the
-- sorting of the keys of every object in a value. A string is the list of its UTF-8 bytes.
pub mod Keys
pub mod Canonical
pub mod Sorted
mod Runs
use pzd.Base.{
  ℕ, zero, suc, Bool, true, false, ◌||◌, Option, none, some, List, [], ◌∷◌, Bytes, bytes_eq, ltb,
  ◌==◌, if◌then◌else◌,
}

-- `serde_json::Value` as documented. A number is a u64, or any other number as its text. The map of an
-- object is a `BTreeMap`: its entries in the order of the keys. What a derived `Serialize` hands to the writer
-- is an object too, with the fields in the order of their declaration.
mutual
  pub data Value : Type 0 where
    null : Value
    bool : Bool → Value
    number : ℕ → Value
    other_number : Bytes → Value
    string : Bytes → Value
    array : Items → Value
    object : Map → Value

  pub data Items : Type 0 where
    nil : Items
    item : Value → Items → Items

  pub data Map : Type 0 where
    empty : Map
    entry : Bytes → Value → Map → Map

-- The order of strings, which is the order of their bytes.
unfoldable pub key_lt : Bytes → Bytes → Bool
key_lt [] [] = false
key_lt [] (b ∷ bs) = true
key_lt (a ∷ s) [] = false
key_lt (a ∷ s) (b ∷ t) =
    let rest = key_lt s t in if ltb a b then true else if a == b then rest else false

-- `Map::insert`: the value of a key that is there is replaced.
unfoldable pub insert : Bytes → Value → Map → Map
unfolding key_lt
insert k v empty = entry k v empty
insert k v (entry q w m) =
    let rest = insert k v m in
    if bytes_eq k q
    then entry k v m
    else if key_lt k q
    then entry k v (entry q w m)
    else entry q w rest

unfoldable pub get : Bytes → Map → Option Value
get k empty = none
get k (entry q w m) = let rest = get k m in if bytes_eq k q then some w else rest

pub keys : Map → List Bytes
keys empty = []
keys (entry q w m) = q ∷ keys m

-- `keys.sort()`, as the insertion of each key into the sorted ones.
pub insert_key : Bytes → List Bytes → List Bytes
insert_key k [] = k ∷ []
insert_key k (q ∷ qs) = let rest = insert_key k qs in if key_lt q k then q ∷ rest else k ∷ q ∷ qs

pub sort : List Bytes → List Bytes
unfolding insert_key
sort [] = []
sort (k ∷ ks) = insert_key k (sort ks)

-- `sorted.insert(k, m.get(&k).unwrap())`; a key of the map is always found, and the `unwrap` of a key that
-- is not would panic.
pub insert_found : Bytes → Option Value → Map → Map
unfolding insert
insert_found k none sorted = sorted
insert_found k (some v) sorted = insert k v sorted

-- The loop `for k in keys`, over a map whose values are sorted already.
pub collect : List Bytes → Map → Map → Map
unfolding insert_found get
collect [] m sorted = sorted
collect (k ∷ ks) m sorted = collect ks m (insert_found k (get k m) sorted)

unfoldable mutual
  pub sort_keys : Value → Value
  sort_keys null = null
  sort_keys (bool b) = bool b
  sort_keys (number n) = number n
  sort_keys (other_number t) = other_number t
  sort_keys (string s) = string s
  sort_keys (array a) = array (sort_items a)
  sort_keys (object m) = object (collect (sort (keys m)) (sort_values m) empty)

  pub sort_items : Items → Items
  sort_items nil = nil
  sort_items (item v vs) = item (sort_keys v) (sort_items vs)

  -- The recursive call on the value of each key.
  pub sort_values : Map → Map
  sort_values empty = empty
  sort_values (entry q w m) = entry q (sort_keys w) (sort_values m)

-- `json!({..})` on an object: its entries inserted one after another.
pub record Entry : Type 0 where
  pub key : Bytes
  pub value : Value

unfoldable pub json_from : List Entry → Map → Map
unfolding insert
json_from [] m = m
json_from (e ∷ es) m = json_from es (insert e.key e.value m)

unfoldable pub json : List Entry → Value
unfolding json_from
json es = object (json_from es empty)

-- A derived `Serialize`: the fields one after another.
unfoldable pub fields : List Entry → Map
fields [] = empty
fields (e ∷ es) = entry e.key e.value (fields es)

unfoldable pub struct : List Entry → Value
unfolding fields
struct es = object (fields es)

infix 3 ◌↦:◌
abbrev pub ◌↦:◌ : Bytes → Value → Entry
k ↦: v = record { key = k; value = v }

-- `Value::get` and `as_str`, `as_u64`.
unfoldable pub field : Bytes → Value → Option Value
unfolding get
field k (object m) = get k m
field k null = none
field k (bool b) = none
field k (number n) = none
field k (other_number t) = none
field k (string s) = none
field k (array a) = none

unfoldable pub as_str : Value → Option Bytes
as_str (string s) = some s
as_str null = none
as_str (bool b) = none
as_str (number n) = none
as_str (other_number t) = none
as_str (array a) = none
as_str (object m) = none

pub as_u64 : Value → Option ℕ
as_u64 (number n) = some n
as_u64 null = none
as_u64 (bool b) = none
as_u64 (other_number t) = none
as_u64 (string s) = none
as_u64 (array a) = none
as_u64 (object m) = none
