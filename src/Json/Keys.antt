-- ===== src/Json/Keys.antt =====
-- The order of the keys in the maps that `Map::insert` and `sort_keys` build.
use mathlib.Core.Path.{subst}
use pzd.Base.{
  ◌≡◌, arith, true, false, List, [], ◌∷◌, Bytes, bytes_eq, bytes_eq_sound, refl, sym, Bool-cases,
  inl, inr,
}
use pzd.Json.{
  Value, null, bool, number, other_number, string, array, object, Items, nil, item, Map, empty,
  entry, key_lt, insert, insert_found, get, keys, sort, collect, sort_keys, sort_items, sort_values,
}
use pzd.Json.Canonical.{Above, Canonical, CanonicalItems, CanonicalMap, key_lt_trans}

key_lt_total : (a b : Bytes) → bytes_eq a b ≡ false → key_lt a b ≡ false → key_lt b a ≡ true
unfolding key_lt bytes_eq
key_lt_total [] [] e h = absurd (cc)
key_lt_total [] (b ∷ t) e h = absurd (cc)
key_lt_total (a ∷ s) [] e h = refl
key_lt_total (a ∷ s) (b ∷ t) e h = ground (arith, key_lt_total s t)

Above-trans : (k q : Bytes) (m : Map) → key_lt k q ≡ true → Above q m → Above k m
Above-trans k q empty h a = tt
Above-trans k q (entry r w m) h a = (key_lt_trans k q r h a.0, Above-trans k q m h a.1)

Above-insert :
    (q k : Bytes) (v : Value) (m : Map) → key_lt q k ≡ true → Above q m → Above q (insert k v m)
unfolding insert
Above-insert q k v empty h a = (h, tt)
Above-insert q k v (entry r w m) h a = elim (Bool-cases (bytes_eq k r)) [
  | inl same ↦ rw same (h, a.1)
  | inr other ↦ elim (Bool-cases (key_lt k r)) [
    | inl below ↦ rw (other, below) (h, a)
    | inr above ↦ rw (other, above) (a.0, Above-insert q k v m h a.1)
  ]
]

insert-CanonicalMap :
    (k : Bytes) (v : Value) (m : Map) → Canonical v → CanonicalMap m → CanonicalMap (insert k v m)
unfolding insert
insert-CanonicalMap k v empty cv c = (cv, tt, tt)
insert-CanonicalMap k v (entry q w m) cv c = elim (Bool-cases (bytes_eq k q)) [
  | inl same ↦ rw same (cv, subst (λ x. Above x m) (sym (bytes_eq_sound k q same)) c.1, c.2)
  | inr other ↦ elim (Bool-cases (key_lt k q)) [
    | inl below ↦ rw (other, below) (cv, (below, Above-trans k q m below c.1), c)
    | inr above ↦
        rw (other, above)
          (
            c.0,
            Above-insert q k v m (key_lt_total k q other above) c.1,
            insert-CanonicalMap k v m cv c.2,
          )
  ]
]

-- Every value of the map is canonical.
abbrev Values : Map → Type 0
Values empty = Unit {0}
Values (entry q w m) = Canonical w × Values m

insert_found-CanonicalMap :
    (k : Bytes) (m sorted : Map)
    → Values m
    → CanonicalMap sorted
    → CanonicalMap (insert_found k (get k m) sorted)
unfolding insert_found get
insert_found-CanonicalMap k empty sorted vs c = c
insert_found-CanonicalMap k (entry q w m) sorted vs c = elim (Bool-cases (bytes_eq k q)) [
  | inl same ↦ rw same (insert-CanonicalMap k w sorted vs.0 c)
  | inr other ↦ rw other (insert_found-CanonicalMap k m sorted vs.1 c)
]

collect-CanonicalMap :
    (ks : List Bytes) (m sorted : Map)
    → Values m
    → CanonicalMap sorted
    → CanonicalMap (collect ks m sorted)
unfolding collect
collect-CanonicalMap [] m sorted vs c = c
collect-CanonicalMap (k ∷ ks) m sorted vs c =
    collect-CanonicalMap ks m (insert_found k (get k m) sorted) vs
      (insert_found-CanonicalMap k m sorted vs c)

mutual
  unfolding sort_keys

  pub sort_keys-ordered : (v : Value) → Canonical (sort_keys v)
  sort_keys-ordered null = tt
  sort_keys-ordered (bool b) = tt
  sort_keys-ordered (number n) = tt
  sort_keys-ordered (other_number t) = tt
  sort_keys-ordered (string s) = tt
  sort_keys-ordered (array a) = sort_items-ordered a
  sort_keys-ordered (object m) =
      collect-CanonicalMap (sort (keys m)) (sort_values m) empty (sort_values-ordered m) tt

  sort_items-ordered : (a : Items) → CanonicalItems (sort_items a)
  sort_items-ordered nil = tt
  sort_items-ordered (item v vs) = (sort_keys-ordered v, sort_items-ordered vs)

  sort_values-ordered : (m : Map) → Values (sort_values m)
  sort_values-ordered empty = tt
  sort_values-ordered (entry q w m) = (sort_keys-ordered w, sort_values-ordered m)
