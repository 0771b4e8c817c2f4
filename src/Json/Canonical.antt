-- ===== src/Json/Canonical.antt =====
-- `sort_keys` of main.rs and policy.rs on a value whose maps are in the order of their keys.
use mathlib.Core.Path.{subst}
use pzd.Base.{
  ◌≡◌, inl, inr, arith, true, false, some, List, [], ◌∷◌, Bytes, bytes_eq, bytes_eq_sound,
  bytes_eq_refl, refl, ap, ◌∙◌, Bool-cases,
}
use pzd.Json.{
  Value, null, bool, number, other_number, string, array, object, Items, nil, item, Map, empty,
  entry, key_lt, insert, get, keys, insert_key, sort, collect, insert_found, sort_keys, sort_items,
  sort_values,
}

key_lt_irrefl : (k : Bytes) → key_lt k k ≡ false
unfolding key_lt
key_lt_irrefl [] = refl
key_lt_irrefl (a ∷ s) = ground (arith, key_lt_irrefl s)

pub key_lt_trans : (a b c : Bytes) → key_lt a b ≡ true → key_lt b c ≡ true → key_lt a c ≡ true
unfolding key_lt
key_lt_trans [] [] c h k = absurd (cc)
key_lt_trans [] (b ∷ s) [] h k = absurd (cc)
key_lt_trans [] (b ∷ s) (c ∷ t) h k = refl
key_lt_trans (a ∷ r) [] c h k = absurd (cc)
key_lt_trans (a ∷ r) (b ∷ s) [] h k = absurd (cc)
key_lt_trans (a ∷ r) (b ∷ s) (c ∷ t) h k = ground (arith, key_lt_trans r s t)

pub key_lt_asym : (a b : Bytes) → key_lt a b ≡ true → key_lt b a ≡ false
key_lt_asym a b h = elim (Bool-cases (key_lt b a)) [
  | inl t ↦ let loop = key_lt_trans a b a h t in let no = key_lt_irrefl a in absurd (ground arith)
  | inr f ↦ f
]

pub key_lt_differ : (a b : Bytes) → key_lt a b ≡ true → bytes_eq b a ≡ false
key_lt_differ a b h = elim (Bool-cases (bytes_eq b a)) [
  | inl same ↦
      let loop : key_lt a a ≡ true = subst (λ x. key_lt a x ≡ true) (bytes_eq_sound b a same) h in
      let no = key_lt_irrefl a in absurd (ground arith)
  | inr f ↦ f
]

-- Every key of the map is above `k`.
abbrev pub Above : Bytes → Map → Type 0
Above k empty = Unit {0}
Above k (entry q v m) = (key_lt k q ≡ true) × Above k m

-- The maps of the value are in the order of their keys, each key once.
abbrev mutual
  pub Canonical : Value → Type 0
  Canonical null = Unit {0}
  Canonical (bool b) = Unit {0}
  Canonical (number n) = Unit {0}
  Canonical (other_number t) = Unit {0}
  Canonical (string s) = Unit {0}
  Canonical (array a) = CanonicalItems a
  Canonical (object m) = CanonicalMap m

  pub CanonicalItems : Items → Type 0
  CanonicalItems nil = Unit {0}
  CanonicalItems (item v vs) = Canonical v × CanonicalItems vs

  pub CanonicalMap : Map → Type 0
  CanonicalMap empty = Unit {0}
  CanonicalMap (entry q v m) = Canonical v × Above q m × CanonicalMap m

-- One map behind another.
abbrev join : Map → Map → Map
join empty n = n
join (entry q w m) n = entry q w (join m n)

-- Every key of the first map is below every key of the second.
abbrev Under : Map → Map → Type 0
Under empty n = Unit {0}
Under (entry q w m) n = Above q n × Under m n

join_assoc :
    (m : Map) (k : Bytes) (v : Value) (n : Map)
    → join (join m (entry k v empty)) n ≡ join m (entry k v n)
join_assoc empty k v n = refl
join_assoc (entry q w m) k v n = ap (entry q w) (join_assoc m k v n)

insert-last :
    (k : Bytes) (v : Value) (m n : Map)
    → Under m (entry k v n)
    → insert k v m ≡ join m (entry k v empty)
unfolding insert
insert-last k v empty n u = refl
insert-last k v (entry q w m) n u =
    rw (key_lt_differ q k u.0.0, key_lt_asym q k u.0.0) (ap (entry q w) (insert-last k v m n u.1))

get-join :
    (k : Bytes) (v : Value) (m n : Map)
    → Under m (entry k v n)
    → get k (join m (entry k v n)) ≡ some v
unfolding get
get-join k v empty n u = rw (bytes_eq_refl k) refl
get-join k v (entry q w m) n u = rw (key_lt_differ q k u.0.0) (get-join k v m n u.1)

Under-rest :
    (m : Map) (k : Bytes) (v : Value) (n : Map)
    → Under m (entry k v n)
    → Above k n
    → Under (join m (entry k v empty)) n
Under-rest empty k v n u a = (a, tt)
Under-rest (entry q w m) k v n u a = (u.0.1, Under-rest m k v n u.1 a)

collect-found :
    (k : Bytes) (v : Value) (ks : List Bytes) (m sorted : Map)
    → get k m ≡ some v
    → collect (k ∷ ks) m sorted ≡ collect ks m (insert k v sorted)
unfolding collect insert_found
collect-found k v ks m sorted e = ap (λ o. collect ks m (insert_found k o sorted)) e

-- The loop that collects sorted keys finds every entry and puts it at the end.
collect-join : (m n : Map) → Under m n → CanonicalMap n → collect (keys n) (join m n) m ≡ join m n
unfolding collect keys insert_found
collect-join m empty u c = join_empty m
  where
    join_empty : (m : Map) → m ≡ join m empty
    join_empty empty = refl
    join_empty (entry q w m) = ap (entry q w) (join_empty m)
collect-join m (entry k v n) u c =
    collect-found k v (keys n) (join m (entry k v n)) m (get-join k v m n u)
    ∙ ap (collect (keys n) (join m (entry k v n))) (insert-last k v m n u)
    ∙ subst (λ whole. collect (keys n) whole (join m (entry k v empty)) ≡ whole)
        (join_assoc m k v n)
        (collect-join (join m (entry k v empty)) n (Under-rest m k v n u c.1) c.2)

sort-keys : (m : Map) → CanonicalMap m → sort (keys m) ≡ keys m
unfolding sort keys insert_key
sort-keys empty c = refl
sort-keys (entry k v m) c = rw (sort-keys m c.2) (front m c.1)
  where
    front : (n : Map) → Above k n → insert_key k (keys n) ≡ k ∷ keys n
    front empty a = refl
    front (entry q w n) a = rw (key_lt_asym k q a.0) refl

mutual
  unfolding sort_keys

  sort_keys-same : (v : Value) → Canonical v → sort_keys v ≡ v
  sort_keys-same null c = refl
  sort_keys-same (bool b) c = refl
  sort_keys-same (number n) c = refl
  sort_keys-same (other_number t) c = refl
  sort_keys-same (string s) c = refl
  sort_keys-same (array a) c = ap array (sort_items-same a c)
  sort_keys-same (object m) c =
      rw (sort-keys m c, sort_values-same m c) (ap object (collect-join empty m tt c))

  sort_items-same : (a : Items) → CanonicalItems a → sort_items a ≡ a
  sort_items-same nil c = refl
  sort_items-same (item v vs) c = rw (sort_keys-same v c.0, sort_items-same vs c.1) refl

  sort_values-same : (m : Map) → CanonicalMap m → sort_values m ≡ m
  sort_values-same empty c = refl
  sort_values-same (entry q w m) c = rw (sort_keys-same w c.0, sort_values-same m c.2) refl

pub sort_keys-Canonical : (v : Value) → Canonical v → sort_keys v ≡ v
sort_keys-Canonical v c = sort_keys-same v c
