-- ===== src/Tests/Dictionaries.antt =====
-- util/cache/cache.go: lookups in a table that is empty or has a row for every number.
use mathlib.Core.Option.{some-injective}
use rollytics.Prelude.{
  ℕ, ◌+◌, ◌≡◌, refl, sym, ap, subst, ◌∙◌, inl, inr, Bool, true, false, List, [], ◌∷◌, map, Option,
  none, some, All, Has, arith, ℕ_discrete,
}
use rollytics.Prelude.GoMap.{get, put, get-put_self, get-put_ne}
use rollytics.Dictionary.{
  Cache, Table, check_cache, add_entries, new_entries, set_cache, create_entries, create_ids,
  finish_ids, fetch_ids, uncached_ids, get_or_create_ids,
}
use rollytics.Dictionary.Maps.{AreDistinct}
use rollytics.Dictionary.Loops.{IsCache, IsCoherent}
use rollytics.Dictionary.Creation.{Extends, IsTable}
use rollytics.Dictionary.Lookup.{get_or_create_ids-created, get_or_create_ids-found}

abbrev same : ℕ → ℕ
same k = k

abbrev ops : Cache ℕ (List (ℕ × ℕ))
ops = record { lookup = λ c k. (get ℕ_discrete k c, c); set = λ c k v. put ℕ_discrete k v c }

abbrev ids_of : List ℕ → List (ℕ × ℕ)
ids_of = map (λ h. (h, h + 1))

abbrev entries : Bool → List ℕ → List (ℕ × ℕ)
entries true hs = ids_of hs
entries false hs = []

abbrev db : Table ℕ Bool
db = record { find = λ d hs. some (entries d hs); create = λ d hs. some (ids_of hs, true) }

abbrev rows : Bool → ℕ → Option ℕ
rows true k = some (k + 1)
rows false k = none

ops-IsCache : IsCache ops
ops-IsCache = record {
  lookup_lookup = λ c k j v e. e;
  lookup_set = λ c k j v w e. elim (ℕ_discrete k j) [
    | yes eq ↦ inl (
      sym eq,
      some-injective _ _ (
          sym (subst (λ x. get ℕ_discrete x (put ℕ_discrete k v c) ≡ some w) (sym eq) e)
          ∙ get-put_self ℕ_discrete k v c),
    )
    | no other ↦ inr (sym (get-put_ne ℕ_discrete k j v c other) ∙ e)
  ];
}

All-ids_of : (hs : List ℕ) → All (λ e. rows true e.0 ≡ some e.1) (ids_of hs)
All-ids_of [] = tt
All-ids_of (h ∷ hs) = (refl, All-ids_of hs)

All-entries : (d : Bool) (hs : List ℕ) → All (λ e. rows d e.0 ≡ some e.1) (entries d hs)
All-entries true hs = All-ids_of hs
All-entries false hs = tt

Has-ids_of : (hs : List ℕ) (h : ℕ) → Has h hs → Has (h, h + 1) (ids_of hs)
Has-ids_of [] h there = elim there [ ]
Has-ids_of (j ∷ hs) h (inl e) = inl (ap (λ x. (x, x + 1)) e)
Has-ids_of (j ∷ hs) h (inr there) = inr (Has-ids_of hs h there)

Has-entries :
    (d : Bool) (hs : List ℕ) (h id : ℕ) → Has h hs → rows d h ≡ some id → Has (h, id) (entries d hs)
Has-entries true hs h id there e =
    subst (λ i. Has (h, i) (ids_of hs)) (some-injective _ _ e) (Has-ids_of hs h there)
Has-entries false hs h id there e = cc

rows-grow : (d : Bool) (k id : ℕ) → rows d k ≡ some id → rows true k ≡ some id
rows-grow true k id e = e
rows-grow false k id e = cc

db-IsTable : IsTable same ℕ_discrete db rows
db-IsTable = record {
  find_true = λ d hs es e.
      subst (All (λ x. rows d x.0 ≡ some x.1)) (some-injective _ _ e) (All-entries d hs);
  find_all = λ d hs es h id e there row.
      subst (Has (h, id)) (some-injective _ _ e) (Has-entries d hs h id there row);
  create_true = λ d d' hs es e distinct absent.
      subst (λ p. All (λ x. rows p.1 x.0 ≡ some x.1) p.0) (some-injective _ _ e) (All-ids_of hs);
  create_all = λ d d' hs es h e distinct absent there.
      (h + 1, subst (λ p. Has (h, h + 1) p.0) (some-injective _ _ e) (Has-ids_of hs h there));
  create_keeps = λ d d' hs es e k id row.
      subst (λ p. rows p.1 k ≡ some id) (some-injective _ _ e) (rows-grow d k id row);
}

abbrev items : List ℕ
items = 4 ∷ 6 ∷ []

items-AreDistinct : AreDistinct ℕ_discrete same items
items-AreDistinct = ground arith

-- The cache is empty.
empty-IsCoherent : (d : Bool) → IsCoherent ℕ_discrete same ops ops-IsCache (rows d) []
unfolding get
empty-IsCoherent d k id e = cc

get_or_create_ids-created_example :
    let r = get_or_create_ids ℕ_discrete same ops db true items [] false in
    All (λ h. (id : ℕ) × (get ℕ_discrete h r.id_map ≡ some id) × (rows r.table h ≡ some id)) items
    × Extends (rows false) (rows r.table)
    × IsCoherent ℕ_discrete same ops ops-IsCache (rows r.table) r.cache
unfolding get_or_create_ids check_cache uncached_ids fetch_ids finish_ids create_ids create_entries
    new_entries add_entries set_cache get put ℕ_discrete
get_or_create_ids-created_example =
    get_or_create_ids-created ℕ_discrete same ops db rows ops-IsCache db-IsTable items [] false
      items-AreDistinct (empty-IsCoherent false) refl

get_or_create_ids-found_example :
    let r = get_or_create_ids ℕ_discrete same ops db false items [] true in
    All (λ h. get ℕ_discrete h r.id_map ≡ rows true h) items
    × (r.table ≡ true)
    × IsCoherent ℕ_discrete same ops ops-IsCache (rows true) r.cache
unfolding get_or_create_ids check_cache uncached_ids fetch_ids finish_ids create_ids create_entries
    new_entries add_entries set_cache get put ℕ_discrete
get_or_create_ids-found_example =
    get_or_create_ids-found ℕ_discrete same ops db rows ops-IsCache db-IsTable items [] true
      items-AreDistinct (empty-IsCoherent true) refl
