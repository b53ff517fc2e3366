-- ===== src/Dictionary/Loops.antt =====
-- util/cache/cache.go: what the loops over the cache keep true.
use rollytics.Prelude.{
  ℕ, ◌≡◌, ◌≢◌, refl, sym, subst, ap, ◌∙◌, ◌⊎◌, inl, inr, List, [], ◌∷◌, Option, none, some, All,
  All-imp, All-Has, Has, Option-cases,
}
use rollytics.Prelude.GoMap.{get, put, get-put_self}
use rollytics.Dictionary.{Cache, check_cache, set_cache}
use rollytics.Dictionary.Maps.{IsTrue, Maps, put-IsTrue, Maps-put, AreDistinct}

none_is_some : {A : Type 0} {a : A} → none ≡ some a → ⊥
none_is_some e = cc

-- The cache: what it gives has been there before, or has just been set.
pub record IsCache {K C : Type 0} (ops : Cache K C) : Type 0 where
  pub lookup_lookup :
      (c : C) (k j : K) (v : ℕ)
      → (ops.lookup (ops.lookup c k).1 j).0 ≡ some v
      → (ops.lookup c j).0 ≡ some v
  pub lookup_set :
      (c : C) (k j : K) (v w : ℕ)
      → (ops.lookup (ops.set c k v) j).0 ≡ some w
      → ((j ≡ k) × (w ≡ v)) ⊎ ((ops.lookup c j).0 ≡ some w)

module _ {H K C : Type 0} (dec : Discrete K) (key : H → K) (ops : Cache K C) (law : IsCache ops)
    (rows : K → Option ℕ) where
  -- A cache that holds only what `rows` holds.
  abbrev pub IsCoherent : C → Type 0
  IsCoherent c = (k : K) (id : ℕ) → (ops.lookup c k).0 ≡ some id → rows k ≡ some id

  lookup-IsCoherent : (c : C) (k : K) → IsCoherent c → IsCoherent (ops.lookup c k).1
  lookup-IsCoherent c k h j id e = h j id (law.lookup_lookup c k j id e)

  set-IsCoherent :
      (c : C) (k : K) (v : ℕ) → rows k ≡ some v → IsCoherent c → IsCoherent (ops.set c k v)
  set-IsCoherent c k v r h j id e = elim (law.lookup_set c k j v id e) [
    | inl (same, value) ↦ ap rows same ∙ r ∙ ap some (sym value)
    | inr old ↦ h j id old
  ]

  -- After the loop over the cache.
  pub record Checked (hs : List H) (m : List (K × ℕ)) (result : List (K × ℕ) × List H × C)
      : Type 0 where
    pub truthful : IsTrue dec key rows result.0
    pub coherent : IsCoherent result.2
    pub kept : (k : K) → Maps dec key m k → Maps dec key result.0 k
    pub split : (h : H) → Has h hs → Maps dec key result.0 (key h) ⊎ Has h result.1
    pub within : All (λ u. Has u hs) result.1
    pub distinct : AreDistinct dec key hs → AreDistinct dec key result.1

  check_cache-hit :
      (h : H) (hs : List H) (m : List (K × ℕ)) (c : C) (id : ℕ)
      → (ops.lookup c (key h)).0 ≡ some id
      → check_cache dec key ops (h ∷ hs) m c
        ≡ check_cache dec key ops hs (put dec (key h) id m) (ops.lookup c (key h)).1
  unfolding check_cache
  check_cache-hit h hs m c id e = rw (e, check_cache) refl

  check_cache-miss :
      (h : H) (hs : List H) (m : List (K × ℕ)) (c : C)
      → (ops.lookup c (key h)).0 ≡ none
      → check_cache dec key ops (h ∷ hs) m c ≡ (
          let (ids, uncached, c') = check_cache dec key ops hs m (ops.lookup c (key h)).1 in
          (ids, h ∷ uncached, c'))
  unfolding check_cache
  check_cache-miss h hs m c e = rw (e, check_cache) refl

  Checked-hit :
      (h : H) (hs : List H) (m : List (K × ℕ)) (id : ℕ) (r : List (K × ℕ) × List H × C)
      → Checked hs (put dec (key h) id m) r
      → Checked (h ∷ hs) m r
  Checked-hit h hs m id r v = record {
    truthful = v.truthful;
    coherent = v.coherent;
    kept = λ k maps. v.kept k (Maps-put dec key m (key h) id k maps);
    split = λ j there. elim there [
      | inl e ↦ inl (
          subst (λ x. Maps dec key r.0 (key x)) (sym e)
            (v.kept (key h) (id, get-put_self dec (key h) id m)))
      | inr later ↦ v.split j later
    ];
    within = All-imp r.1 (λ u there. inr there) v.within;
    distinct = λ d. v.distinct d.1;
  }

  Checked-miss :
      (h : H) (hs : List H) (m : List (K × ℕ)) (ids : List (K × ℕ)) (uncached : List H) (c : C)
      → Checked hs m (ids, uncached, c)
      → Checked (h ∷ hs) m (ids, h ∷ uncached, c)
  Checked-miss h hs m ids uncached c v = record {
    truthful = v.truthful;
    coherent = v.coherent;
    kept = v.kept;
    split = λ j there. elim there [
      | inl e ↦ inr (inl e)
      | inr later ↦ elim (v.split j later) [ inl maps ↦ inl maps | inr rest ↦ inr (inr rest) ]
    ];
    within = (inl refl, All-imp uncached (λ u there. inr there) v.within);
    distinct = λ d. (
      All-imp uncached (λ u there. All-Has (λ j. key h ≢ key j) hs u d.0 there) v.within,
      v.distinct d.1,
    );
  }

  check_cache-nil : (m : List (K × ℕ)) (c : C) → check_cache dec key ops [] m c ≡ (m, [], c)
  unfolding check_cache
  check_cache-nil m c = refl

  pub check_cache-Checked :
      (hs : List H) (m : List (K × ℕ)) (c : C)
      → IsTrue dec key rows m
      → IsCoherent c
      → Checked hs m (check_cache dec key ops hs m c)
  check_cache-Checked [] m c t coherent = subst (Checked [] m) (sym (check_cache-nil m c)) (record {
    truthful = t;
    coherent = coherent;
    kept = λ k maps. maps;
    split = λ h there. elim there [ ];
    within = tt;
    distinct = λ d. tt;
  })
  check_cache-Checked (h ∷ hs) m c t coherent =
      let c' = (ops.lookup c (key h)).1 in
      let coherent' : IsCoherent c' = lookup-IsCoherent c (key h) coherent in
      elim (Option-cases (ops.lookup c (key h)).0) [
        | inl miss ↦
            subst (Checked (h ∷ hs) m) (sym (check_cache-miss h hs m c miss))
              (Checked-miss h hs m _ _ _ (check_cache-Checked hs m c' t coherent'))
        | inr (id, hit) ↦ subst (Checked (h ∷ hs) m) (sym (check_cache-hit h hs m c id hit)) (
            Checked-hit h hs m id _ (
              check_cache-Checked hs (put dec (key h) id m) c'
                (put-IsTrue dec key rows m (key h) id (coherent (key h) id hit) t) coherent'))
      ]

  -- After the last loop, over a map `m` with the ids of the items.
  pub record Completed (hs : List H) (m id_map : List (K × ℕ)) (result : List (K × ℕ) × C)
      : Type 0 where
    pub truthful : IsTrue dec key rows result.0
    pub coherent : IsCoherent result.1
    pub kept : (k : K) → Maps dec key id_map k → Maps dec key result.0 k
    pub filled : (h : H) → Has h hs → Maps dec key m (key h) → Maps dec key result.0 (key h)

  set_cache-nil :
      (m id_map : List (K × ℕ)) (c : C) → set_cache dec key ops [] m id_map c ≡ (id_map, c)
  unfolding set_cache
  set_cache-nil m id_map c = refl

  set_cache-some :
      (h : H) (hs : List H) (m id_map : List (K × ℕ)) (c : C) (id : ℕ)
      → get dec (key h) m ≡ some id
      → set_cache dec key ops (h ∷ hs) m id_map c
        ≡ set_cache dec key ops hs m (put dec (key h) id id_map) (ops.set c (key h) id)
  unfolding set_cache
  set_cache-some h hs m id_map c id e = rw (e, set_cache) refl

  set_cache-none :
      (h : H) (hs : List H) (m id_map : List (K × ℕ)) (c : C)
      → get dec (key h) m ≡ none
      → set_cache dec key ops (h ∷ hs) m id_map c ≡ set_cache dec key ops hs m id_map c
  unfolding set_cache
  set_cache-none h hs m id_map c e = rw (e, set_cache) refl

  Completed-some :
      (h : H) (hs : List H) (m id_map : List (K × ℕ)) (id : ℕ) (r : List (K × ℕ) × C)
      → Completed hs m (put dec (key h) id id_map) r
      → Completed (h ∷ hs) m id_map r
  Completed-some h hs m id_map id r v = record {
    truthful = v.truthful;
    coherent = v.coherent;
    kept = λ k maps. v.kept k (Maps-put dec key id_map (key h) id k maps);
    filled = λ j there maps. elim there [
      | inl e ↦
          subst (λ x. Maps dec key r.0 (key x)) (sym e)
            (v.kept (key h) (id, get-put_self dec (key h) id id_map))
      | inr later ↦ v.filled j later maps
    ];
  }

  Completed-none :
      (h : H) (hs : List H) (m id_map : List (K × ℕ)) (r : List (K × ℕ) × C)
      → get dec (key h) m ≡ none
      → Completed hs m id_map r
      → Completed (h ∷ hs) m id_map r
  Completed-none h hs m id_map r absent v = record {
    truthful = v.truthful;
    coherent = v.coherent;
    kept = v.kept;
    filled = λ j there maps. elim there [
      | inl e ↦ absurd (none_is_some (sym absent ∙ ap (λ x. get dec (key x) m) (sym e) ∙ maps.1))
      | inr later ↦ v.filled j later maps
    ];
  }

  pub set_cache-Completed :
      (hs : List H) (m id_map : List (K × ℕ)) (c : C)
      → IsTrue dec key rows m
      → IsTrue dec key rows id_map
      → IsCoherent c
      → Completed hs m id_map (set_cache dec key ops hs m id_map c)
  set_cache-Completed [] m id_map c t u coherent =
      subst (Completed [] m id_map) (sym (set_cache-nil m id_map c)) (record {
        truthful = u;
        coherent = coherent;
        kept = λ k maps. maps;
        filled = λ h there maps. elim there [ ];
      })
  set_cache-Completed (h ∷ hs) m id_map c t u coherent = elim (Option-cases (get dec (key h) m)) [
    | inl absent ↦
        subst (Completed (h ∷ hs) m id_map) (sym (set_cache-none h hs m id_map c absent))
          (Completed-none h hs m id_map _ absent (set_cache-Completed hs m id_map c t u coherent))
    | inr (id, found) ↦
        subst (Completed (h ∷ hs) m id_map) (sym (set_cache-some h hs m id_map c id found)) (
          Completed-some h hs m id_map id _ (
            set_cache-Completed hs m (put dec (key h) id id_map) (ops.set c (key h) id) t
              (put-IsTrue dec key rows id_map (key h) id (t (key h) id found) u)
              (set-IsCoherent c (key h) id (t (key h) id found) coherent)))
  ]
