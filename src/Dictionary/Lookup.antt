-- ===== src/Dictionary/Lookup.antt =====
-- util/cache/cache.go: what a lookup of ids gives.
use rollytics.Prelude.{
  ℕ, ◌≡◌, refl, sym, subst, ap, ◌∙◌, ◌⊎◌, inl, inr, Bool, true, false, List, [], ◌∷◌, Option, none,
  some, All, All-of_Has, Has, Option-cases,
}
use rollytics.Prelude.GoMap.{get}
use rollytics.Dictionary.{
  Cache, Table, Ids, add_entries, finish_ids, fetch_ids, uncached_ids, get_or_create_ids,
}
use rollytics.Dictionary.Maps.{IsTrue, Maps, AreDistinct}
use rollytics.Dictionary.Loops.{
  IsCache, IsCoherent, Checked, check_cache-Checked, set_cache-Completed,
}
use rollytics.Dictionary.Creation.{
  Extends, IsTable, Made, create_ids-Made, add_entries-Fetched, none-map,
}

module _ {H K C D : Type 0} (dec : Discrete K) (key : H → K) (ops : Cache K C) (db : Table H D)
    (rows : D → K → Option ℕ) (is_cache : IsCache ops) (is_table : IsTable key dec db rows) where
  -- What the lookup of the items leaves.
  record Found (create : Bool) (hs : List H) (d : D) (r : Ids K C D) : Type 0 where
    truthful : IsTrue dec key (rows r.table) r.id_map
    coherent : IsCoherent dec key ops is_cache (rows r.table) r.cache
    grown : Extends (rows d) (rows r.table)
    known :
        (h : H)
        → Has h hs
        → Maps dec key r.id_map (key h) ⊎ ((create ≡ false) × (rows r.table (key h) ≡ none))
    same : (create ≡ true) ⊎ (r.table ≡ d)

  finish_ids-Found :
      (create : Bool) (hs uncached : List H) (p : List (K × ℕ) × D) (id_map : List (K × ℕ)) (c : C)
      (d : D)
      → Checked dec key ops is_cache (rows d) hs [] (id_map, uncached, c)
      → Made dec key ops db rows is_cache is_table create uncached d p
      → Found create hs d (finish_ids dec key ops db uncached (some p) id_map c d)
  unfolding finish_ids
  finish_ids-Found create hs uncached p id_map c d v made =
      let r =
        set_cache-Completed dec key ops is_cache (rows p.1) uncached p.0 id_map c made.truthful
          (λ k id e. made.grown k id (v.truthful k id e))
          (λ k id e. made.grown k id (v.coherent k id e)) in
      record {
        truthful = r.truthful;
        coherent = r.coherent;
        grown = made.grown;
        known = λ h there. elim (v.split h there) [
          | inl maps ↦ inl (r.kept (key h) maps)
          | inr late ↦ elim (made.known h late) [
            | inl maps ↦ inl (r.filled h late maps)
            | inr absent ↦ inr absent
          ]
        ];
        same = made.same;
      }

  true_not_false : true ≡ false → ⊥
  true_not_false e = cc

  finish_ids-failed :
      (uncached : List H) (o : Option (List (K × ℕ) × D)) (id_map : List (K × ℕ)) (c : C) (d : D)
      → o ≡ none
      → (finish_ids dec key ops db uncached o id_map c d).failed ≡ true
  unfolding finish_ids
  finish_ids-failed uncached o id_map c d e = rw (e, finish_ids) refl

  fetch_ids-Found :
      (create : Bool) (hs uncached : List H) (o : Option (List (H × ℕ))) (id_map : List (K × ℕ))
      (c : C) (d : D)
      → AreDistinct dec key uncached
      → db.find d uncached ≡ o
      → Checked dec key ops is_cache (rows d) hs [] (id_map, uncached, c)
      → (fetch_ids dec key ops db create uncached o id_map c d).failed ≡ false
      → Found create hs d (fetch_ids dec key ops db create uncached o id_map c d)
  unfolding fetch_ids
  fetch_ids-Found create hs uncached none id_map c d distinct found v ok =
      elim (true_not_false ok) [ ]
  fetch_ids-Found create hs uncached (some es) id_map c d distinct found v ok =
      elim (create_ids-Made dec key ops db rows is_cache is_table create uncached d
        (add_entries dec key es []) distinct
        (add_entries-Fetched dec key ops db rows is_cache is_table uncached d es found)) [
          | inl error ↦ elim (failed error ok) [ ]
          | inr (p, e, made) ↦
              subst (λ o. Found create hs d (finish_ids dec key ops db uncached o id_map c d))
                (sym e) (finish_ids-Found create hs uncached p id_map c d v made)
        ]
    where
      failed :
          {o : Option (List (K × ℕ) × D)}
          → o ≡ none
          → (finish_ids dec key ops db uncached o id_map c d).failed ≡ false
          → ⊥
      failed {o = o} e h = true_not_false (sym (finish_ids-failed uncached o id_map c d e) ∙ h)

  uncached_ids-Found :
      (create : Bool) (hs uncached : List H) (id_map : List (K × ℕ)) (c : C) (d : D)
      → AreDistinct dec key hs
      → Checked dec key ops is_cache (rows d) hs [] (id_map, uncached, c)
      → (uncached_ids dec key ops db create uncached id_map c d).failed ≡ false
      → Found create hs d (uncached_ids dec key ops db create uncached id_map c d)
  unfolding uncached_ids
  uncached_ids-Found create hs [] id_map c d distinct v ok = record {
    truthful = v.truthful;
    coherent = v.coherent;
    grown = λ k id e. e;
    known = λ h there. elim (v.split h there) [ inl maps ↦ inl maps | inr late ↦ elim late [ ] ];
    same = inr refl;
  }
  uncached_ids-Found create hs (u ∷ us) id_map c d distinct v ok =
      fetch_ids-Found create hs (u ∷ us) (db.find d (u ∷ us)) id_map c d (v.distinct distinct) refl
        v ok

  get_or_create_ids_lem :
      (create : Bool) (hs : List H) (c : C) (d : D)
      → AreDistinct dec key hs
      → IsCoherent dec key ops is_cache (rows d) c
      → (get_or_create_ids dec key ops db create hs c d).failed ≡ false
      → Found create hs d (get_or_create_ids dec key ops db create hs c d)
  unfolding get_or_create_ids
  get_or_create_ids_lem create hs c d distinct coherent ok =
      uncached_ids-Found create hs _ _ _ d distinct
        (check_cache-Checked dec key ops is_cache (rows d) hs [] c
          (λ k id e. elim (no_map k id e) [ ]) coherent)
        ok
    where
      no_map : (k : K) (id : ℕ) → get dec k [] ≡ some id → ⊥
      no_map k id e = none-map dec key ops db rows is_cache is_table k id e

  -- Where no query and no insert fails, a lookup that may create entries gives each item the id of
  -- its row, which the table then has; no row is lost, and the cache holds only ids of rows. The
  -- items differ from each other and the cache held only ids of rows; the cache and the table keep
  -- their laws.
  pub get_or_create_ids-created :
      (hs : List H) (c : C) (d : D)
      → AreDistinct dec key hs
      → IsCoherent dec key ops is_cache (rows d) c
      → (get_or_create_ids dec key ops db true hs c d).failed ≡ false
      → let r = get_or_create_ids dec key ops db true hs c d in
        All
          (λ h. (id : ℕ) × (get dec (key h) r.id_map ≡ some id) × (rows r.table (key h) ≡ some id))
          hs
        × Extends (rows d) (rows r.table)
        × IsCoherent dec key ops is_cache (rows r.table) r.cache
  get_or_create_ids-created hs c d distinct coherent ok =
      let r = get_or_create_ids dec key ops db true hs c d in
      let v = get_or_create_ids_lem true hs c d distinct coherent ok in
      (
        All-of_Has _ hs (λ h there. elim (v.known h there) [
          | inl (id, maps) ↦ (id, maps, v.truthful (key h) id maps)
          | inr (never, _) ↦ elim (true_not_false never) [ ]
        ]),
        v.grown,
        v.coherent,
      )

  -- Where no query fails, a lookup that may not create entries changes no row and gives each item
  -- exactly what the table has for it, an id or nothing, and the cache holds only ids of rows. The
  -- items differ from each other and the cache held only ids of rows; the cache and the table keep
  -- their laws.
  pub get_or_create_ids-found :
      (hs : List H) (c : C) (d : D)
      → AreDistinct dec key hs
      → IsCoherent dec key ops is_cache (rows d) c
      → (get_or_create_ids dec key ops db false hs c d).failed ≡ false
      → let r = get_or_create_ids dec key ops db false hs c d in
        All (λ h. get dec (key h) r.id_map ≡ rows d (key h)) hs
        × (r.table ≡ d)
        × IsCoherent dec key ops is_cache (rows d) r.cache
  get_or_create_ids-found hs c d distinct coherent ok =
      let r = get_or_create_ids dec key ops db false hs c d in
      let v = get_or_create_ids_lem false hs c d distinct coherent ok in
      elim v.same [
        | inl never ↦ elim (true_not_false (sym never)) [ ]
        | inr same ↦ (
          All-of_Has _ hs (λ h there. elim (Option-cases (get dec (key h) r.id_map)) [
            | inr (id, maps) ↦
                maps ∙ sym (v.truthful (key h) id maps) ∙ ap (λ t. rows t (key h)) same
            | inl absent ↦ elim (v.known h there) [
              | inl (id, maps) ↦ elim (none_some absent maps) [ ]
              | inr (_, none_there) ↦ absent ∙ sym none_there ∙ ap (λ t. rows t (key h)) same
            ]
          ]),
          same,
          subst (λ t. IsCoherent dec key ops is_cache (rows t) r.cache) same v.coherent,
        )
      ]
    where
      none_some : {o : Option ℕ} {i : ℕ} → o ≡ none → o ≡ some i → ⊥
      none_some e f = cc
