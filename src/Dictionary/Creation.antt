-- ===== src/Dictionary/Creation.antt =====
-- util/cache/cache.go: what the query and the branch `createNew` give.
use rollytics.Prelude.{
  ℕ, ◌≡◌, refl, ◌⊎◌, inl, inr, Bool, true, false, List, [], ◌∷◌, Option, none, some, All, All-imp,
  Has, Option-cases,
}
use rollytics.Prelude.GoMap.{get}
use rollytics.Dictionary.{Cache, Table, add_entries, new_entries, create_entries, create_ids}
use rollytics.Dictionary.Maps.{
  IsTrue, Maps, AreDistinct, add_entries-IsTrue, Maps-add_entries, Has-add_entries,
  new_entries-AreDistinct, new_entries-absent, Has-new_entries, All-new_entries,
}
use rollytics.Dictionary.Loops.{IsCache}

abbrev pub Extends {ℓ} : {K : Type ℓ} → (K → Option ℕ) → (K → Option ℕ) → Type ℓ
Extends {K = K} rows rows' = (k : K) (id : ℕ) → rows k ≡ some id → rows' k ≡ some id

-- The table, where `rows` gives the id of each key: a query gives the rows of the items asked for;
-- an insert of items that differ from each other and are not there gives them all, and keeps the
-- rows that there are.
pub record IsTable {H K D : Type 0} (key : H → K) (dec : Discrete K) (db : Table H D)
    (rows : D → K → Option ℕ) : Type 0 where
  pub find_true :
      (d : D) (hs : List H) (es : List (H × ℕ))
      → db.find d hs ≡ some es
      → All (λ e. rows d (key e.0) ≡ some e.1) es
  pub find_all :
      (d : D) (hs : List H) (es : List (H × ℕ)) (h : H) (id : ℕ)
      → db.find d hs ≡ some es
      → Has h hs
      → rows d (key h) ≡ some id
      → Has (h, id) es
  pub create_true :
      (d d' : D) (hs : List H) (es : List (H × ℕ))
      → db.create d hs ≡ some (es, d')
      → AreDistinct dec key hs
      → All (λ h. rows d (key h) ≡ none) hs
      → All (λ e. rows d' (key e.0) ≡ some e.1) es
  pub create_all :
      (d d' : D) (hs : List H) (es : List (H × ℕ)) (h : H)
      → db.create d hs ≡ some (es, d')
      → AreDistinct dec key hs
      → All (λ h. rows d (key h) ≡ none) hs
      → Has h hs
      → (id : ℕ) × Has (h, id) es
  pub create_keeps :
      (d d' : D) (hs : List H) (es : List (H × ℕ))
      → db.create d hs ≡ some (es, d')
      → Extends (rows d) (rows d')

module _ {H K C D : Type 0} (dec : Discrete K) (key : H → K) (ops : Cache K C) (db : Table H D)
    (rows : D → K → Option ℕ) (is_cache : IsCache ops) (is_table : IsTable key dec db rows) where
  -- After the branch `createNew`.
  pub record Made (create : Bool) (uncached : List H) (d : D) (p : List (K × ℕ) × D) : Type 0 where
    pub truthful : IsTrue dec key (rows p.1) p.0
    pub grown : Extends (rows d) (rows p.1)
    pub known :
        (u : H)
        → Has u uncached
        → Maps dec key p.0 (key u) ⊎ ((create ≡ false) × (rows p.1 (key u) ≡ none))
    pub same : (create ≡ true) ⊎ (p.1 ≡ d)

  -- The map of the entries that the query has given.
  pub record Fetched (uncached : List H) (d : D) (m : List (K × ℕ)) : Type 0 where
    pub truthful : IsTrue dec key (rows d) m
    pub missing : (u : H) → Has u uncached → get dec (key u) m ≡ none → rows d (key u) ≡ none

  create_entries-Made :
      (ns uncached : List H) (d : D) (m : List (K × ℕ))
      → AreDistinct dec key ns
      → All (λ n. rows d (key n) ≡ none) ns
      → IsTrue dec key (rows d) m
      → ((u : H) → Has u uncached → Maps dec key m (key u) ⊎ Has u ns)
      → (create_entries dec key db ns m d ≡ none)
        ⊎ ((p : List (K × ℕ) × D) × (create_entries dec key db ns m d ≡ some p)
            × Made true uncached d p)
  unfolding create_entries
  create_entries-Made [] uncached d m distinct absent t split = inr (
    (m, d),
    refl,
    record {
      truthful = t;
      grown = λ k id e. e;
      known = λ u there. elim (split u there) [ inl maps ↦ inl maps | inr new ↦ elim new [ ] ];
      same = inl refl;
    },
  )
  create_entries-Made (n ∷ ns) uncached d m distinct absent t split =
      elim (Option-cases (db.create d (n ∷ ns))) [
        | inl error ↦ inl (rw error refl)
        | inr ((es, d'), made) ↦ inr (
          (add_entries dec key es m, d'),
          rw made refl,
          record {
            truthful =
                add_entries-IsTrue dec key (rows d') es m
                  (is_table.create_true d d' (n ∷ ns) es made distinct absent)
                  (λ k id e. is_table.create_keeps d d' (n ∷ ns) es made k id (t k id e));
            grown = is_table.create_keeps d d' (n ∷ ns) es made;
            known = λ u there. inl (elim (split u there) [
              | inl maps ↦ Maps-add_entries dec key es m (key u) maps
              | inr new ↦
                  let (id, has) = is_table.create_all d d' (n ∷ ns) es u made distinct absent new in
                  Has-add_entries dec key es m u id has
            ]);
            same = inl refl;
          },
        )
      ]

  pub create_ids-Made :
      (create : Bool) (uncached : List H) (d : D) (m : List (K × ℕ))
      → AreDistinct dec key uncached
      → Fetched uncached d m
      → (create_ids dec key db create uncached m d ≡ none)
        ⊎ ((p : List (K × ℕ) × D) × (create_ids dec key db create uncached m d ≡ some p)
            × Made create uncached d p)
  unfolding create_ids
  create_ids-Made false uncached d m distinct v = inr (
    (m, d),
    refl,
    record {
      truthful = v.truthful;
      grown = λ k id e. e;
      known = λ u there. elim (Option-cases (get dec (key u) m)) [
        | inl absent ↦ inr (refl, v.missing u there absent)
        | inr maps ↦ inl maps
      ];
      same = inr refl;
    },
  )
  create_ids-Made true uncached d m distinct v =
      create_entries-Made (new_entries dec key uncached m) uncached d m
        (new_entries-AreDistinct dec key uncached m distinct)
        (new-missing (new_entries dec key uncached m)
          (All-new_entries dec key (λ u. Has u uncached) uncached m (all-Has uncached))
          (new_entries-absent dec key uncached m))
        v.truthful (Has-new_entries dec key uncached m)
    where
      new-missing :
          (ns : List H)
          → All (λ u. Has u uncached) ns
          → All (λ u. get dec (key u) m ≡ none) ns
          → All (λ n. rows d (key n) ≡ none) ns
      new-missing [] within absent = tt
      new-missing (n ∷ ns) within absent =
          (v.missing n within.0 absent.0, new-missing ns within.1 absent.1)

      all-Has : (hs : List H) → All (λ u. Has u hs) hs
      all-Has [] = tt
      all-Has (h ∷ hs) = (inl refl, All-imp hs (λ u there. inr there) (all-Has hs))

  pub none-map : (k : K) (id : ℕ) → get dec k [] ≡ some id → ⊥
  unfolding get
  none-map k id e = cc

  pub add_entries-Fetched :
      (uncached : List H) (d : D) (es : List (H × ℕ))
      → db.find d uncached ≡ some es
      → Fetched uncached d (add_entries dec key es [])
  add_entries-Fetched uncached d es found = record {
    truthful =
        add_entries-IsTrue dec key (rows d) es [] (is_table.find_true d uncached es found)
          (λ k id e. elim (none-map k id e) [ ]);
    missing = λ u there absent. elim (Option-cases (rows d (key u))) [
      | inl none_there ↦ none_there
      | inr (id, row) ↦
          let (i, maps) =
            Has-add_entries dec key es [] u id
              (is_table.find_all d uncached es u id found there row) in
          absurd (none_some absent maps)
    ];
  }
    where
      none_some : {o : Option ℕ} {i : ℕ} → o ≡ none → o ≡ some i → ⊥
      none_some e f = cc
