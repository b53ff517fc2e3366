-- ===== src/Dictionary/Maps.antt =====
-- util/cache/cache.go: the maps of ids, and the items that have none.
use rollytics.Prelude.{
  ℕ, ◌≡◌, ◌≢◌, refl, sym, subst, ap, ◌∙◌, ◌⊎◌, inl, inr, List, [], ◌∷◌, Option, none, some, All,
  Has, Option-cases,
}
use rollytics.Prelude.GoMap.{get, put, get-put_self, get-put_ne}
use rollytics.Dictionary.{add_entries, new_entries}

module _ {H K : Type 0} (dec : Discrete K) (key : H → K) where
  -- A map that holds only what `rows` holds.
  abbrev pub IsTrue : (K → Option ℕ) → List (K × ℕ) → Type 0
  IsTrue rows m = (k : K) (id : ℕ) → get dec k m ≡ some id → rows k ≡ some id

  abbrev pub Maps : List (K × ℕ) → K → Type 0
  Maps m k = (id : ℕ) × (get dec k m ≡ some id)

  pub put-IsTrue :
      (rows : K → Option ℕ) (m : List (K × ℕ)) (j : K) (id : ℕ)
      → rows j ≡ some id
      → IsTrue rows m
      → IsTrue rows (put dec j id m)
  put-IsTrue rows m j id h t k i e = elim (dec j k) [
    | yes same ↦
        subst (λ x. rows x ≡ some i) same
          (h ∙ sym (get-put_self dec j id m) ∙ ap (λ x. get dec x (put dec j id m)) same ∙ e)
    | no other ↦ t k i (sym (get-put_ne dec j k id m other) ∙ e)
  ]

  pub Maps-put : (m : List (K × ℕ)) (j : K) (id : ℕ) (k : K) → Maps m k → Maps (put dec j id m) k
  Maps-put m j id k (i, e) = elim (dec j k) [
    | yes same ↦ (id, ap (λ x. get dec x (put dec j id m)) (sym same) ∙ get-put_self dec j id m)
    | no other ↦ (i, get-put_ne dec j k id m other ∙ e)
  ]

  pub add_entries-IsTrue :
      (rows : K → Option ℕ) (es : List (H × ℕ)) (m : List (K × ℕ))
      → All (λ e. rows (key e.0) ≡ some e.1) es
      → IsTrue rows m
      → IsTrue rows (add_entries dec key es m)
  unfolding add_entries
  add_entries-IsTrue rows [] m all t = t
  add_entries-IsTrue rows ((h, id) ∷ es) m all t =
      add_entries-IsTrue rows es (put dec (key h) id m) all.1 (put-IsTrue rows m (key h) id all.0 t)

  pub Maps-add_entries :
      (es : List (H × ℕ)) (m : List (K × ℕ)) (k : K) → Maps m k → Maps (add_entries dec key es m) k
  unfolding add_entries
  Maps-add_entries [] m k h = h
  Maps-add_entries ((h, id) ∷ es) m k maps =
      Maps-add_entries es (put dec (key h) id m) k (Maps-put m (key h) id k maps)

  pub Has-add_entries :
      (es : List (H × ℕ)) (m : List (K × ℕ)) (h : H) (id : ℕ)
      → Has (h, id) es
      → Maps (add_entries dec key es m) (key h)
  unfolding add_entries
  Has-add_entries [] m h id there = elim there [ ]
  Has-add_entries ((j, i) ∷ es) m h id (inl e) =
      Maps-add_entries es (put dec (key j) i m) (key h)
        (i, ap (λ q. get dec (key q.0) (put dec (key j) i m)) e ∙ get-put_self dec (key j) i m)
  Has-add_entries ((j, i) ∷ es) m h id (inr there) =
      Has-add_entries es (put dec (key j) i m) h id there

  -- The keys of a list of items differ from each other.
  abbrev pub AreDistinct : List H → Type 0
  AreDistinct [] = Unit
  AreDistinct (h ∷ hs) = All (λ j. key h ≢ key j) hs × AreDistinct hs

  new_entries-none :
      (h : H) (hs : List H) (m : List (K × ℕ))
      → get dec (key h) m ≡ none
      → new_entries dec key (h ∷ hs) m ≡ h ∷ new_entries dec key hs m
  unfolding new_entries
  new_entries-none h hs m e = rw (e, new_entries) refl

  new_entries-some :
      (h : H) (hs : List H) (m : List (K × ℕ)) (id : ℕ)
      → get dec (key h) m ≡ some id
      → new_entries dec key (h ∷ hs) m ≡ new_entries dec key hs m
  unfolding new_entries
  new_entries-some h hs m id e = rw (e, new_entries) refl

  new_entries-nil : (m : List (K × ℕ)) → new_entries dec key [] m ≡ []
  unfolding new_entries
  new_entries-nil m = refl

  pub All-new_entries :
      (P : H → Type 0) (hs : List H) (m : List (K × ℕ))
      → All P hs
      → All P (new_entries dec key hs m)
  All-new_entries P [] m all = rw (new_entries-nil m) tt
  All-new_entries P (h ∷ hs) m all = elim (Option-cases (get dec (key h) m)) [
    | inl absent ↦ rw (new_entries-none h hs m absent) (all.0, All-new_entries P hs m all.1)
    | inr (id, found) ↦ rw (new_entries-some h hs m id found) (All-new_entries P hs m all.1)
  ]

  pub new_entries-AreDistinct :
      (hs : List H) (m : List (K × ℕ)) → AreDistinct hs → AreDistinct (new_entries dec key hs m)
  new_entries-AreDistinct [] m d = rw (new_entries-nil m) tt
  new_entries-AreDistinct (h ∷ hs) m d = elim (Option-cases (get dec (key h) m)) [
    | inl absent ↦
        rw (new_entries-none h hs m absent)
          (All-new_entries (λ j. key h ≢ key j) hs m d.0, new_entries-AreDistinct hs m d.1)
    | inr (id, found) ↦ rw (new_entries-some h hs m id found) (new_entries-AreDistinct hs m d.1)
  ]

  pub new_entries-absent :
      (hs : List H) (m : List (K × ℕ))
      → All (λ h. get dec (key h) m ≡ none) (new_entries dec key hs m)
  new_entries-absent [] m = rw (new_entries-nil m) tt
  new_entries-absent (h ∷ hs) m = elim (Option-cases (get dec (key h) m)) [
    | inl absent ↦ rw (new_entries-none h hs m absent) (absent, new_entries-absent hs m)
    | inr (id, found) ↦ rw (new_entries-some h hs m id found) (new_entries-absent hs m)
  ]

  -- An item has an entry, or it is a new one.
  pub Has-new_entries :
      (hs : List H) (m : List (K × ℕ)) (h : H)
      → Has h hs
      → Maps m (key h) ⊎ Has h (new_entries dec key hs m)
  Has-new_entries [] m h there = elim there [ ]
  Has-new_entries (j ∷ hs) m h (inl e) = elim (Option-cases (get dec (key j) m)) [
    | inl absent ↦ inr (rw (new_entries-none j hs m absent) (inl e))
    | inr (id, found) ↦ inl (id, ap (λ x. get dec (key x) m) e ∙ found)
  ]
  Has-new_entries (j ∷ hs) m h (inr there) = elim (Has-new_entries hs m h there) [
    | inl maps ↦ inl maps
    | inr new ↦ inr (elim (Option-cases (get dec (key j) m)) [
      | inl absent ↦ rw (new_entries-none j hs m absent) (inr new)
      | inr (id, found) ↦ rw (new_entries-some j hs m id found) new
    ])
  ]
