-- ===== src/Scraper/SlowSync/Sorting.antt =====
-- indexer/scraper/sync.go: the sorted results of a round and the first error among them.
use mathlib.Core.Option.{some-injective}
use rollytics.Prelude.{
  ℕ, ◌+◌, ◌≤◌, ◌<◌, ◌≡◌, sym, ◌⊎◌, inl, inr, true, false, List, [], ◌∷◌, Option, none, some, arith,
  leb, All, Bool-cases, Option-cases, subst, All-imp,
}
use rollytics.Scraper.SlowSync.{
  batch_scrap_size, ScrapResult, insert_result, sort_results, error_height, update_height,
}

-- Where the first error of a sorted list stands: no error below it.
abbrev Bounds : Option ℕ → ScrapResult → Type 0
Bounds none r = r.ok ≡ true
Bounds (some e) r = (r.ok ≡ true) ⊎ (e ≤ r.height)

abbrev Sorted : List ScrapResult → Type 0
Sorted [] = Unit
Sorted (r ∷ rs) = All (λ x. r.height ≤ x.height) rs × Sorted rs

All-insert :
    (P : ScrapResult → Type 0) (r : ScrapResult) (l : List ScrapResult)
    → P r
    → All P l
    → All P (insert_result r l)
unfolding insert_result
All-insert P r [] h k = (h, tt)
All-insert P r (x ∷ l) h k = elim (Bool-cases (leb r.height x.height)) [
  | inl before ↦ rw before (h, k)
  | inr after ↦ rw after (k.0, All-insert P r l h k.1)
]

All-le_trans :
    (a b : ℕ) (l : List ScrapResult) → a ≤ b → All (λ x. b ≤ x.height) l → All (λ x. a ≤ x.height) l
All-le_trans a b [] h k = tt
All-le_trans a b (x ∷ l) h k = (omega arith, All-le_trans a b l h k.1)

insert-Sorted : (r : ScrapResult) (l : List ScrapResult) → Sorted l → Sorted (insert_result r l)
unfolding insert_result
insert-Sorted r [] s = (tt, tt)
insert-Sorted r (x ∷ l) s = elim (Bool-cases (leb r.height x.height)) [
  | inl before ↦
      let le : r.height ≤ x.height = ground arith in
      rw before ((le, All-le_trans r.height x.height l le s.0), s)
  | inr after ↦
      rw after (All-insert (λ y. x.height ≤ y.height) r l (ground arith) s.0, insert-Sorted r l s.1)
]

sort-Sorted : (l : List ScrapResult) → Sorted (sort_results l)
unfolding sort_results
sort-Sorted [] = tt
sort-Sorted (r ∷ l) = insert-Sorted r (sort_results l) (sort-Sorted l)

All-of-insert :
    (P : ScrapResult → Type 0) (r : ScrapResult) (l : List ScrapResult)
    → All P (insert_result r l)
    → P r × All P l
unfolding insert_result
All-of-insert P r [] h = (h.0, tt)
All-of-insert P r (x ∷ l) h = elim (Bool-cases (leb r.height x.height)) [
  | inl before ↦ let k : All P (r ∷ x ∷ l) = rw before at h in k
  | inr after ↦
      let k : All P (x ∷ insert_result r l) = rw after at h in
      let (first, rest) = All-of-insert P r l k.1 in (first, (k.0, rest))
]

All-of-sort : (P : ScrapResult → Type 0) (l : List ScrapResult) → All P (sort_results l) → All P l
unfolding sort_results
All-of-sort P [] h = tt
All-of-sort P (r ∷ l) h =
    let (first, rest) = All-of-insert P r (sort_results l) h in (first, All-of-sort P l rest)

ok-Bounds : (o : Option ℕ) (r : ScrapResult) → r.ok ≡ true → Bounds o r
ok-Bounds none r h = h
ok-Bounds (some e) r h = inl h

le-Bounds : (e : ℕ) (l : List ScrapResult) → All (λ x. e ≤ x.height) l → All (Bounds (some e)) l
le-Bounds e [] h = tt
le-Bounds e (x ∷ l) h = (inr h.0, le-Bounds e l h.1)

error_height-ok :
    (r : ScrapResult) (l : List ScrapResult) → r.ok ≡ true → error_height (r ∷ l) ≡ error_height l
unfolding error_height
error_height-ok r l h = ground arith

error_height-bad :
    (r : ScrapResult) (l : List ScrapResult) → r.ok ≡ false → error_height (r ∷ l) ≡ some r.height
unfolding error_height
error_height-bad r l h = ground arith

error_height-Bounds : (l : List ScrapResult) → Sorted l → All (Bounds (error_height l)) l
unfolding error_height
error_height-Bounds [] s = tt
error_height-Bounds (r ∷ l) s = elim (Bool-cases r.ok) [
  | inl fine ↦
      subst (λ o. All (Bounds o) (r ∷ l)) (sym (error_height-ok r l fine))
        (ok-Bounds (error_height l) r fine, error_height-Bounds l s.1)
  | inr bad ↦
      subst (λ o. All (Bounds o) (r ∷ l)) (sym (error_height-bad r l bad))
        (inr (omega arith), le-Bounds r.height l s.0)
]

All-sort : (P : ScrapResult → Type 0) (l : List ScrapResult) → All P l → All P (sort_results l)
unfolding sort_results
All-sort P [] h = tt
All-sort P (r ∷ l) h = All-insert P r (sort_results l) h.0 (All-sort P l h.1)

error_height-All :
    (P : ℕ → Type 0) (l : List ScrapResult) (e : ℕ)
    → All (λ r. P r.height) l
    → error_height l ≡ some e
    → P e
unfolding error_height
error_height-All P [] e h k = cc
error_height-All P (r ∷ l) e h k = elim (Bool-cases r.ok) [
  | inl fine ↦ error_height-All P l e h.1 (rw fine at k)
  | inr bad ↦ subst P (some-injective _ _ (rw bad at k)) h.0
]

Bounds-passes :
    (height : ℕ) (o : Option ℕ) (r : ScrapResult)
    → Bounds o r
    → (r.ok ≡ true)
      ⊎ (elim o as (λ _. ℕ) [ none ↦ height + batch_scrap_size | some e ↦ e ] ≤ r.height)
Bounds-passes height none r h = inl h
Bounds-passes height (some e) r h = h

pub update_height-passes :
    (height : ℕ) (l : List ScrapResult)
    → All (λ r. (r.ok ≡ true) ⊎ (update_height height l ≤ r.height)) l
unfolding update_height
update_height-passes height l = All-of-sort _ l (
    All-imp (sort_results l) (Bounds-passes height (error_height (sort_results l)))
      (error_height-Bounds (sort_results l) (sort-Sorted l)))

pub update_height-range :
    (height : ℕ) (l : List ScrapResult)
    → All (λ r. (height ≤ r.height) × (r.height < height + 5)) l
    → (height ≤ update_height height l) × (update_height height l ≤ height + 5)
unfolding update_height
update_height-range height l within = elim (Option-cases (error_height (sort_results l))) [
  | inl fine ↦ rw (fine, update_height) (omega arith, omega arith)
  | inr (e, bad) ↦
      let (le, lt) =
        error_height-All (λ h. (height ≤ h) × (h < height + 5)) (sort_results l) e
          (All-sort _ l within) bad in
      rw (bad, update_height) (le, omega arith)
]
