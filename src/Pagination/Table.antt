-- ===== src/Pagination/Table.antt =====
-- util/common-handler/common/pagination.go: the rows that a query gives, on a table whose rows are
-- the integers of its key column, stored in any order. The calls of the builder come in the order in
-- which SQL applies their clauses: WHERE, ORDER BY, OFFSET, LIMIT. A test on another column keeps
-- nothing, and another column does not order the rows.
use mathlib.Core.List.{Perm, foldr}
use mathlib.Core.List.Perm
use rollytics.Prelude.{
  ℕ, ◌≡◌, refl, sym, ap, ◌∙◌, Bool, true, false, List, [], ◌∷◌, arith, ltb, if◌then◌else◌, All,
  take, drop, ℕ_discrete,
}
use rollytics.Prelude.Int.{pos, ltb_ℤ}
use rollytics.Text.{Text, text_discrete}
use rollytics.Pagination.{Order, desc, asc, Value, int_value}
use rollytics.Pagination.Queries.{Clause, where_before, where_after, order_by, offset, limit}

unfoldable pub keep : (ℕ → Bool) → List ℕ → List ℕ
keep test [] = []
keep test (r ∷ rows) = if test r then r ∷ keep test rows else keep test rows

-- A row against the values of a `Where` on one integer column.
unfoldable pub is_past : Text → Order → List (Text × Value) → ℕ → Bool
is_past column order ((key, int_value v) ∷ []) r = elim (text_discrete key column) [
  | yes same ↦ elim order [ desc ↦ ltb_ℤ (pos r) v | asc ↦ ltb_ℤ v (pos r) ]
  | no other ↦ false
]
is_past column order _ r = false

-- The row `r` comes behind the row `h`.
abbrev pub behind : Order → ℕ → ℕ → Bool
behind desc h r = ltb r h
behind asc h r = ltb h r

unfoldable pub insert : Order → ℕ → List ℕ → List ℕ
insert order r [] = r ∷ []
insert order r (x ∷ rows) = if behind order x r then x ∷ insert order r rows else r ∷ x ∷ rows

unfoldable pub sort : Order → List ℕ → List ℕ
unfolding insert
sort order [] = []
sort order (r ∷ rows) = insert order r (sort order rows)

-- The key column decides, at its first place among the columns.
unfoldable pub order_rows : Text → List (Text × Order) → List ℕ → List ℕ
unfolding sort
order_rows column [] rows = rows
order_rows column ((key, order) ∷ columns) rows = elim (text_discrete key column) [
  | yes same ↦ sort order rows
  | no other ↦ order_rows column columns rows
]

unfoldable pub select : Text → List Clause → List ℕ → List ℕ
unfolding keep is_past order_rows
select column [] rows = rows
select column (where_before values ∷ q) rows =
    select column q (keep (is_past column desc values) rows)
select column (where_after values ∷ q) rows =
    select column q (keep (is_past column asc values) rows)
select column (order_by columns ∷ q) rows = select column q (order_rows column columns rows)
select column (offset n ∷ q) rows = select column q (drop n rows)
select column (limit n ∷ q) rows = select column q (take n rows)

-- The rows in the order that a page asks for, without two of one key.
abbrev pub Listed : Order → List ℕ → Type 0
Listed order [] = Unit
Listed order (r ∷ rows) = All (λ x. behind order r x ≡ true) rows × Listed order rows

insert_comm :
    (order : Order) (a b : ℕ) (rows : List ℕ)
    → insert order a (insert order b rows) ≡ insert order b (insert order a rows)
unfolding insert
insert_comm desc a b [] = ground arith
insert_comm asc a b [] = ground arith
insert_comm desc a b (x ∷ rows) = ground (arith, insert_comm desc a b rows)
insert_comm asc a b (x ∷ rows) = ground (arith, insert_comm asc a b rows)

pub sort-Listed : (order : Order) (rows : List ℕ) → Listed order rows → sort order rows ≡ rows
unfolding sort insert
sort-Listed order [] h = refl
sort-Listed order (r ∷ []) h = refl
sort-Listed desc (r ∷ x ∷ rows) h = rw (sort-Listed desc (x ∷ rows) h.1) (ground (arith, h.0.0))
sort-Listed asc (r ∷ x ∷ rows) h = rw (sort-Listed asc (x ∷ rows) h.1) (ground (arith, h.0.0))

insert_kept : (ℕ → Bool) → Order → ℕ → List ℕ → List ℕ
unfolding insert
insert_kept test order r rows = if test r then insert order r rows else rows

insert_kept_comm :
    (test : ℕ → Bool) (order : Order) (a b : ℕ) (rows : List ℕ)
    → insert_kept test order a (insert_kept test order b rows)
      ≡ insert_kept test order b (insert_kept test order a rows)
unfolding insert_kept
insert_kept_comm test order a b rows = ground (arith, insert_comm order a b rows)

sort-keep :
    (test : ℕ → Bool) (order : Order) (rows : List ℕ)
    → sort order (keep test rows) ≡ foldr (insert_kept test order) [] rows
unfolding sort keep insert_kept
sort-keep test order [] = refl
sort-keep test order (r ∷ rows) = ground (arith, sort-keep test order rows)

-- What is kept is ordered in one way, wherever the table has it.
pub sort-keep-perm :
    (test : ℕ → Bool) (order : Order) (rows listed : List ℕ)
    → Perm rows listed
    → sort order (keep test rows) ≡ sort order (keep test listed)
sort-keep-perm test order rows listed p =
    sort-keep test order rows
    ∙ Perm.foldr-eq (hlevel ℕ_discrete) (insert_kept test order) (insert_kept_comm test order) p []
    ∙ sym (sort-keep test order listed)

All-true : (rows : List ℕ) → All (λ r. true ≡ true) rows
All-true [] = tt
All-true (r ∷ rows) = (refl, All-true rows)

pub keep-All :
    (test : ℕ → Bool) (rows : List ℕ) → All (λ x. test x ≡ true) rows → keep test rows ≡ rows
unfolding keep
keep-All test [] h = refl
keep-All test (r ∷ rows) h = rw h.0 (ap (◌∷◌ r) (keep-All test rows h.1))

pub sort-perm :
    (order : Order) (rows listed : List ℕ)
    → Perm rows listed
    → Listed order listed
    → sort order rows ≡ listed
sort-perm order rows listed p h =
    let all = λ (rows : List ℕ). keep-All (λ r. true) rows (All-true rows) in
    ap (sort order) (sym (all rows))
    ∙ sort-keep-perm (λ r. true) order rows listed p
    ∙ ap (sort order) (all listed)
    ∙ sort-Listed order listed h

pub order_rows-column :
    (key : Text) (order : Order) (rows : List ℕ)
    → order_rows key ((key, order) ∷ []) rows ≡ sort order rows
unfolding order_rows
order_rows-column key order rows = ground arith
