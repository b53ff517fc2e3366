-- ===== src/InternalTx/Edges.antt =====
-- indexer/extension/internaltx/util.go: the edges from accounts to a row.
use rollytics.Prelude.{
  contains, ℕ, ◌≡◌, inl, inr, refl, true, not, ◌&&◌, List, [], ◌∷◌, map, arith, if◌then◌else◌,
  count, All, Bool-cases,
}
use rollytics.InternalTx.{new_edges}

contains-same : (a b : ℕ) (seen : List ℕ) → contains b seen ≡ true → a ≡ b → contains a seen ≡ true
contains-same a b seen h e = cc

count-new_edges :
    (sequence a : ℕ) (seen ids : List ℕ)
    → count a (map (λ e. e.0) (new_edges sequence seen ids))
      ≡ (if contains a ids && not (contains a seen) then 1 else 0)
unfolding new_edges contains count
count-new_edges sequence a seen [] = refl
count-new_edges sequence a seen (id ∷ ids) = elim (Bool-cases (contains id seen)) [
  | inl skip ↦
      rw skip (ground (arith, count-new_edges sequence a seen ids, contains-same a id seen skip))
  | inr add ↦ rw add (ground (arith, count-new_edges sequence a (id ∷ seen) ids))
]

new_edges-sequence :
    (sequence : ℕ) (seen ids : List ℕ) → All (λ e. e.1 ≡ sequence) (new_edges sequence seen ids)
unfolding new_edges
new_edges-sequence sequence seen [] = tt
new_edges-sequence sequence seen (id ∷ ids) = elim (Bool-cases (contains id seen)) [
  | inl skip ↦ rw skip (new_edges-sequence sequence seen ids)
  | inr add ↦ rw add (refl, new_edges-sequence sequence (id ∷ seen) ids)
]

-- The edges of a row have its sequence, and each account that is known for the row stands in
-- exactly one of them, however often it is named.
pub new_edges-once :
    (sequence : ℕ) (ids : List ℕ) (a : ℕ)
    → (count a (map (λ e. e.0) (new_edges sequence [] ids)) ≡ (if contains a ids then 1 else 0))
      × All (λ e. e.1 ≡ sequence) (new_edges sequence [] ids)
unfolding contains
new_edges-once sequence ids a =
    (ground (arith, count-new_edges sequence a [] ids), new_edges-sequence sequence [] ids)
