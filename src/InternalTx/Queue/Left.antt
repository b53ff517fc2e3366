-- ===== src/InternalTx/Queue/Left.antt =====
-- What the query of the producer leaves behind a batch.
use rollytics.Prelude.{
  ℕ, zero, suc, ◌<◌, ◌≤◌, ◌≡◌, refl, sym, ap, ◌∙◌, inl, inr, List, [], ◌∷◌, All, arith, length,
  take,
}
use rollytics.InternalTx.Queue.{Blocks, above, last_of}
use rollytics.InternalTx.Queue.Heights.{between, above-split, above-nil, take-above, last_of-take}

-- The last height of a batch is that of a block.
pub last_of-stored :
    (last n x : ℕ) (blocks : Blocks) (h : ℕ) (hs : List ℕ)
    → take n (above last blocks) ≡ h ∷ hs
    → All (λ b. b.0 < x) blocks
    → last_of h hs < x
unfolding last_of
last_of-stored last zero x blocks h hs e all = cc
last_of-stored last (suc m) x [] h hs e all = absurd (ground (arith, e, above-nil last))
last_of-stored last (suc m) x (b ∷ blocks) h hs e all = elim (above-split last b blocks) [
  | inl (out, same) ↦
      last_of-stored last (suc m) x blocks h hs (ap (take (suc m)) (sym same) ∙ e) all.1
  | inr (high, some, first) ↦
      let (head, tail) = take-above last m b blocks h hs first e in
      go hs (omega arith) (λ k ks f. last_of-stored last m x blocks k ks (tail ∙ f) all.1)
]
  where
    go :
        (ks : List ℕ)
        → h < x
        → ((k : ℕ) (js : List ℕ) → ks ≡ k ∷ js → last_of k js < x)
        → last_of h ks < x
    go [] low f = low
    go (k ∷ js) low f = f k js refl

-- Above a bound with no heights left, all heights are between.
pub between-above :
    (from to : ℕ) (blocks : Blocks)
    → from ≤ to
    → above to blocks ≡ []
    → between from to blocks ≡ above from blocks
unfolding between above
between-above from to [] le e = refl
between-above from to ((height, tx_count) ∷ blocks) le e =
    ground (arith, e, between-above from to blocks le)

above-le :
    (last l : ℕ) (blocks : Blocks) → last ≤ l → length (above l blocks) ≤ length (above last blocks)
unfolding above
above-le last l [] le = omega arith
above-le last l ((height, tx_count) ∷ blocks) le = ground (arith, above-le last l blocks le)

above-cons :
    (l : ℕ) (b : ℕ × ℕ) (blocks : Blocks)
    → (length (above l (b ∷ blocks)) ≤ suc (length (above l blocks)))
      × (b.0 ≤ l → above l (b ∷ blocks) ≡ above l blocks)
above-cons l b blocks = elim (above-split l b blocks) [
  | inl (out, same) ↦ (omega (arith, ap length same), λ le. same)
  | inr (high, some, first) ↦ (omega (arith, ap length first), λ le. absurd (omega arith))
]

above-head :
    (last h : ℕ) (hs : List ℕ) (b : ℕ × ℕ) (blocks : Blocks)
    → b.0 ≡ h
    → last < b.0
    → ((k : ℕ) (ks : List ℕ)
        → hs ≡ k ∷ ks
        → length (above (last_of k ks) blocks) < length (above last blocks))
    → length (above (last_of h hs) (b ∷ blocks)) ≤ length (above last blocks)
unfolding last_of
above-head last h [] b blocks head high next = omega (
  arith,
  ap length ((above-cons h b blocks).1 (omega arith)),
  above-le last h blocks (omega arith),
)
above-head last h (k ∷ ks) b blocks head high next =
    omega (arith, (above-cons (last_of k ks) b blocks).0, next k ks refl)

-- Behind a batch fewer heights are left.
pub above-lt :
    (last n : ℕ) (blocks : Blocks) (h : ℕ) (hs : List ℕ)
    → take n (above last blocks) ≡ h ∷ hs
    → length (above (last_of h hs) blocks) < length (above last blocks)
above-lt last zero blocks h hs e = cc
above-lt last (suc m) [] h hs e = absurd (ground (arith, e, above-nil last))
above-lt last (suc m) (b ∷ blocks) h hs e = elim (above-split last b blocks) [
  | inl (out, same) ↦
      let rest = ap (take (suc m)) (sym same) ∙ e in
      let ih = above-lt last (suc m) blocks h hs rest in
      let low = last_of-take last (suc m) blocks h hs rest in
      elim (above-split (last_of h hs) b blocks) [
        | inl (skip, gone) ↦ omega (arith, ap length same, ap length gone, ih)
        | inr (high, some, first) ↦ elim out [
          | inl le ↦ absurd (omega arith)
          | inr none ↦ absurd (omega arith)
        ]
      ]
  | inr (high, some, first) ↦
      let (head, tail) = take-above last m b blocks h hs first e in
      let ih =
        above-head last h hs b blocks head high
          (λ k ks f. above-lt last m blocks k ks (tail ∙ f)) in
      omega (arith, ih, ap length first)
]
