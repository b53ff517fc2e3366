-- ===== src/InternalTx/Queue/Heights.antt =====
-- The heights that the query of the producer selects.
use rollytics.Prelude.{
  ℕ, zero, suc, ◌<◌, ◌≤◌, ◌≡◌, refl, sym, ap, ◌∙◌, ◌⊎◌, inl, inr, ◌&&◌, List, [], ◌∷◌, ◌++◌, All,
  All-imp, arith, ltb, leb, if◌then◌else◌, take, dec_lt,
}
use rollytics.InternalTx.Queue.{Blocks, above, last_of}

-- The heights of blocks with transactions, above one bound and up to another.
unfoldable pub between : ℕ → ℕ → Blocks → List ℕ
between from to [] = []
between from to ((height, tx_count) ∷ blocks) =
    if ltb from height && (leb height to && ltb 0 tx_count)
    then height ∷ between from to blocks
    else between from to blocks

abbrev pub IsAscending : Blocks → Type 0
IsAscending [] = Unit
IsAscending (b ∷ blocks) = All (λ c. b.0 < c.0) blocks × IsAscending blocks

between-none :
    (from to : ℕ) (blocks : Blocks) → All (λ c. to < c.0) blocks → between from to blocks ≡ []
unfolding between
between-none from to [] all = refl
between-none from to (b ∷ blocks) all = ground (arith, between-none from to blocks all.1)

pub between_self : (from : ℕ) (blocks : Blocks) → between from from blocks ≡ []
unfolding between
between_self from [] = refl
between_self from (b ∷ blocks) = ground (arith, between_self from blocks)

-- A new block above the bounds is not between them.
pub between-store :
    (from to height tx_count : ℕ) (blocks : Blocks)
    → (to ≡ from) ⊎ (to < height)
    → between from to (blocks ++ (height, tx_count) ∷ []) ≡ between from to blocks
unfolding between
between-store from to height tx_count [] h = ground (arith)
between-store from to height tx_count (b ∷ blocks) h =
    ground (arith, between-store from to height tx_count blocks h)

-- A block is left out by the query, or it comes first.
pub above-split :
    (last : ℕ) (b : ℕ × ℕ) (blocks : Blocks)
    → (((b.0 ≤ last) ⊎ (b.1 ≡ 0)) × (above last (b ∷ blocks) ≡ above last blocks))
      ⊎ ((last < b.0) × (0 < b.1) × (above last (b ∷ blocks) ≡ b.0 ∷ above last blocks))
unfolding above
above-split last (height, tx_count) blocks = elim (dec_lt last height) [
  | no low ↦ inl (inl (omega arith), ground arith)
  | yes high ↦ elim (dec_lt 0 tx_count) [
    | no none ↦ inl (inr (omega arith), ground arith)
    | yes some ↦ inr (high, some, ground arith)
  ]
]

pub above-nil : (last : ℕ) → above last [] ≡ []
unfolding above
above-nil last = refl

-- A batch that begins with a block goes on with the batch of the blocks behind it.
pub take-above :
    (last m : ℕ) (b : ℕ × ℕ) (blocks : Blocks) (h : ℕ) (hs : List ℕ)
    → above last (b ∷ blocks) ≡ b.0 ∷ above last blocks
    → take (suc m) (above last (b ∷ blocks)) ≡ h ∷ hs
    → (b.0 ≡ h) × (take m (above last blocks) ≡ hs)
take-above last m b blocks h hs first e =
    let q : b.0 ∷ take m (above last blocks) ≡ h ∷ hs = ap (take (suc m)) (sym first) ∙ e in
    (cc, cc)

last_of-lt :
    (last h : ℕ) (hs : List ℕ)
    → last < h
    → ((k : ℕ) (ks : List ℕ) → hs ≡ k ∷ ks → last < last_of k ks)
    → last < last_of h hs
unfolding last_of
last_of-lt last h [] low next = low
last_of-lt last h (k ∷ ks) low next = next k ks refl

-- The last height of a batch is above the bound of the query.
pub last_of-take :
    (last n : ℕ) (blocks : Blocks) (h : ℕ) (hs : List ℕ)
    → take n (above last blocks) ≡ h ∷ hs
    → last < last_of h hs
last_of-take last zero blocks h hs e = cc
last_of-take last (suc m) [] h hs e = absurd (ground (arith, e, above-nil last))
last_of-take last (suc m) (b ∷ blocks) h hs e = elim (above-split last b blocks) [
  | inl (out, same) ↦ last_of-take last (suc m) blocks h hs (ap (take (suc m)) (sym same) ∙ e)
  | inr (high, some, first) ↦
      let (head, tail) = take-above last m b blocks h hs first e in
      last_of-lt last h hs (omega arith) (λ k ks f. last_of-take last m blocks k ks (tail ∙ f))
]

between-skip :
    (from to : ℕ) (b : ℕ × ℕ) (blocks : Blocks)
    → (b.0 ≤ from) ⊎ ((b.1 ≡ 0) ⊎ (to < b.0))
    → between from to (b ∷ blocks) ≡ between from to blocks
unfolding between
between-skip from to (height, tx_count) blocks h = ground arith

between-take :
    (from to : ℕ) (b : ℕ × ℕ) (blocks : Blocks)
    → from < b.0
    → b.0 ≤ to
    → 0 < b.1
    → between from to (b ∷ blocks) ≡ b.0 ∷ between from to blocks
unfolding between
between-take from to (height, tx_count) blocks h k l = ground arith

between-out :
    (from last to : ℕ) (b : ℕ × ℕ) (blocks : Blocks) (xs : List ℕ)
    → (b.0 ≤ last) ⊎ (b.1 ≡ 0)
    → last < to
    → between from to blocks ≡ between from last blocks ++ xs
    → between from to (b ∷ blocks) ≡ between from last (b ∷ blocks) ++ xs
unfolding between
between-out from last to (height, tx_count) blocks xs out low e = ground (arith, e)

-- Behind a block all blocks are above it.
above-raise :
    (last x : ℕ) (blocks : Blocks)
    → All (λ c. x < c.0) blocks
    → last ≤ x
    → above last blocks ≡ above x blocks
unfolding above
above-raise last x [] all le = refl
above-raise last x ((height, tx_count) ∷ blocks) all le =
    ground (arith, above-raise last x blocks all.1)

between-head :
    (from last x : ℕ) (b : ℕ × ℕ) (blocks : Blocks) (hs : List ℕ)
    → All (λ c. b.0 < c.0) blocks
    → from ≤ last
    → last < b.0
    → 0 < b.1
    → b.0 ≡ x
    → ((k : ℕ) (ks : List ℕ)
        → hs ≡ k ∷ ks
        → (b.0 < last_of k ks)
          × (between from (last_of k ks) blocks ≡ between from b.0 blocks ++ k ∷ ks))
    → between from (last_of x hs) (b ∷ blocks) ≡ between from last (b ∷ blocks) ++ x ∷ hs
unfolding last_of
between-head from last x b blocks hs all le high some head next =
    let empty : between from last (b ∷ blocks) ≡ [] =
      between-none from last (b ∷ blocks)
        (high, All-imp blocks (λ c (h : b.0 < c.0). omega arith) all) in
    let rest : between from b.0 blocks ≡ [] = between-none from b.0 blocks all in
    rw empty (rw (← head) (go hs rest next))
  where
    go :
        (ks : List ℕ)
        → between from b.0 blocks ≡ []
        → ((k : ℕ) (js : List ℕ)
            → ks ≡ k ∷ js
            → (b.0 < last_of k js)
              × (between from (last_of k js) blocks ≡ between from b.0 blocks ++ k ∷ js))
        → between from (last_of b.0 ks) (b ∷ blocks) ≡ b.0 ∷ ks
    go [] e f = between-take from b.0 b blocks (omega arith) (omega arith) some ∙ ap (◌∷◌ b.0) e
    go (k ∷ js) e f =
        let (low, g) = f k js refl in
        between-take from (last_of k js) b blocks (omega arith) (omega arith) some
        ∙ ap (◌∷◌ b.0) (g ∙ ap (λ l. l ++ k ∷ js) e)

-- The heights up to the end of a batch are those up to its bound and then the batch.
pub between-batch :
    (from last n : ℕ) (blocks : Blocks) (h : ℕ) (hs : List ℕ)
    → IsAscending blocks
    → from ≤ last
    → take n (above last blocks) ≡ h ∷ hs
    → between from (last_of h hs) blocks ≡ between from last blocks ++ h ∷ hs
between-batch from last zero blocks h hs asc le e = cc
between-batch from last (suc m) [] h hs asc le e = absurd (ground (arith, e, above-nil last))
between-batch from last (suc m) (b ∷ blocks) h hs asc le e = elim (above-split last b blocks) [
  | inl (out, same) ↦
      let rest = ap (take (suc m)) (sym same) ∙ e in
      between-out from last (last_of h hs) b blocks (h ∷ hs) out
        (last_of-take last (suc m) blocks h hs rest)
        (between-batch from last (suc m) blocks h hs asc.1 le rest)
  | inr (high, some, first) ↦
      let (head, tail) = take-above last m b blocks h hs first e in
      let raised = ap (take m) (sym (above-raise last b.0 blocks asc.0 (omega arith))) ∙ tail in
      between-head from last h b blocks hs asc.0 le high some head (λ k ks f. (
        last_of-take b.0 m blocks k ks (raised ∙ f),
        between-batch from b.0 m blocks k ks asc.1 (omega arith) (raised ∙ f),
      ))
]
