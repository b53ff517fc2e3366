-- ===== src/InternalTx/Queue/Order.antt =====
-- indexer/extension/internaltx/extension.go: the heights pass through the queue in order, each once.
use mathlib.Core.List.{append_assoc, append-nil, map-append}
use rollytics.Prelude.{
  ℕ, ◌-◌, ◌<◌, ◌≤◌, ◌≡◌, refl, sym, ◌∙◌, ◌⊎◌, inl, inr, Bool, List, [], ◌∷◌, ◌++◌, map, min, Option,
  none, some, All, All-of_append, All-append, arith, Bool-cases, Option-cases, length,
  length-append, take, leb,
}
use rollytics.InternalTx.{TransactionTrace}
use rollytics.InternalTx.Queue.{
  WorkItem, Blocks, Producer, waiting, pushing, InternalTxExtension, init, above, get_batch_heights,
  scrape_batch, push, Step, stores, produces, pushes, finishes, pops, consumes, Reach, here, next,
}
use rollytics.InternalTx.Queue.Left.{last_of-stored}
use rollytics.InternalTx.Queue.Heights.{
  between, IsAscending, between_self, between-store, between-batch, last_of-take,
}

abbrev pub heights : List WorkItem → List ℕ
heights = map (λ w. w.height)

abbrev pub consumed_heights : List (WorkItem × Bool) → List ℕ
consumed_heights = map (λ c. c.0.height)

abbrev pub consuming_heights : Option WorkItem → List ℕ
consuming_heights none = []
consuming_heights (some w) = w.height ∷ []

abbrev pub pending : Producer → List ℕ
pending waiting = []
pending (pushing items last) = heights items

-- How far the producer has come: the end of the batch that it pushes.
abbrev pub bound : ℕ → Producer → ℕ
bound last waiting = last
bound last (pushing items l) = l

abbrev pub in_hand : InternalTxExtension → List ℕ
in_hand i =
    consumed_heights i.consumed
    ++ (consuming_heights i.consuming ++ (heights i.work_queue ++ pending i.producer))

-- What holds between the steps of an extension that began above the height `from`.
pub record Inv (from max_size : ℕ) (i : InternalTxExtension) : Type 0 where
  pub order : in_hand i ≡ between from (bound i.last_produced_height i.producer) i.blocks
  pub ascending : IsAscending i.blocks
  pub above_from : from ≤ bound i.last_produced_height i.producer
  pub stored :
      (bound i.last_produced_height i.producer ≡ from)
      ⊎ ((h : ℕ) → All (λ b. b.0 < h) i.blocks → bound i.last_produced_height i.producer < h)
  pub bounded : length i.work_queue ≤ max_size

IsAscending-append :
    (blocks : Blocks) (b : ℕ × ℕ)
    → IsAscending blocks
    → All (λ c. c.0 < b.0) blocks
    → IsAscending (blocks ++ b ∷ [])
IsAscending-append [] b asc all = (tt, tt)
IsAscending-append (c ∷ blocks) b asc all = (
  All-append (λ d. c.0 < d.0) blocks (b ∷ []) asc.0 (all.0, tt),
  IsAscending-append blocks b asc.1 all.1,
)

heights-scrape_batch :
    (answers : ℕ → Option (List TransactionTrace)) (hs : List ℕ) (items : List WorkItem)
    → scrape_batch answers hs ≡ some items
    → heights items ≡ hs
unfolding scrape_batch
heights-scrape_batch answers [] items e = ground (arith, e)
heights-scrape_batch answers (h ∷ hs) items e = elim (Option-cases (answers h)) [
  | inl f ↦ absurd (ground (arith, e, f))
  | inr (t, f) ↦ elim (Option-cases (scrape_batch answers hs)) [
    | inl g ↦ absurd (ground (arith, e, f, g))
    | inr (rest, g) ↦ ground (arith, e, f, g, heights-scrape_batch answers hs rest g)
  ]
]

get_batch_heights-take :
    (batch_size max_size : ℕ) (i : InternalTxExtension) (h : ℕ) (hs : List ℕ)
    → get_batch_heights batch_size max_size i ≡ h ∷ hs
    → take (min batch_size (max_size - length i.work_queue)) (above i.last_produced_height i.blocks)
      ≡ h ∷ hs
unfolding get_batch_heights
get_batch_heights-take batch_size max_size i h hs e =
    elim (Bool-cases (leb (max_size - length i.work_queue) 0)) [
      | inl full ↦ absurd (ground (arith, e, full))
      | inr space ↦ rw space at e
    ]

module _ (from batch_size max_size : ℕ) where
  Step-Inv :
      {i j : InternalTxExtension}
      → Step batch_size max_size i j
      → Inv from max_size i
      → Inv from max_size j
  unfolding push
  Step-Inv (stores {i} height tx_count all) v = record {
    order =
        v.order
        ∙ sym (
            between-store from _ height tx_count i.blocks
              (elim v.stored [ inl e ↦ inl e | inr f ↦ inr (f height all) ]));
    ascending = IsAscending-append i.blocks (height, tx_count) v.ascending all;
    above_from = v.above_from;
    stored = elim v.stored [
      | inl e ↦ inl e
      | inr f ↦ inr (λ h a. f h (All-of_append (λ b. b.0 < h) i.blocks _ a).0)
    ];
    bounded = v.bounded;
  }
  Step-Inv (produces {i} answers h hs items w full batch made) v =
      let o = rw w at v.order in
      let n = min batch_size (max_size - length i.work_queue) in
      let taken = get_batch_heights-take batch_size max_size i h hs batch in
      let low = rw w at v.above_from in
      let grown = between-batch from i.last_produced_height n i.blocks h hs v.ascending low taken in
      record {
        order = rw grown (
            rw (← o) (
              rw (heights-scrape_batch answers (h ∷ hs) items made)
                (simp (append_assoc, append-nil))));
        ascending = v.ascending;
        above_from = omega (arith, last_of-take i.last_produced_height n i.blocks h hs taken);
        stored = inr (λ x all. last_of-stored i.last_produced_height n x i.blocks h hs taken all);
        bounded = v.bounded;
      }
  Step-Inv (pushes {i} item items last p room) v =
      let o = rw p at v.order in
      record {
        order = simp (map-append, append_assoc) o;
        ascending = v.ascending;
        above_from = rw p at v.above_from;
        stored = rw p at v.stored;
        bounded = omega (arith, length-append i.work_queue (item ∷ []));
      }
  Step-Inv (finishes {i} last p) v = record {
    order = rw p at v.order;
    ascending = v.ascending;
    above_from = rw p at v.above_from;
    stored = rw p at v.stored;
    bounded = v.bounded;
  }
  Step-Inv (pops {i} item rest c q) v = record {
    order = rw c at (rw q at v.order);
    ascending = v.ascending;
    above_from = v.above_from;
    stored = v.stored;
    bounded = let e = rw q at v.bounded in omega arith;
  }
  Step-Inv (consumes {i} item written c) v =
      let o = rw c at v.order in
      record {
        order = simp (map-append, append_assoc) o;
        ascending = v.ascending;
        above_from = v.above_from;
        stored = v.stored;
        bounded = v.bounded;
      }

  pub Reach-Inv :
      {i j : InternalTxExtension}
      → Inv from max_size i
      → Reach batch_size max_size i j
      → Inv from max_size j
  Reach-Inv v here = v
  Reach-Inv v (next r s) = Step-Inv s (Reach-Inv v r)

pub init-Inv :
    (from max_size : ℕ) (blocks : Blocks)
    → IsAscending blocks
    → Inv from max_size (init from blocks)
unfolding init
init-Inv from max_size blocks asc = record {
  order = sym (between_self from blocks);
  ascending = asc;
  above_from = omega arith;
  stored = inl refl;
  bounded = omega arith;
}

-- Under every interleaving of the producer, the consumer and the indexer, the heights consumed, in
-- the consumer's hand, queued and waiting to be pushed are, in this order, those of the stored
-- blocks with transactions above the initial height and up to the end of the producer's last batch,
-- ascending and each once; and the queue holds at most `max_size` items.
pub produced-in_order :
    (from batch_size max_size : ℕ) (blocks : Blocks) (i : InternalTxExtension)
    → IsAscending blocks
    → Reach batch_size max_size (init from blocks) i
    → (in_hand i ≡ between from (bound i.last_produced_height i.producer) i.blocks)
      × (length i.work_queue ≤ max_size)
produced-in_order from batch_size max_size blocks i asc r =
    let v = Reach-Inv from batch_size max_size (init-Inv from max_size blocks asc) r in
    (v.order, v.bounded)
