-- ===== src/InternalTx/Queue/Progress.antt =====
-- indexer/extension/internaltx/extension.go: the extension can always catch up with the blocks.
use mathlib.Core.List.{append-nil}
use rollytics.Prelude.{
  ℕ, zero, suc, ◌-◌, ◌<◌, ◌≤◌, ◌≡◌, refl, sym, ap, ◌∙◌, ◌⊎◌, inl, inr, false, List, [], ◌∷◌, min,
  Option, some, arith, length, take, leb, lt→ltb,
}
use rollytics.InternalTx.{TransactionTrace}
use rollytics.InternalTx.Queue.{
  WorkItem, Blocks, Producer, waiting, pushing, InternalTxExtension, init, is_not_full, above,
  get_batch_heights, scrape_batch, last_of, produces, Reach, here, next,
}
use rollytics.InternalTx.Queue.Heights.{IsAscending}
use rollytics.InternalTx.Queue.Left.{between-above, above-lt}
use rollytics.InternalTx.Queue.Order.{consumed_heights, Reach-Inv, init-Inv}
use rollytics.InternalTx.Queue.Drained.{IsDrained, Run, trans, Waits, drain, push_all}

module _ (batch_size max_size : ℕ) where
  -- A node that answers every request.
  abbrev answer : ℕ → Option (List TransactionTrace)
  answer height = some []

  scraped : (hs : List ℕ) → (items : List WorkItem) × (scrape_batch answer hs ≡ some items)
  unfolding scrape_batch
  scraped [] = ([], refl)
  scraped (h ∷ hs) =
      let (items, e) = scraped hs in (record { height = h; call_trace = [] } ∷ items, rw e refl)

  take_pos : (n h : ℕ) (hs : List ℕ) → 0 < n → take n (h ∷ hs) ≡ h ∷ take (n - 1) hs
  take_pos zero h hs p = absurd (omega arith)
  take_pos (suc n) h hs p = ap (λ k. h ∷ take k hs) (omega arith)

  batch_heights :
      (i : InternalTxExtension) (h : ℕ) (hs : List ℕ)
      → 0 < batch_size
      → 0 < max_size
      → i.work_queue ≡ []
      → above i.last_produced_height i.blocks ≡ h ∷ hs
      → get_batch_heights batch_size max_size i ≡ h ∷ take (min batch_size max_size - 1) hs
  unfolding get_batch_heights
  batch_heights i h hs b m q e =
      let same : max_size - 0 ≡ max_size = omega arith in
      let space : leb max_size 0 ≡ false = ground arith in
      rw q (rw same (rw space (rw e (take_pos (min batch_size max_size) h hs (omega arith)))))

  -- The end of the producer's rounds.
  record CaughtUp (i : InternalTxExtension) : Type 0 where
    after : InternalTxExtension
    run : Run batch_size max_size i after
    drained : IsDrained after
    producer : after.producer ≡ waiting
    blocks : after.blocks ≡ i.blocks
    left : above after.last_produced_height after.blocks ≡ []

  -- One round: a batch is scraped and pushed, and fewer heights are left.
  round :
      (i : InternalTxExtension) (h : ℕ) (hs : List ℕ)
      → 0 < batch_size
      → 0 < max_size
      → i.producer ≡ waiting
      → IsDrained i
      → above i.last_produced_height i.blocks ≡ h ∷ hs
      → (l : ℕ) × Waits batch_size max_size i l
        × (length (above l i.blocks) < length (above i.last_produced_height i.blocks))
  unfolding is_not_full
  round i h hs b m w d e =
      let ks = take (min batch_size max_size - 1) hs in
      let (items, made) = scraped (h ∷ ks) in
      let j : InternalTxExtension = record i { producer = pushing items (last_of h ks) } in
      let p =
        push_all batch_size max_size items (last_of h ks) j m refl
          (record { queue = d.queue; free = d.free }) in
      (
        last_of h ks,
        record {
          after = p.after;
          run =
              trans batch_size max_size
                (next here (
                  produces answer h ks items w (rw d.queue (lt→ltb 0 max_size m))
                    (batch_heights i h hs b m d.queue e) made))
                p.run;
          drained = p.drained;
          producer = p.producer;
          last = p.last;
          blocks = p.blocks;
        },
        above-lt i.last_produced_height (min batch_size max_size) i.blocks h ks
            (rw e (take_pos (min batch_size max_size) h hs (omega arith))),
      )

  -- The producer's rounds, as many as heights are left.
  catch_up :
      (fuel : ℕ) (xs : List ℕ) (i : InternalTxExtension)
      → 0 < batch_size
      → 0 < max_size
      → above i.last_produced_height i.blocks ≡ xs
      → length xs ≤ fuel
      → i.producer ≡ waiting
      → IsDrained i
      → CaughtUp i
  catch_up fuel [] i b m e le w d = record {
    after = i;
    run = here;
    drained = d;
    producer = w;
    blocks = refl;
    left = e;
  }
  catch_up zero (h ∷ hs) i b m e le w d = absurd (omega arith)
  catch_up (suc fuel) (h ∷ hs) i b m e le w d =
      let (l, p, fewer) = round i h hs b m w d e in
      let same : above p.after.last_produced_height p.after.blocks ≡ above l i.blocks =
        rw p.last (rw p.blocks refl) in
      let c =
        catch_up fuel (above l i.blocks) p.after b m same (omega (arith, ap length e)) p.producer
          p.drained in
      record {
        after = c.after;
        run = trans batch_size max_size p.run c.run;
        drained = c.drained;
        producer = c.producer;
        blocks = c.blocks ∙ p.blocks;
        left = c.left;
      }

  producer-cases :
      (p : Producer) → (p ≡ waiting) ⊎ ((items : List WorkItem) × (l : ℕ) × (p ≡ pushing items l))
  producer-cases waiting = inl refl
  producer-cases (pushing items l) = inr (items, l, refl)

  -- From every state.
  catch_up_any : (i : InternalTxExtension) → 0 < batch_size → 0 < max_size → CaughtUp i
  catch_up_any i b m =
      let d = drain batch_size max_size i in
      elim (producer-cases i.producer) [
        | inl w ↦ from_waiting i d.after b m d.run d.blocks d.drained (d.producer ∙ w)
        | inr (items, l, p) ↦
            let q = push_all batch_size max_size items l d.after m (d.producer ∙ p) d.drained in
            from_waiting i q.after b m (trans batch_size max_size d.run q.run) (q.blocks ∙ d.blocks)
              q.drained q.producer
      ]
    where
      from_waiting :
          (i j : InternalTxExtension)
          → 0 < batch_size
          → 0 < max_size
          → Run batch_size max_size i j
          → j.blocks ≡ i.blocks
          → IsDrained j
          → j.producer ≡ waiting
          → CaughtUp i
      from_waiting i j b m r same d w =
          let c =
            catch_up (length (above j.last_produced_height j.blocks)) _ j b m refl (omega arith) w
              d in
          record {
            after = c.after;
            run = trans batch_size max_size r c.run;
            drained = c.drained;
            producer = c.producer;
            blocks = c.blocks ∙ same;
            left = c.left;
          }

-- With a batch and a queue of at least one item, from every state that the extension reaches there
-- is a run, without new blocks, after which exactly the stored blocks with transactions above the
-- initial height have been consumed, in ascending order and each once.
pub catches_up :
    (from batch_size max_size : ℕ) (blocks : Blocks) (i : InternalTxExtension)
    → 0 < batch_size
    → 0 < max_size
    → IsAscending blocks
    → Reach batch_size max_size (init from blocks) i
    → (j : InternalTxExtension) × Reach batch_size max_size i j
      × (j.blocks ≡ i.blocks)
      × (consumed_heights j.consumed ≡ above from i.blocks)
catches_up from batch_size max_size blocks i b m asc r =
    let c = catch_up_any batch_size max_size i b m in
    let v =
      Reach-Inv from batch_size max_size
        (Reach-Inv from batch_size max_size (init-Inv from max_size blocks asc) r) c.run in
    let o = rw c.producer at (rw c.drained.free at (rw c.drained.queue at v.order)) in
    let low = rw c.producer at v.above_from in
    (
      c.after,
      c.run,
      c.blocks,
      sym (append-nil (consumed_heights c.after.consumed))
          ∙ o
          ∙ between-above from c.after.last_produced_height c.after.blocks low c.left
          ∙ ap (above from) c.blocks,
    )
