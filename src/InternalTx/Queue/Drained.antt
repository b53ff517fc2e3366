-- ===== src/InternalTx/Queue/Drained.antt =====
-- indexer/extension/internaltx/extension.go: an empty queue can be reached, and a batch pushed.
use rollytics.Prelude.{
  ℕ, ◌<◌, ◌≡◌, refl, ◌∙◌, inl, inr, true, List, [], ◌∷◌, ◌++◌, none, some, Option-cases,
}
use rollytics.InternalTx.Queue.{
  WorkItem, WorkQueue, waiting, pushing, InternalTxExtension, push, pushes, finishes, pops,
  consumes, Reach, here, next,
}

-- An empty queue and a free consumer.
pub record IsDrained (i : InternalTxExtension) : Type 0 where
  pub queue : i.work_queue ≡ []
  pub free : i.consuming ≡ none

module _ (batch_size max_size : ℕ) where
  abbrev pub Run : InternalTxExtension → InternalTxExtension → Type 0
  Run = Reach batch_size max_size

  pub trans : {i j k : InternalTxExtension} → Run i j → Run j k → Run i k
  trans r here = r
  trans r (next q s) = next (trans r q) s

  -- A state that a run ends in, with the producer and the blocks that there were.
  pub record Drains (i : InternalTxExtension) : Type 0 where
    pub after : InternalTxExtension
    pub run : Run i after
    pub drained : IsDrained after
    pub producer : after.producer ≡ i.producer
    pub last : after.last_produced_height ≡ i.last_produced_height
    pub blocks : after.blocks ≡ i.blocks

  drain_queue :
      (q : WorkQueue) (i : InternalTxExtension) → i.work_queue ≡ q → i.consuming ≡ none → Drains i
  drain_queue [] i e f = record {
    after = i;
    run = here;
    drained = record { queue = e; free = f };
    producer = refl;
    last = refl;
    blocks = refl;
  }
  drain_queue (w ∷ q) i e f =
      let j : InternalTxExtension = record i { consuming = some w; work_queue = q } in
      let k : InternalTxExtension = record j {
        consuming = none;
        consumed = j.consumed ++ (w, true) ∷ [];
      } in
      let d = drain_queue q k refl refl in
      record {
        after = d.after;
        run = trans (next (next here (pops w q f e)) (consumes w true refl)) d.run;
        drained = d.drained;
        producer = d.producer;
        last = d.last;
        blocks = d.blocks;
      }

  pub drain : (i : InternalTxExtension) → Drains i
  drain i = elim (Option-cases i.consuming) [
    | inl free ↦ drain_queue i.work_queue i refl free
    | inr (w, busy) ↦
        let k : InternalTxExtension = record i {
          consuming = none;
          consumed = i.consumed ++ (w, true) ∷ [];
        } in
        let d = drain_queue i.work_queue k refl refl in
        record {
          after = d.after;
          run = trans (next here (consumes w true busy)) d.run;
          drained = d.drained;
          producer = d.producer;
          last = d.last;
          blocks = d.blocks;
        }
  ]

  -- A state with the batch pushed, and with the producer waiting again.
  pub record Waits (i : InternalTxExtension) (l : ℕ) : Type 0 where
    pub after : InternalTxExtension
    pub run : Run i after
    pub drained : IsDrained after
    pub producer : after.producer ≡ waiting
    pub last : after.last_produced_height ≡ l
    pub blocks : after.blocks ≡ i.blocks

  pub push_all :
      (items : List WorkItem) (l : ℕ) (i : InternalTxExtension)
      → 0 < max_size
      → i.producer ≡ pushing items l
      → IsDrained i
      → Waits i l
  unfolding push
  push_all [] l i room p d = record {
    after = record i { producer = waiting; last_produced_height = l };
    run = next here (finishes l p);
    drained = record { queue = d.queue; free = d.free };
    producer = refl;
    last = refl;
    blocks = refl;
  }
  push_all (item ∷ items) l i room p d =
      let j : InternalTxExtension = record (push item i) { producer = pushing items l } in
      let e = drain j in
      let w = push_all items l e.after room e.producer e.drained in
      record {
        after = w.after;
        run = trans (next here (pushes item items l p (rw d.queue room))) (trans e.run w.run);
        drained = w.drained;
        producer = w.producer;
        last = w.last;
        blocks = w.blocks ∙ e.blocks;
      }
