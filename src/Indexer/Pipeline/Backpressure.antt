-- ===== src/Indexer/Pipeline/Backpressure.antt =====
-- indexer/indexer.go: the signals to the scraper, and the entries of the block map that stay.
use rollytics.Prelude.{
  ℕ, ◌+◌, ◌<◌, ◌≡◌, ◌≢◌, refl, sym, ap, ◌∙◌, subst, Bool, true, false, List, [], ◌∷◌, ◌++◌, some,
  arith, length, ℕ_discrete, ltb, if◌then◌else◌, Bool-cases, inl, inr, not, ◌&&◌,
}
use rollytics.Prelude.GoMap.{get, get-put, get-put_ne, get-delete_ne}
use rollytics.Types.{ScrapedBlock}
use rollytics.Indexer.Pipeline.{
  max_inflight_blocks, min_inflight_blocks, Signal, pause, start, Indexer, init, receive, prepared,
  decrement_prepare_count, control, take_block, finish, Step, scrape, receives, prepares, cancels,
  takes, finishes, Reach, here, next,
}

-- A sequence of signals that turns the state `p` into `q`, each of them a change.
abbrev pub Alternates : Bool → List Signal → Bool → Type 0
Alternates p [] q = p ≡ q
Alternates p (pause ∷ l) q = (p ≡ false) × Alternates true l q
Alternates p (start ∷ l) q = (p ≡ true) × Alternates false l q

Alternates-pause :
    (p : Bool) (l : List Signal) → Alternates p l false → Alternates p (l ++ pause ∷ []) true
Alternates-pause p [] h = (h, refl)
Alternates-pause p (pause ∷ l) h = (h.0, Alternates-pause true l h.1)
Alternates-pause p (start ∷ l) h = (h.0, Alternates-pause false l h.1)

Alternates-start :
    (p : Bool) (l : List Signal) → Alternates p l true → Alternates p (l ++ start ∷ []) false
Alternates-start p [] h = (h, refl)
Alternates-start p (pause ∷ l) h = (h.0, Alternates-start true l h.1)
Alternates-start p (start ∷ l) h = (h.0, Alternates-start false l h.1)

control-Alternates :
    (s : Indexer)
    → Alternates false s.signals s.paused
    → Alternates false (control s).signals (control s).paused
unfolding control
control-Alternates s h =
    elim (Bool-cases
      (ltb max_inflight_blocks (length s.block_map + s.prepare_count) && not s.paused)) [
        | inl full ↦
            let running : s.paused ≡ false = ground arith in
            rw full (Alternates-pause false s.signals (rw running at h))
        | inr not_full ↦
            rw not_full
              (elim (Bool-cases
                (ltb (length s.block_map + s.prepare_count) min_inflight_blocks && s.paused)) [
                  | inl low ↦
                      let waiting : s.paused ≡ true = ground arith in
                      rw low (Alternates-start false s.signals (rw waiting at h))
                  | inr same ↦ rw same h
                ])
      ]

receive-signals :
    (b : ScrapedBlock) (rest : List ScrapedBlock) (s : Indexer)
    → ((receive b rest s).signals ≡ s.signals) × ((receive b rest s).paused ≡ s.paused)
unfolding receive
receive-signals b rest s = ground arith

Step-Alternates :
    {s t : Indexer}
    → Step s t
    → Alternates false s.signals s.paused
    → Alternates false t.signals t.paused
unfolding prepared decrement_prepare_count take_block finish
Step-Alternates (scrape b room) h = h
Step-Alternates (receives {s} b rest e) h =
    let (signals, paused) = receive-signals b rest s in
    subst (λ l. Alternates false l (receive b rest s).paused) (sym signals)
      (subst (Alternates false s.signals) (sym paused) h)
Step-Alternates (prepares i b e) h = h
Step-Alternates (cancels i b e) h = h
Step-Alternates (takes {s} e) h = control-Alternates s h
Step-Alternates (finishes b e) h = h

-- In every reachable state the signals sent to the scraper alternate, beginning with a pause, and
-- the last of them agrees with `paused`.
pub signals-Alternates :
    (from : ℕ) {s : Indexer} → Reach (init from) s → Alternates false s.signals s.paused
unfolding init
signals-Alternates from here = refl
signals-Alternates from (next r st) = Step-Alternates st (signals-Alternates from r)

-- One pass of `collect()` pauses the scraper above 100 blocks in flight, lets it go on below 50,
-- and between them leaves it as it is; it sends a signal exactly when this is a change.
pub take_block-paused :
    (s : Indexer)
    → let inflight = length s.block_map + s.prepare_count in
      let paused =
        (if ltb 100 inflight then true else if ltb inflight 50 then false else s.paused) in
      ((take_block s).paused ≡ paused)
      × ((take_block s).signals ≡ (
          if s.paused
          then (if paused then s.signals else s.signals ++ start ∷ [])
          else if paused
          then s.signals ++ pause ∷ []
          else s.signals))
unfolding take_block control
take_block-paused s = ground arith

-- The map holds a block below the height that is to be collected.
abbrev pub HasStale : ℕ → Indexer → Type 0
HasStale h s = (h < s.height) × ((b : ScrapedBlock) × (get ℕ_discrete h s.block_map ≡ some b))

control-height-map :
    (s : Indexer) → ((control s).height ≡ s.height) × ((control s).block_map ≡ s.block_map)
unfolding control
control-height-map s = ground arith

Step-HasStale : (h : ℕ) {s t : Indexer} → Step s t → HasStale h s → HasStale h t
unfolding prepared decrement_prepare_count take_block finish receive
Step-HasStale h (scrape b room) stale = stale
Step-HasStale h (receives {s} b rest e) stale = elim (Bool-cases (ltb b.height s.height)) [
  | inl old ↦ rw (old, receive) stale
  | inr new ↦ rw (new, receive) stale
]
Step-HasStale h (prepares {s} i b e) (lt, (c, at)) = elim (ℕ_discrete b.height h) [
  | yes same ↦ (lt, (b, ground (arith, get-put ℕ_discrete b.height h b s.block_map)))
  | no other ↦ (lt, (c, get-put_ne ℕ_discrete b.height h b s.block_map other ∙ at))
]
Step-HasStale h (cancels i b e) stale = stale
Step-HasStale h (takes {s} e) (lt, (c, at)) =
    let (height, block_map) = control-height-map s in
    let other : (control s).height ≢ h = λ q. absurd (omega arith) in
    (
      omega arith,
      (
        c,
        get-delete_ne ℕ_discrete (control s).height h (control s).block_map other
            ∙ ap (get ℕ_discrete h) block_map
            ∙ at,
      ),
    )
Step-HasStale h (finishes b e) (lt, held) = (omega arith, held)

-- Where the map holds a block for a height that has been passed, it holds one for that height in
-- every later state, whatever the goroutines do.
pub Reach-HasStale : (h : ℕ) {s t : Indexer} → HasStale h s → Reach s t → HasStale h t
Reach-HasStale h stale here = stale
Reach-HasStale h stale (next r st) = Step-HasStale h st (Reach-HasStale h stale r)
