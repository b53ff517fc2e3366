-- ===== src/Scraper/SlowSync/Coverage.antt =====
-- indexer/scraper/sync.go: `slowSync` passes no height that it has not sent.
use rollytics.Prelude.{
  ℕ, ◌+◌, ◌≤◌, ◌<◌, ◌≡◌, refl, inl, inr, Bool, true, List, [], ◌∷◌, map, arith, All, Has,
  Has-append_left, Has-append_right, Bool-cases, dec_lt, upto, All-Has, Has-upto, count,
  count-append,
}
use rollytics.Scraper.SlowSync.{ScrapResult, sent_heights, round, slow_sync}
use rollytics.Scraper.SlowSync.Sorting.{update_height-passes, update_height-range}

-- The heights of a round in the order in which its goroutines end: the five from `height` on.
abbrev pub IsBatch : ℕ → List ℕ → Type 0
IsBatch height order =
    All (λ h. (height ≤ h) × (h < height + 5)) order × All (λ h. Has h order) (upto height 5)

abbrev results : (ℕ → Bool) → List ℕ → List ScrapResult
results scraped order = map (λ h. record { height = h; ok = scraped h }) order

All-results :
    (P : ScrapResult → Type 0) (scraped : ℕ → Bool) (order : List ℕ)
    → All (λ h. P (record { height = h; ok = scraped h })) order
    → All P (results scraped order)
All-results P scraped [] h = tt
All-results P scraped (k ∷ order) h = (h.0, All-results P scraped order h.1)

All-of-results :
    (P : ScrapResult → Type 0) (scraped : ℕ → Bool) (order : List ℕ)
    → All P (results scraped order)
    → All (λ h. P (record { height = h; ok = scraped h })) order
All-of-results P scraped [] h = tt
All-of-results P scraped (k ∷ order) h = (h.0, All-of-results P scraped order h.1)

Has-sent_heights :
    (scraped : ℕ → Bool) (order : List ℕ) (k : ℕ)
    → scraped k ≡ true
    → Has k order
    → Has k (sent_heights scraped order)
unfolding sent_heights
Has-sent_heights scraped [] k yes_k h = h
Has-sent_heights scraped (j ∷ order) k yes_k (inl e) = rw (← e) (rw yes_k (inl refl))
Has-sent_heights scraped (j ∷ order) k yes_k (inr h) = elim (Bool-cases (scraped j)) [
  | inl took ↦ rw took (inr (Has-sent_heights scraped order k yes_k h))
  | inr missed ↦ rw missed (Has-sent_heights scraped order k yes_k h)
]

round-covers :
    (scraped : ℕ → Bool) (order : List ℕ) (height : ℕ)
    → IsBatch height order
    → let (sent, next) = round scraped order height in
      (height ≤ next) × ((k : ℕ) → height ≤ k → k < next → Has k sent)
unfolding round
round-covers scraped order height (within, all) =
    let range =
      update_height-range height (results scraped order) (All-results _ scraped order within) in
    let passes =
      All-of-results _ scraped order (update_height-passes height (results scraped order)) in
    (
      range.0,
      λ k le lt.
          (let there : Has k order =
              All-Has (λ h. Has h order) (upto height 5) k all
                (Has-upto height 5 k le (omega (arith, range.1))) in
            elim (All-Has _ order k passes there) [
              | inl fine ↦ Has-sent_heights scraped order k fine there
              | inr above ↦ absurd (omega arith)
            ]),
    )

-- Every round scrapes the five heights from the current one on, in any order.
abbrev pub AreBatches : List ((ℕ → Bool) × List ℕ) → ℕ → Type 0
AreBatches [] height = Unit
AreBatches ((scraped, order) ∷ rounds) height =
    IsBatch height order × AreBatches rounds (round scraped order height).1

-- Slow syncing leaves no height out: after any rounds, whichever requests fail and in whatever
-- order they end, every height from the first one up to the current one has been sent to the
-- channel.
pub slow_sync-covers :
    (rounds : List ((ℕ → Bool) × List ℕ)) (height k : ℕ)
    → AreBatches rounds height
    → height ≤ k
    → k < (slow_sync rounds height).1
    → Has k (slow_sync rounds height).0
unfolding slow_sync
slow_sync-covers [] height k batches le lt = absurd (omega arith)
slow_sync-covers ((scraped, order) ∷ rounds) height k (batch, batches) le lt =
    let (sent, next) = round scraped order height in
    let (rises, covers) = round-covers scraped order height batch in
    elim (dec_lt k next) [
      | yes now ↦ Has-append_left k sent (slow_sync rounds next).0 (covers k le now)
      | no later ↦
          Has-append_right k sent (slow_sync rounds next).0
            (slow_sync-covers rounds next k batches (omega arith) lt)
    ]

sent_heights-above :
    (scraped : ℕ → Bool) (order : List ℕ) (height k : ℕ)
    → All (λ h. (height ≤ h) × (h < height + 5)) order
    → k < height
    → count k (sent_heights scraped order) ≡ 0
unfolding sent_heights count
sent_heights-above scraped [] height k within lt = refl
sent_heights-above scraped (h ∷ order) height k within lt =
    ground (arith, within.0.0, sent_heights-above scraped order height k within.1 lt)

round-above :
    (scraped : ℕ → Bool) (order : List ℕ) (height k : ℕ)
    → All (λ h. (height ≤ h) × (h < height + 5)) order
    → k < height
    → count k (round scraped order height).0 ≡ 0
unfolding round
round-above = sent_heights-above

-- Nothing below the first height is sent.
pub slow_sync-above :
    (rounds : List ((ℕ → Bool) × List ℕ)) (height k : ℕ)
    → AreBatches rounds height
    → k < height
    → count k (slow_sync rounds height).0 ≡ 0
unfolding slow_sync count
slow_sync-above [] height k batches lt = refl
slow_sync-above ((scraped, order) ∷ rounds) height k (batch, batches) lt =
    let (sent, next) = round scraped order height in
    let (rises, _) = round-covers scraped order height batch in
    omega (
      arith,
      count-append k sent (slow_sync rounds next).0,
      slow_sync-above rounds next k batches (omega arith),
      round-above scraped order height k batch.0 lt,
    )
