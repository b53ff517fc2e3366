-- ===== src/Scraper/FastSync/Coverage.antt =====
-- indexer/scraper/sync.go: which heights `fastSync` has sent when it returns, and which ones
-- neither it nor `slowSync` ever sends.
use rollytics.Prelude.{
  ℕ, zero, suc, ◌+◌, ◌≤◌, ◌<◌, ◌≡◌, refl, ◌⊎◌, inl, inr, Bool, List, [], ◌∷◌, ◌++◌, some, arith,
  ltb, leb, ◌==◌, if◌then◌else◌, ◌&&◌, get_elem?, count, count-append, count-snoc, dec_lt,
}
use rollytics.Indexer.Pipeline.{remove_at}
use rollytics.Scraper.FastSync.{
  FastSync, init, spawn, scraped, reached_latest, Step, signals, stores, tests, stops, spawns,
  scrapes, reaches_latest, Reach, here, next, Returned,
}
use rollytics.Scraper.SlowSync.{slow_sync}
use rollytics.Scraper.SlowSync.Coverage.{AreBatches, slow_sync-above}

count-remove_at :
    (h i a : ℕ) (xs : List ℕ)
    → get_elem? xs i ≡ some a
    → count h (remove_at i xs) + (if a == h then 1 else 0) ≡ count h xs
unfolding count remove_at
count-remove_at h i a [] e = cc
count-remove_at h zero a (x ∷ xs) e = ground arith
count-remove_at h (suc i) a (x ∷ xs) e = ground (arith, count-remove_at h i a xs e)

-- Between the steps: each height from `from` on that has been started stands in one of the three
-- lists, once, and every height sent is at most `synced_height`.
record Inv (from : ℕ) (s : FastSync) : Type 0 where
  begun : from ≤ s.height
  once :
      (h : ℕ)
      → count h s.sent + count h s.in_flight + count h s.missed
        ≡ (if leb from h && ltb h s.height then 1 else 0)
  synced : (h : ℕ) → s.synced_height < h → count h s.sent ≡ 0

spawn-Inv : {from : ℕ} (s : FastSync) → Inv from s → Inv from (spawn s)
unfolding spawn
spawn-Inv {from} s v = record {
  begun = omega (arith, v.begun);
  once = λ h. ground (arith, v.once h, v.begun, count-snoc h s.height s.in_flight);
  synced = v.synced;
}

scraped-Inv :
    {from : ℕ} (s : FastSync) (i a : ℕ)
    → get_elem? s.in_flight i ≡ some a
    → Inv from s
    → Inv from (scraped i a s)
unfolding scraped
scraped-Inv s i a e v = record {
  begun = v.begun;
  once = λ h. ground (arith, v.once h, count-snoc h a s.sent, count-remove_at h i a s.in_flight e);
  synced = λ h lt. ground (arith, v.synced h, count-snoc h a s.sent);
}

reached_latest-Inv :
    {from : ℕ} (s : FastSync) (i a : ℕ)
    → get_elem? s.in_flight i ≡ some a
    → Inv from s
    → Inv from (reached_latest i a s)
unfolding reached_latest
reached_latest-Inv s i a e v = record {
  begun = v.begun;
  once =
      λ h. ground (arith, v.once h, count-snoc h a s.missed, count-remove_at h i a s.in_flight e);
  synced = v.synced;
}

Step-Inv : {max_conc from : ℕ} {s t : FastSync} → Step max_conc s t → Inv from s → Inv from t
Step-Inv (stores x p) v = record { begun = v.begun; once = v.once; synced = v.synced }
Step-Inv (signals m p) v = record { begun = v.begun; once = v.once; synced = v.synced }
Step-Inv (tests p q) v = record { begun = v.begun; once = v.once; synced = v.synced }
Step-Inv (stops p q) v = record { begun = v.begun; once = v.once; synced = v.synced }
Step-Inv (spawns {s} p q) v = spawn-Inv s v
Step-Inv (scrapes {s} i h e) v = scraped-Inv s i h e v
Step-Inv (reaches_latest {s} i h e) v = reached_latest-Inv s i h e v

init-Inv : (from : ℕ) → Inv from (init from)
unfolding init count
init-Inv from = record { begun = omega arith; once = λ h. ground arith; synced = λ h lt. refl }

Reach-Inv : {max_conc from : ℕ} {s : FastSync} → Reach max_conc (init from) s → Inv from s
Reach-Inv {from = from} here = init-Inv from
Reach-Inv (next r st) = Step-Inv st (Reach-Inv r)

-- When fast syncing returns, however its goroutines interleave, each height from the first one up
-- to the last one started has either been sent, once, or met the chain's end, once; no other
-- height has been sent, and none above the height that is returned.
pub fast_sync-covers :
    {max_conc : ℕ} {s : FastSync} (from h : ℕ)
    → Reach max_conc (init from) s
    → Returned s
    → (count h s.sent + count h s.missed ≡ (if leb from h && ltb h s.height then 1 else 0))
      × ((h ≤ s.synced_height) ⊎ (count h s.sent ≡ 0))
fast_sync-covers {s = s} from h r (_, over) =
    let v = Reach-Inv r in
    let idle : count h s.in_flight ≡ 0 = rw over (unfold count in refl) in
    (
      omega (arith, v.once h, idle),
      elim (dec_lt s.synced_height h) [
        | yes above ↦ inr (v.synced h above)
        | no within ↦ inl (omega arith)
      ],
    )

-- A block can be lost between the two ways of syncing. When a goroutine of fast syncing meets the
-- chain's end at the height `h` while another one sends the block of a greater height, slow
-- syncing begins above `h`: neither of them ever sends the block of `h`.
pub fast_sync-loses :
    {max_conc : ℕ} {s : FastSync} (from h above : ℕ) (rounds : List ((ℕ → Bool) × List ℕ))
    → Reach max_conc (init from) s
    → Returned s
    → 0 < count h s.missed
    → h < above
    → 0 < count above s.sent
    → AreBatches rounds (s.synced_height + 1)
    → count h (s.sent ++ (slow_sync rounds (s.synced_height + 1)).0) ≡ 0
fast_sync-loses {s = s} from h above rounds r returned missed lt sent batches =
    let here = fast_sync-covers from h r returned in
    let there = fast_sync-covers from above r returned in
    ground (
      arith,
      here.0,
      there.1,
      count-append h s.sent (slow_sync rounds (s.synced_height + 1)).0,
      slow_sync-above rounds (s.synced_height + 1) h batches,
    )
