-- ===== src/Indexer/Pipeline/Order.antt =====
-- indexer/indexer.go: blocks are collected in the order of their heights, each once.
use mathlib.Core.List.{map-append}
use rollytics.Prelude.{
  ℕ, zero, suc, ◌+◌, ◌≡◌, refl, sym, ap, ◌∙◌, inl, inr, List, [], ◌∷◌, ◌++◌, map, some, arith,
  length, ℕ_discrete, get_elem?, upto, upto-suc, length-append, Bool-cases, subst, ltb,
}
use rollytics.Prelude.GoMap.{get, put, delete, get-put, get-delete}
use rollytics.Types.{ScrapedBlock}
use rollytics.Indexer.Pipeline.{
  Indexer, init, remove_at, receive, prepared, decrement_prepare_count, control, take_block, finish,
  Step, scrape, receives, prepares, cancels, takes, finishes, Reach, here, next,
}

abbrev pub heights : List ScrapedBlock → List ℕ
heights = map (λ b. b.height)

-- What holds between the steps of an indexer that began at the height `from`.
pub record Inv (from : ℕ) (s : Indexer) : Type 0 where
  pub done : s.height ≡ from + length s.collected
  pub in_order : heights s.collected ≡ upto from (length s.collected)
  pub counted : s.prepare_count ≡ length s.preparing
  pub keyed : (h : ℕ) (b : ScrapedBlock) → get ℕ_discrete h s.block_map ≡ some b → b.height ≡ h
  pub current : (b : ScrapedBlock) → s.collecting ≡ some b → b.height ≡ s.height

init-Inv : (from : ℕ) → Inv from (init from)
unfolding init get
init-Inv from = record {
  done = omega arith;
  in_order = refl;
  counted = refl;
  keyed = λ h b e. cc;
  current = λ b e. cc;
}

length-remove_at {ℓ} :
    {A : Type ℓ} (i : ℕ) (xs : List A) (a : A)
    → get_elem? xs i ≡ some a
    → suc (length (remove_at i xs)) ≡ length xs
unfolding remove_at
length-remove_at i [] a h = cc
length-remove_at zero (x ∷ xs) a h = refl
length-remove_at (suc i) (x ∷ xs) a h = ap suc (length-remove_at i xs a h)

keyed-put :
    (m : List (ℕ × ScrapedBlock)) (b : ScrapedBlock)
    → ((h : ℕ) (c : ScrapedBlock) → get ℕ_discrete h m ≡ some c → c.height ≡ h)
    → (h : ℕ) (c : ScrapedBlock) → get ℕ_discrete h (put ℕ_discrete b.height b m) ≡ some c
    → c.height ≡ h
keyed-put m b keyed h c e = ground (arith, get-put ℕ_discrete b.height h b m, keyed h c)

keyed-delete :
    (m : List (ℕ × ScrapedBlock)) (k : ℕ)
    → ((h : ℕ) (c : ScrapedBlock) → get ℕ_discrete h m ≡ some c → c.height ≡ h)
    → (h : ℕ) (c : ScrapedBlock) → get ℕ_discrete h (delete ℕ_discrete k m) ≡ some c
    → c.height ≡ h
keyed-delete m k keyed h c e = ground (arith, get-delete ℕ_discrete k h m, keyed h c)

-- `control` changes only `paused` and the record of the signals.
control-fields :
    (s : Indexer)
    → ((control s).height ≡ s.height)
      × ((control s).block_map ≡ s.block_map)
      × ((control s).collected ≡ s.collected)
      × ((control s).prepare_count ≡ s.prepare_count)
      × ((control s).preparing ≡ s.preparing)
unfolding control
control-fields s = ground arith

receive-Inv :
    {from : ℕ} {s : Indexer} (b : ScrapedBlock) (rest : List ScrapedBlock)
    → Inv from s
    → Inv from (receive b rest s)
unfolding receive
receive-Inv {s = s} b rest v = elim (Bool-cases (ltb b.height s.height)) [
  | inl old ↦
      rw (old, receive)
        (record {
          done = v.done;
          in_order = v.in_order;
          counted = v.counted;
          keyed = v.keyed;
          current = v.current;
        })
  | inr new ↦
      rw (new, receive)
        (record {
          done = v.done;
          in_order = v.in_order;
          counted = omega (arith, length-append s.preparing (b ∷ []));
          keyed = v.keyed;
          current = v.current;
        })
]

take_block-Inv : {from : ℕ} {s : Indexer} → Inv from s → Inv from (take_block s)
unfolding take_block
take_block-Inv {from} {s} v =
    let (height, block_map, collected, prepare_count, preparing) = control-fields s in
    record {
      done = height ∙ v.done ∙ ap (λ l. from + length l) (sym collected);
      in_order = subst (λ l. heights l ≡ upto from (length l)) (sym collected) v.in_order;
      counted = prepare_count ∙ v.counted ∙ ap length (sym preparing);
      keyed = keyed-delete (control s).block_map (control s).height keyed';
      current = λ b e. keyed' (control s).height b e;
    }
  where
    keyed' :
        (h : ℕ) (b : ScrapedBlock) → get ℕ_discrete h (control s).block_map ≡ some b → b.height ≡ h
    keyed' =
        subst (λ m. (h : ℕ) (b : ScrapedBlock) → get ℕ_discrete h m ≡ some b → b.height ≡ h)
          (sym (control-fields s).1) v.keyed

finish-Inv :
    {from : ℕ} {s : Indexer} (b : ScrapedBlock)
    → s.collecting ≡ some b
    → Inv from s
    → Inv from (finish b s)
unfolding finish
finish-Inv {from} {s} b e v =
    let one : length (s.collected ++ b ∷ []) ≡ suc (length s.collected) =
      omega (arith, length-append s.collected (b ∷ [])) in
    record {
      done = omega (arith, v.done);
      in_order =
          map-append (λ c. c.height) s.collected (b ∷ [])
          ∙ ap (λ l. l ++ b.height ∷ []) v.in_order
          ∙ ap (λ h. upto from (length s.collected) ++ h ∷ []) (v.current b e ∙ v.done)
          ∙ sym (upto-suc from (length s.collected))
          ∙ ap (upto from) (sym one);
      counted = v.counted;
      keyed = v.keyed;
      current = λ c q. cc;
    }

Step-Inv : {from : ℕ} {s t : Indexer} → Step s t → Inv from s → Inv from t
unfolding prepared decrement_prepare_count
Step-Inv (scrape b room) v = record {
  done = v.done;
  in_order = v.in_order;
  counted = v.counted;
  keyed = v.keyed;
  current = v.current;
}
Step-Inv (receives b rest e) v = receive-Inv b rest v
Step-Inv (prepares {s} i b e) v = record {
  done = v.done;
  in_order = v.in_order;
  counted = omega (arith, v.counted, length-remove_at i s.preparing b e);
  keyed = keyed-put s.block_map b v.keyed;
  current = v.current;
}
Step-Inv (cancels {s} i b e) v = record {
  done = v.done;
  in_order = v.in_order;
  counted = omega (arith, v.counted, length-remove_at i s.preparing b e);
  keyed = v.keyed;
  current = v.current;
}
Step-Inv (takes e) v = take_block-Inv v
Step-Inv (finishes b e) v = finish-Inv b e v

Reach-Inv : {from : ℕ} {s t : Indexer} → Inv from s → Reach s t → Inv from t
Reach-Inv v here = v
Reach-Inv v (next r st) = Step-Inv st (Reach-Inv v r)

-- However the goroutines interleave, and whatever the scraper sends, in whatever order and how
-- often, the blocks that are collected have the heights `from`, `from + 1`, … in order, with none
-- left out and none twice; and the count of running prepares is the number of them.
pub collected-in_order :
    (from : ℕ) {s : Indexer}
    → Reach (init from) s
    → (heights s.collected ≡ upto from (length s.collected))
      × (s.height ≡ from + length s.collected)
      × (s.prepare_count ≡ length s.preparing)
collected-in_order from r = let v = Reach-Inv (init-Inv from) r in (v.in_order, v.done, v.counted)
