-- ===== src/Dictionary/Canonical.antt =====
-- util/cache/cache.go: for items that are written as the table writes them, the dictionaries of
-- accounts and of tokens are those of message types, over a table of converted rows.
use mathlib.Core.Option
use rollytics.Prelude.{
  ℕ, ◌≡◌, refl, ap, inl, inr, Bool, true, false, List, [], ◌∷◌, map, Option, none, some, ◌>>=◌, All,
  Option-cases,
}
use rollytics.Prelude.GoMap.{get, put}
use rollytics.Dictionary.{
  Cache, Table, check_cache, add_entries, new_entries, set_cache, create_entries, create_ids,
  finish_ids, fetch_ids, uncached_ids, get_or_create_ids,
}
use rollytics.Dictionary.Maps.{All-new_entries}
use rollytics.Dictionary.Normal.{
  Items, all_bytes, new_bytes, check_normal, update_normal, fetch_from_db, create_bytes, create_new,
  finish_normal, fetch_normal, uncached_normal, get_or_create_normal,
}

-- The text of an item is its own normal form, and the one that its bytes give.
pub record IsCanonical {K B : Type 0} (items : Items K B) (k : K) : Type 0 where
  pub normal : items.normalize k ≡ some k
  pub bytes : B
  pub to : items.to_bytes k ≡ some bytes
  pub back : items.of_bytes bytes ≡ k

module _ {K B : Type 0} (dec : Discrete K) (items : Items K B) where
  abbrev self : K → K
  self k = k

  abbrev written : List (B × ℕ) → List (K × ℕ)
  written = map (λ e. (items.of_bytes e.0, e.1))

  -- The table, asked for items and not for their bytes.
  abbrev pub via : {D : Type 0} → Table B D → Table K D
  via db = record {
    find = λ d ks. (do bs ← all_bytes items ks; es ← db.find d bs; some (written es));
    create = λ d ks. (do bs ← all_bytes items ks; (es, d') ← db.create d bs; some (written es, d'));
  }

  bytes_list : (ks : List K) → All (IsCanonical items) ks → List B
  bytes_list [] all = []
  bytes_list (k ∷ ks) all = all.0.bytes ∷ bytes_list ks all.1

  all_bytes-IsCanonical :
      (ks : List K) (all : All (IsCanonical items) ks)
      → all_bytes items ks ≡ some (bytes_list ks all)
  unfolding all_bytes bytes_list
  all_bytes-IsCanonical [] all = refl
  all_bytes-IsCanonical (k ∷ ks) all = rw all.0.to (rw (all_bytes-IsCanonical ks all.1) refl)

  add_entries-written :
      (es : List (B × ℕ)) (m : List (K × ℕ))
      → add_entries dec items.of_bytes es m ≡ add_entries dec self (written es) m
  unfolding add_entries
  add_entries-written [] m = refl
  add_entries-written ((b, id) ∷ es) m = add_entries-written es (put dec (items.of_bytes b) id m)

  new_bytes-eq :
      (ks : List K) (m : List (K × ℕ))
      → new_bytes dec items ks m ≡ all_bytes items (new_entries dec self ks m)
  unfolding new_bytes new_entries all_bytes
  new_bytes-eq [] m = refl
  new_bytes-eq (k ∷ ks) m = elim (Option-cases (get dec k m)) [
    | inl e ↦ rw (e, new_bytes) (rw (e, new_entries) (rw (new_bytes-eq ks m) refl))
    | inr (id, e) ↦ rw (e, new_bytes) (rw (e, new_entries) (new_bytes-eq ks m))
  ]

  module _ {C : Type 0} (ops : Cache K C) where
    check_normal-eq :
        (ks : List K) (m : List (K × ℕ)) (c : C)
        → All (IsCanonical items) ks
        → (check_normal dec items ops ks m c ≡ check_cache dec self ops ks m c)
          × All (IsCanonical items) (check_cache dec self ops ks m c).1
    unfolding check_normal check_cache
    check_normal-eq [] m c all = (refl, tt)
    check_normal-eq (k ∷ ks) m c all = elim (Option-cases (ops.lookup c k).0) [
      | inl e ↦
          let ih = check_normal-eq ks m (ops.lookup c k).1 all.1 in
          (
            rw (all.0.normal, check_normal)
                (rw (e, check_normal) (rw (e, check_cache) (ap (λ p. (p.0, k ∷ p.1, p.2)) ih.0))),
            rw (e, check_cache) (all.0, ih.1),
          )
      | inr (id, e) ↦
          let ih = check_normal-eq ks (put dec k id m) (ops.lookup c k).1 all.1 in
          (
            rw (all.0.normal, check_normal) (rw (e, check_normal) (rw (e, check_cache) ih.0)),
            rw (e, check_cache) ih.1,
          )
    ]

    update_normal-eq :
        (ks : List K) (found id_map : List (K × ℕ)) (c : C)
        → All (IsCanonical items) ks
        → update_normal dec items ops ks found id_map c ≡ set_cache dec self ops ks found id_map c
    unfolding update_normal set_cache
    update_normal-eq [] found id_map c all = refl
    update_normal-eq (k ∷ ks) found id_map c all = elim (Option-cases (get dec k found)) [
      | inl e ↦
          rw (all.0.normal, update_normal)
            (rw (e, update_normal) (rw (e, set_cache) (update_normal-eq ks found id_map c all.1)))
      | inr (id, e) ↦
          rw (all.0.normal, update_normal)
            (rw (e, update_normal)
              (rw (e, set_cache)
                (update_normal-eq ks found (put dec k id id_map) (ops.set c k id) all.1)))
    ]

  module _ {D : Type 0} (db : Table B D) where
    create_bytes-eq :
        (ns : List K) (all : All (IsCanonical items) ns) (m : List (K × ℕ)) (d : D)
        → create_bytes dec items db (bytes_list ns all) m d
          ≡ create_entries dec self (via db) ns m d
    unfolding create_bytes create_entries bytes_list
    create_bytes-eq [] all m d = refl
    create_bytes-eq (n ∷ ns) all m d =
        rw (all_bytes-IsCanonical (n ∷ ns) all)
          (elim (Option-cases (db.create d (all.0.bytes ∷ bytes_list ns all.1))) [
            | inl e ↦ rw e refl
            | inr ((es, d'), e) ↦ rw e (ap (λ r. some (r, d')) (add_entries-written es m))
          ])

    create_new-eq :
        (create : Bool) (uncached : List K) (m : List (K × ℕ)) (d : D)
        → All (IsCanonical items) uncached
        → create_new dec items db create uncached m d
          ≡ create_ids dec self (via db) create uncached m d
    unfolding create_new create_ids
    create_new-eq false uncached m d all = refl
    create_new-eq true uncached m d all =
        let ns = new_entries dec self uncached m in
        let new = All-new_entries dec self (IsCanonical items) uncached m all in
        rw (new_bytes-eq uncached m)
          (rw (all_bytes-IsCanonical ns new) (create_bytes-eq ns new m d))

    fetch_from_db-eq :
        (uncached : List K) (d : D)
        → All (IsCanonical items) uncached
        → fetch_from_db dec items db uncached d
          ≡ Option.map (λ es. add_entries dec self es []) ((via db).find d uncached)
    unfolding fetch_from_db
    fetch_from_db-eq uncached d all =
        rw (all_bytes-IsCanonical uncached all)
          (elim (Option-cases (db.find d (bytes_list uncached all))) [
            | inl e ↦ rw e refl
            | inr (es, e) ↦ rw e (ap some (add_entries-written es []))
          ])

  module _ {C D : Type 0} (ops : Cache K C) (db : Table B D) where
    finish_normal-eq :
        (uncached : List K) (made : Option (List (K × ℕ) × D)) (id_map : List (K × ℕ)) (c : C)
        (d : D)
        → All (IsCanonical items) uncached
        → finish_normal dec items ops db uncached made id_map c d
          ≡ finish_ids dec self ops (via db) uncached made id_map c d
    unfolding finish_normal finish_ids
    finish_normal-eq uncached none id_map c d all = refl
    finish_normal-eq uncached (some (m, d')) id_map c d all =
        rw (update_normal-eq ops uncached m id_map c all) refl

    fetch_normal-eq :
        (create : Bool) (uncached : List K) (found : Option (List (K × ℕ))) (id_map : List (K × ℕ))
        (c : C) (d : D)
        → All (IsCanonical items) uncached
        → fetch_normal dec items ops db create uncached
            (Option.map (λ es. add_entries dec self es []) found)
            id_map
            c
            d
          ≡ fetch_ids dec self ops (via db) create uncached found id_map c d
    unfolding fetch_normal fetch_ids
    fetch_normal-eq create uncached none id_map c d all = refl
    fetch_normal-eq create uncached (some es) id_map c d all =
        rw (create_new-eq db create uncached (add_entries dec self es []) d all)
          (finish_normal-eq uncached _ id_map c d all)

    uncached_normal-eq :
        (create : Bool) (uncached : List K) (id_map : List (K × ℕ)) (c : C) (d : D)
        → All (IsCanonical items) uncached
        → uncached_normal dec items ops db create uncached id_map c d
          ≡ uncached_ids dec self ops (via db) create uncached id_map c d
    unfolding uncached_normal uncached_ids
    uncached_normal-eq create [] id_map c d all = refl
    uncached_normal-eq create (u ∷ us) id_map c d all =
        rw (fetch_from_db-eq db (u ∷ us) d all)
          (fetch_normal-eq create (u ∷ us) ((via db).find d (u ∷ us)) id_map c d all)

    -- On canonical items the lookup is that of the other dictionaries.
    pub get_or_create_normal-eq :
        (create : Bool) (ks : List K) (c : C) (d : D)
        → All (IsCanonical items) ks
        → get_or_create_normal dec items ops db create ks c d
          ≡ get_or_create_ids dec self ops (via db) create ks c d
    unfolding get_or_create_normal get_or_create_ids
    get_or_create_normal-eq create ks c d all =
        let (same, uncached) = check_normal-eq ops ks [] c all in
        rw same (uncached_normal-eq create _ _ _ d uncached)
