-- ===== src/Dictionary.antt =====
-- util/cache/cache.go: the ids of the message types, type tags and EVM transaction hashes, from a
-- cache before a table of the database. The three functions have one body, over an item `H` with
-- its key `K` in the cache: the item itself, or the hexadecimal text of a hash.
-- The LRU cache behind cache/cache.go and the table behind gorm are records of operations.
pub mod Maps
pub mod Loops
pub mod Creation
pub mod Lookup
pub mod Normal
pub mod Canonical
pub mod Accounts
use rollytics.Prelude.{ℕ, Bool, true, false, List, [], ◌∷◌, Option, none, some, ◌>>=◌}
use rollytics.Prelude.GoMap.{get, put}

-- `Get` also marks the entry as used.
pub record Cache (K C : Type 0) : Type 0 where
  pub lookup : C → K → Option ℕ × C
  pub set : C → K → ℕ → C

-- `Where(... IN ?).Find`, and `Create` with `DoNothingWhenConflict`, which gives the new entries
-- with their ids. `none` is an error.
pub record Table (H D : Type 0) : Type 0 where
  pub find : D → List H → Option (List (H × ℕ))
  pub create : D → List H → Option (List (H × ℕ) × D)

pub record Ids (K C D : Type 0) : Type 0 where
  pub id_map : List (K × ℕ)
  pub failed : Bool
  pub cache : C
  pub table : D

module _ {H K : Type 0} (dec : Discrete K) (key : H → K) where
  -- The loops over the entries of the table.
  unfoldable pub add_entries : List (H × ℕ) → List (K × ℕ) → List (K × ℕ)
  add_entries [] m = m
  add_entries ((h, id) ∷ es) m = add_entries es (put dec (key h) id m)

  -- The items without an entry.
  unfoldable pub new_entries : List H → List (K × ℕ) → List H
  new_entries [] m = []
  new_entries (h ∷ hs) m = elim (get dec (key h) m) [
    | some id ↦ new_entries hs m
    | none ↦ h ∷ new_entries hs m
  ]

  module _ {C : Type 0} (ops : Cache K C) where
    -- The loop over the cache: the ids found, the items that are not cached, and the cache.
    unfoldable pub check_cache : List H → List (K × ℕ) → C → List (K × ℕ) × List H × C
    check_cache [] id_map c = (id_map, [], c)
    check_cache (h ∷ hs) id_map c = elim (ops.lookup c (key h)).0 [
      | some id ↦ check_cache hs (put dec (key h) id id_map) (ops.lookup c (key h)).1
      | none ↦
          let (ids, uncached, c') = check_cache hs id_map (ops.lookup c (key h)).1 in
          (ids, h ∷ uncached, c')
    ]

    -- The last loop: the map and the cache take the ids of the uncached items.
    unfoldable pub set_cache : List H → List (K × ℕ) → List (K × ℕ) → C → List (K × ℕ) × C
    set_cache [] m id_map c = (id_map, c)
    set_cache (h ∷ hs) m id_map c = elim (get dec (key h) m) [
      | some id ↦ set_cache hs m (put dec (key h) id id_map) (ops.set c (key h) id)
      | none ↦ set_cache hs m id_map c
    ]

  module _ {D : Type 0} (db : Table H D) where
    unfoldable pub create_entries : List H → List (K × ℕ) → D → Option (List (K × ℕ) × D)
    unfolding add_entries
    create_entries [] m d = some (m, d)
    create_entries (h ∷ hs) m d = do (es, d') ← db.create d (h ∷ hs); some (add_entries es m, d')

    -- The branch `createNew`: the map with the new entries, and the table.
    unfoldable pub create_ids : Bool → List H → List (K × ℕ) → D → Option (List (K × ℕ) × D)
    unfolding new_entries create_entries
    create_ids false uncached m d = some (m, d)
    create_ids true uncached m d = create_entries (new_entries uncached m) m d

  module _ {C D : Type 0} (ops : Cache K C) (db : Table H D) where
    -- From the end of the branch `createNew` on.
    unfoldable pub finish_ids :
        List H → Option (List (K × ℕ) × D) → List (K × ℕ) → C → D → Ids K C D
    unfolding set_cache
    finish_ids uncached none id_map c d = record {
      id_map = id_map;
      failed = true;
      cache = c;
      table = d;
    }
    finish_ids uncached (some (m, d')) id_map c d =
        let (ids, c') = set_cache ops uncached m id_map c in
        record { id_map = ids; failed = false; cache = c'; table = d' }

    -- From the query on.
    unfoldable pub fetch_ids :
        Bool → List H → Option (List (H × ℕ)) → List (K × ℕ) → C → D → Ids K C D
    unfolding finish_ids create_ids add_entries
    fetch_ids create uncached none id_map c d = record {
      id_map = id_map;
      failed = true;
      cache = c;
      table = d;
    }
    fetch_ids create uncached (some es) id_map c d =
        finish_ids uncached (create_ids db create uncached (add_entries es []) d) id_map c d

    -- From the end of the loop over the cache on.
    unfoldable pub uncached_ids : Bool → List H → List (K × ℕ) → C → D → Ids K C D
    unfolding fetch_ids
    uncached_ids create [] id_map c d = record {
      id_map = id_map;
      failed = false;
      cache = c;
      table = d;
    }
    uncached_ids create (u ∷ us) id_map c d =
        fetch_ids create (u ∷ us) (db.find d (u ∷ us)) id_map c d

    unfoldable pub get_or_create_ids : Bool → List H → C → D → Ids K C D
    unfolding check_cache uncached_ids
    get_or_create_ids create hs c d =
        let (id_map, uncached, c') = check_cache ops hs [] c in
        uncached_ids create uncached id_map c' d
