-- ===== src/Nft/Settled.antt =====
-- One token through the events of a block: what the maps hold of it settles to what the ledger has.
use mathlib.Core.Logic.{if_pos, if_neg}
use mathlib.Core.Option
use rollytics.Prelude.{
  ℕ, ◌≡◌, ◌≢◌, refl, sym, subst, List, [], ◌∷◌, Option, none, some, IsSome, arith, All, map,
}
use rollytics.Prelude.GoMap.{get, get-put_self, get-put_ne, get-delete_self, get-delete_ne}
use rollytics.Text.{Text}
use rollytics.Nft.Changes.{
  NftKey, NftKey-discrete, Op, mint, transfer, burn, Changes, apply, no_changes,
}
use rollytics.Nft.Ledger.{
  Fresh, Token, Ledger, key_of, minted_token, moved_token, play, Allowed, replay, AllAllowed,
  apply_all,
}

module _ {M : Type 0} (owner uri : M → Text) (height timestamp : ℕ) where
  unfoldable pub base : Option Token → Option M → Option Token
  base (some t) m = some t
  base none none = none
  base none (some m) = some (minted_token owner uri height timestamp m)

  unfoldable pub moved : Option Text → Option Token → Option Token
  moved none t = t
  moved (some recipient) t = Option.map (moved_token height timestamp recipient) t

  unfoldable pub settle : Option Token → Option M → Option Text → Option (Unit {0}) → Option Token
  unfolding base moved
  settle r m t none = moved t (base r m)
  settle r m t (some u) = none

  abbrev pub Backed : Option Text → Option Token → Type 0
  Backed none r = Unit
  Backed (some recipient) r = IsSome r

  abbrev pub Cleared : Option M → Option Text → Option (Unit {0}) → Type 0
  Cleared m t none = Unit
  Cleared m t (some u) = (m ≡ none) × (t ≡ none)

  pub record IsSettled (r l : Option Token) (m : Option M) (t : Option Text) (b : Option (Unit {0}))
      : Type 0 where
    pub value : l ≡ settle r m t b
    pub cleared : Cleared m t b
    pub backed : Backed t (base r m)

  IsSettled-mint :
      (x : M) (r l : Option Token) (m : Option M) (t : Option Text) (b : Option (Unit {0}))
      → r ≡ none
      → l ≡ none
      → IsSettled r l m t b
      → IsSettled r (some (minted_token owner uri height timestamp x)) (some x) t none
  unfolding settle base moved
  IsSettled-mint x (some y) l m t b e f h = absurd (ground (arith, e))
  IsSettled-mint x none l m none b e f h = record { value = refl; cleared = tt; backed = tt }
  IsSettled-mint x none l (some y) (some r) none e f h = absurd (ground (arith, h.value))
  IsSettled-mint x none l none (some r) none e f h = absurd (ground (arith, h.backed))
  IsSettled-mint x none l m (some r) (some u) e f h = absurd (ground (arith, h.cleared))

  IsSettled-transfer :
      (recipient : Text) (r : Option Token) (l : Option Token) (m : Option M) (t : Option Text)
      (b : Option (Unit {0}))
      → IsSome l
      → IsSettled r l m t b
      → IsSettled r (Option.map (moved_token height timestamp recipient) l) m (some recipient) b
  unfolding settle base moved
  IsSettled-transfer recipient r l m t (some u) s h = absurd (ground (arith, h.value, s.1))
  IsSettled-transfer recipient (some r) l m none none (x, e) h = record {
    value = rw h.value refl;
    cleared = tt;
    backed = (r, refl);
  }
  IsSettled-transfer recipient (some r) l m (some o) none (x, e) h = record {
    value = rw h.value refl;
    cleared = tt;
    backed = (r, refl);
  }
  IsSettled-transfer recipient none l (some y) none none (x, e) h = record {
    value = rw h.value refl;
    cleared = tt;
    backed = (_, refl);
  }
  IsSettled-transfer recipient none l (some y) (some o) none (x, e) h = record {
    value = rw h.value refl;
    cleared = tt;
    backed = (_, refl);
  }
  IsSettled-transfer recipient none l none none none (x, e) h = absurd (ground (arith, h.value))
  IsSettled-transfer recipient none l none (some o) none (x, e) h =
      absurd (ground (arith, h.backed))

  IsSettled-burn : (r : Option Token) → IsSettled r none none none (some tt)
  unfolding settle
  IsSettled-burn r = record { value = refl; cleared = (refl, refl); backed = tt }

  -- What the maps hold of a token, and whether that settles to the ledger's.
  abbrev pub Settles : Option Token → Ledger → Changes M → NftKey → Type 0
  Settles r l c key =
      IsSettled r (l key) (get NftKey-discrete key c.mint_map)
        (get NftKey-discrete key c.transfer_map) (get NftKey-discrete key c.burn_map)

  Settles-apply_self :
      (tx_hash : Text) (op : Op M) (r : Option Token) (l : Ledger) (c : Changes M)
      → Fresh r (key_of op) op
      → Allowed owner uri height timestamp op l
      → Settles r l c (key_of op)
      → Settles r (play owner uri height timestamp op l) (apply tx_hash op c) (key_of op)
  unfolding apply play
  Settles-apply_self tx_hash (mint k m) r l c fresh ok h =
      rw (if_pos (NftKey-discrete k k) refl)
        (rw get-put_self (rw get-delete_self (IsSettled-mint m r _ _ _ _ (fresh refl) ok h)))
  Settles-apply_self tx_hash (transfer k recipient) r l c fresh ok h =
      rw (if_pos (NftKey-discrete k k) refl)
        (rw get-put_self (IsSettled-transfer recipient r _ _ _ _ ok h))
  Settles-apply_self tx_hash (burn k) r l c fresh ok h = rw (if_pos (NftKey-discrete k k) refl) (
      rw get-put_self (
        rw (get-delete_self NftKey-discrete k c.mint_map)
          (rw (get-delete_self NftKey-discrete k c.transfer_map) (IsSettled-burn r))))

  Settles-apply_ne :
      (tx_hash : Text) (op : Op M) (r : Option Token) (l : Ledger) (c : Changes M) (key : NftKey)
      → key_of op ≢ key
      → Settles r l c key
      → Settles r (play owner uri height timestamp op l) (apply tx_hash op c) key
  unfolding apply play
  Settles-apply_ne tx_hash (mint k m) r l c key ne h = rw (if_neg _ ne) (
      rw (get-put_ne NftKey-discrete k key _ _ ne)
        (rw (get-delete_ne NftKey-discrete k key _ ne) h))
  Settles-apply_ne tx_hash (transfer k recipient) r l c key ne h =
      rw (if_neg _ ne) (rw (get-put_ne NftKey-discrete k key _ _ ne) h)
  Settles-apply_ne tx_hash (burn k) r l c key ne h = rw (if_neg _ ne) (
      rw (get-put_ne NftKey-discrete k key _ _ ne) (
        rw (get-delete_ne NftKey-discrete k key c.mint_map ne)
          (rw (get-delete_ne NftKey-discrete k key c.transfer_map ne) h)))

  pub Settles-apply :
      (tx_hash : Text) (op : Op M) (r : Option Token) (l : Ledger) (c : Changes M) (key : NftKey)
      → Fresh r key op
      → Allowed owner uri height timestamp op l
      → Settles r l c key
      → Settles r (play owner uri height timestamp op l) (apply tx_hash op c) key
  Settles-apply tx_hash op r l c key fresh ok h = elim (NftKey-discrete (key_of op) key) [
    | no other ↦ Settles-apply_ne tx_hash op r l c key other h
    | yes same ↦
        subst (λ k. Settles r (play owner uri height timestamp op l) (apply tx_hash op c) k) same
          (Settles-apply_self tx_hash op r l c (subst (λ k. Fresh r k op) (sym same) fresh) ok
            (subst (λ k. Settles r l c k) (sym same) h))
  ]

  pub Settles-apply_all :
      (ops : List (Text × Op M)) (r : Option Token) (l : Ledger) (c : Changes M) (key : NftKey)
      → All (λ op. Fresh r key op.1) ops
      → AllAllowed owner uri height timestamp (map (λ op. op.1) ops) l
      → Settles r l c key
      → Settles r (replay owner uri height timestamp (map (λ op. op.1) ops) l) (apply_all ops c) key
  unfolding apply_all replay
  Settles-apply_all [] r l c key fresh ok h = h
  Settles-apply_all ((tx_hash, op) ∷ ops) r l c key fresh ok h =
      Settles-apply_all ops r (play owner uri height timestamp op l) (apply tx_hash op c) key
        fresh.1 ok.1 (Settles-apply tx_hash op r l c key fresh.0 ok.0 h)

  IsSettled-start : (r : Option Token) → IsSettled r r none none none
  unfolding settle base moved
  IsSettled-start none = record { value = refl; cleared = tt; backed = tt }
  IsSettled-start (some t) = record { value = refl; cleared = tt; backed = tt }

  pub Settles-no_changes : (l : Ledger) (key : NftKey) → Settles (l key) l no_changes key
  unfolding get
  Settles-no_changes l key = IsSettled-start (l key)
