-- ===== src/Nft/Ledger.antt =====
-- The tokens of a rollup, as the events of a block move them one at a time. `T` is what a token
-- carries besides its owner: the ledger does not read it.
use mathlib.Core.Logic.{ite}
use mathlib.Core.Option
use rollytics.Prelude.{ℕ, ◌≡◌, List, [], ◌∷◌, Option, none, some, IsSome}
use rollytics.Text.{Text}
use rollytics.Nft.Changes.{
  NftKey, NftKey-discrete, Op, mint, transfer, burn, Changes, apply, Reading, skipped, failed,
  found,
}

-- A token with the block of its last change.
pub record Token : Type 0 where
  pub owner : Text
  pub uri : Text
  pub height : ℕ
  pub timestamp : ℕ

abbrev pub Ledger : Type 0
Ledger = NftKey → Option Token

abbrev pub change : Ledger → NftKey → Option Token → Ledger
change l key t j = ite (NftKey-discrete key j) t (l j)

abbrev pub key_of : {M : Type 0} → Op M → NftKey
key_of (mint key m) = key
key_of (transfer key recipient) = key
key_of (burn key) = key

abbrev pub moved_token : ℕ → ℕ → Text → Token → Token
moved_token height timestamp recipient t = record t {
  owner = recipient;
  height = height;
  timestamp = timestamp;
}

module _ {M : Type 0} (owner uri : M → Text) (height timestamp : ℕ) where
  abbrev pub minted_token : M → Token
  minted_token m = record { owner = owner m; uri = uri m; height = height; timestamp = timestamp }

  unfoldable pub play : Op M → Ledger → Ledger
  play (mint key m) l = change l key (some (minted_token m))
  play (transfer key recipient) l =
      change l key (Option.map (moved_token height timestamp recipient) (l key))
  play (burn key) l = change l key none

  -- Only a token that is not there is minted, and only one that is there is moved or burnt.
  abbrev pub Allowed : Op M → Ledger → Type 0
  Allowed (mint key m) l = l key ≡ none
  Allowed (transfer key recipient) l = IsSome (l key)
  Allowed (burn key) l = IsSome (l key)

  unfoldable pub replay : List (Op M) → Ledger → Ledger
  unfolding play
  replay [] l = l
  replay (op ∷ ops) l = replay ops (play op l)

  abbrev pub AllAllowed : List (Op M) → Ledger → Type 0
  AllAllowed [] l = Unit
  AllAllowed (op ∷ ops) l = Allowed op l × AllAllowed ops (play op l)

-- A minted token was not there before, as `r`, of the block.
abbrev pub Fresh : {M : Type 0} → Option Token → NftKey → Op M → Type 0
Fresh r key (mint k m) = k ≡ key → r ≡ none
Fresh r key (transfer k recipient) = Unit
Fresh r key (burn k) = Unit

-- The changes of a list of operations.
unfoldable pub apply_all : {M : Type 0} → List (Text × Op M) → Changes M → Changes M
apply_all [] c = c
apply_all ((tx_hash, op) ∷ ops) c = apply_all ops (apply tx_hash op c)

-- The operations among the readings, where none has failed.
unfoldable pub operations : {M : Type 0} → List (Text × Reading M) → Option (List (Text × Op M))
operations [] = some []
operations ((tx_hash, skipped) ∷ readings) = operations readings
operations ((tx_hash, failed) ∷ readings) = none
operations ((tx_hash, found op) ∷ readings) =
    Option.map (λ ops. (tx_hash, op) ∷ ops) (operations readings)
