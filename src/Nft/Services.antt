-- ===== src/Nft/Services.antt =====
-- What the NFT collectors take from elsewhere: the decoders of the libraries, and the dictionaries of
-- util/cache/cache.go, which give the id of each account or token that they are asked for.
use rollytics.Prelude.{ℕ, List, Option, none, some}
use rollytics.Text.{Text}
use rollytics.Types.{ScrapedBlock, ParsedEvent}
use rollytics.Events.{Extracted, ok, decode_error, index_panic, extract_events}
use rollytics.Nft.Changes.{NftKey}

pub record Services : Type 0 where
  -- the bytes of a bech32 address, and its text
  pub bech32 : Text → Option (List ℕ)
  pub address_text : List ℕ → Text
  -- base64 and the hash of a transaction
  pub decode : Text → Option Text
  pub tx_hash : Text → Text
  -- `GetOrCreateAccountIds` and `GetOrCreateNftIds`
  pub account_ids : List Text → Option (List (Text × ℕ))
  pub nft_ids : List NftKey → Option (List (NftKey × ℕ))
  -- the sequence of the row of `tx` with a hash and a height
  pub sequence : List ℕ → ℕ → Option ℕ

-- The events, where `ExtractEvents` gives no error.
unfoldable pub extracted : Extracted → Option (List ParsedEvent)
extracted (ok events) = some events
extracted (decode_error events) = none
extracted index_panic = none

unfoldable pub block_events : Services → ScrapedBlock → Text → Option (List ParsedEvent)
unfolding extracted extract_events
block_events s block event_type = extracted (extract_events s.decode s.tx_hash block event_type)
