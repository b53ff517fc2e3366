-- ===== src/Nft/Pair.antt =====
-- indexer/collector/nft-pair/collect.go: the L1 name of a collection that an IBC packet brought.
-- JSON, base64 and the class ids of the IBC module are parameters.
use mathlib.Core.Logic.{ite}
use rollytics.Prelude.{List, [], ◌∷◌, Option, none, some, ◌>>=◌}
use rollytics.Prelude.GoMap.{get, put}
use rollytics.Text.{Text, codes, text_discrete}
use rollytics.Types.{ScrapedBlock, ParsedEvent}
use rollytics.Nft.Services.{Services, block_events}
use rollytics.Nft.Tables.{Collections}

pub record PacketData : Type 0 where
  pub class_id : Text
  pub class_data : Text

-- `class_name` reads the name in the decoded class data; `l2_name` is the class id for the VM.
pub record Packets : Type 0 where
  pub packet_data : Text → Option PacketData
  pub base64 : Text → Option Text
  pub class_name : Text → Option Text
  pub l2_name : Text → Text → Text → Text

-- An iteration of the loop: `continue`, an error, or the names in L2 and L1.
pub data Pairing : Type 0 where
  skipped : Pairing
  failed : Pairing
  names : Text → Text → Pairing

module _ (p : Packets) where
  -- From the packet's data on.
  unfoldable pub pair_names : Text → Text → Text → Option (Text × Text)
  pair_names dst_port dst_channel raw = do
    packet ← p.packet_data raw
    class_data ← p.base64 packet.class_data
    l1_name ← p.class_name class_data
    some (p.l2_name dst_port dst_channel packet.class_id, l1_name)

  unfoldable pub read_pair : Option Text → Option Text → Option Text → Option Text → Pairing
  unfolding pair_names
  read_pair (some src_port) (some dst_port) (some dst_channel) (some raw) =
      ite (text_discrete src_port (codes "nft-transfer"))
        (elim (pair_names dst_port dst_channel raw) [
          | none ↦ failed
          | some (l2_name, l1_name) ↦ names l2_name l1_name
        ])
        skipped
  read_pair src_port dst_port dst_channel raw = skipped

  unfoldable pub read_packet : ParsedEvent → Pairing
  unfolding read_pair get
  read_packet event =
      read_pair (get text_discrete (codes "packet_src_port") event.attr_map)
        (get text_discrete (codes "packet_dst_port") event.attr_map)
        (get text_discrete (codes "packet_dst_channel") event.attr_map)
        (get text_discrete (codes "packet_data") event.attr_map)

  unfoldable pub collection_pairs :
      List ParsedEvent → List (Text × Text) → Option (List (Text × Text))
  unfolding read_packet put
  collection_pairs [] m = some m
  collection_pairs (event ∷ events) m = elim (read_packet event) [
    | skipped ↦ collection_pairs events m
    | failed ↦ none
    | names l2_name l1_name ↦ collection_pairs events (put text_discrete l2_name l1_name m)
  ]

-- `UPDATE nft_collection SET origin_name = l1 WHERE name = l2`
unfoldable pub update_origin : Text → Text → Collections → Collections
update_origin l2_name l1_name [] = []
update_origin l2_name l1_name ((addr, row) ∷ rows) =
    (addr, ite (text_discrete row.name l2_name) (record row { origin_name = l1_name }) row)
    ∷ update_origin l2_name l1_name rows

unfoldable pub update_origins : List (Text × Text) → Collections → Collections
unfolding update_origin
update_origins [] rows = rows
update_origins ((l2_name, l1_name) ∷ pairs) rows =
    update_origins pairs (update_origin l2_name l1_name rows)

unfoldable pub collect_pairs : Services → Packets → ScrapedBlock → Collections → Option Collections
unfolding block_events collection_pairs update_origins
collect_pairs s p block collections = do
  events ← block_events s block (codes "recv_packet")
  pairs ← collection_pairs p events []
  some (update_origins pairs collections)
