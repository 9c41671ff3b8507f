-- ===== src/Examples/Peers.antt =====
-- Concrete snapshots, frames and sequences: cluster/.
use dnsplane.Base.{ℕ, ◌≡◌, refl, List, [], ◌∷◌, ◌++◌, Option, some}
use dnsplane.Base.Int.{pos}
use dnsplane.Text.{codes}
use dnsplane.Cluster.{StateManager, Config, RecordsFull, receive}
use dnsplane.Cluster.Sequence.{receive_idem}
use dnsplane.Cluster.Lww.{offer, offer_comm}
use dnsplane.Cluster.Frame.{put_uint32, write_frame, read_frame, frame, read_frame-write_frame}
use dnsplane.Safecast.{int_to_uint32_clamp}

abbrev manager : StateManager
manager = record {
  node_id = codes "node-a";
  local_seq = 4;
  peer_seq = (codes "node-b", 7) ∷ [];
  last_global_lww_unix = pos 0;
  last_global_lww_node_id = [];
}

abbrev config : Config
config = record { sync_policy = codes " Global_LWW"; allowed_writer_node_ids = [] }

abbrev snapshot : RecordsFull ℕ
snapshot = record { node_id = codes "node-b"; seq = 8; timestamp = pos 50; records = 1 ∷ 2 ∷ [] }

abbrev accept_all : List ℕ → List ℕ → Option (List ℕ)
accept_all records stored = some records

receive_idem_example :
    receive config accept_all snapshot (receive config accept_all snapshot (manager, 0 ∷ []))
    ≡ receive config accept_all snapshot (manager, 0 ∷ [])
receive_idem_example = receive_idem config accept_all snapshot manager (0 ∷ [])

offer_comm_example :
    offer (pos 50) (codes "node-b") (offer (pos 50) (codes "node-c") manager)
    ≡ offer (pos 50) (codes "node-c") (offer (pos 50) (codes "node-b") manager)
offer_comm_example = offer_comm manager (pos 50) (pos 50) (codes "node-b") (codes "node-c")

read_frame-write_frame_example :
    read_frame ((0 ∷ 0 ∷ 0 ∷ 2 ∷ 7 ∷ 8 ∷ []) ++ 9 ∷ []) ≡ frame (7 ∷ 8 ∷ []) (9 ∷ [])
read_frame-write_frame_example =
    read_frame-write_frame (7 ∷ 8 ∷ []) (9 ∷ []) (0 ∷ 0 ∷ 0 ∷ 2 ∷ 7 ∷ 8 ∷ [])
      (unfold write_frame put_uint32 int_to_uint32_clamp in refl)
