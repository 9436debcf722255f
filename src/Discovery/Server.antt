-- ===== src/Discovery/Server.antt =====
-- utils/src/DiscoveryServer.cpp, and the round of a node in utils/src/DiscoveryNode.cpp.
use macdetect.Base.{
  ℕ, Bool, ◌>>=◌, ◌&&◌, List, [], ◌∷◌, Option, none, some, Text, text, str_eq, if◌then◌else◌,
}
use macdetect.Value.{Value, key, content, add_pair, make}
use macdetect.Packet.{PacketEntity}
use macdetect.Reader.{Recvfrom}
use macdetect.Discovery.{node_receive}

-- `processReceivedValue`: what is sent to the multicast group.
unfoldable pub process_received_value : Text → Value → List Value
process_received_value identifier v =
    if str_eq (key v) (text "request") && str_eq (content v) (text "server-info")
    then add_pair (make (text "response") (text "server-info") []) (text "server-name") identifier
      ∷ []
    else []

-- `DiscoveryNode::cycle`, with the value that came, if there is one.
unfoldable pub discovery_cycle : Text → Option Value → List Value
discovery_cycle identifier none = []
discovery_cycle identifier (some v) = process_received_value identifier v

-- `DiscoveryNode::cycle` of a server, with the receipt of the value.
unfoldable pub server_node_cycle :
    Text
    → Bool
    → (ℕ → Recvfrom)
    → Text
    → (ℕ → ℕ → ℕ)
    → ℕ
    → PacketEntity
    → Option (PacketEntity × List Value)
server_node_cycle identifier stale answer sender fresh f p = do
  (p', v, _) ← node_receive stale answer sender fresh f p
  some (p', discovery_cycle identifier v)
