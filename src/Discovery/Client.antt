-- ===== src/Discovery/Client.antt =====
-- utils/src/DiscoveryClient.cpp: the search for servers.
use macdetect.Base.{
  ℕ, Bool, ◌>>=◌, ◌&&◌, List, [], ◌∷◌, ◌++◌, Option, none, some, Text, text, str_eq, if◌then◌else◌,
}
use macdetect.Value.{Value, key, content, make, sub}
use macdetect.Packet.{PacketEntity}
use macdetect.Reader.{Recvfrom}
use macdetect.Discovery.{node_receive}

pub record ServerInfo : Type 0 where
  pub name : Text
  pub ip : Text

abbrev pub DiscoveryClient : Type 0
DiscoveryClient = List ServerInfo

-- `processReceivedValue`
unfoldable pub process_received_value : DiscoveryClient → Option Value → Text → DiscoveryClient
process_received_value detected none ip = detected
process_received_value detected (some v) ip =
    let named : DiscoveryClient = elim (sub v (text "server-name")) [
      | none ↦ detected
      | some name ↦ detected ++ (record { name = content name; ip = ip } ∷ [])
    ] in
    if str_eq (key v) (text "response") && str_eq (content v) (text "server-info")
    then named
    else detected

-- What `detectServers` sends to the multicast group.
abbrev pub detect_servers : Value
detect_servers = make (text "request") (text "server-info") []

-- `DiscoveryNode::cycle` of a client.
unfoldable pub client_cycle : DiscoveryClient → Option Value → Text → DiscoveryClient
unfolding process_received_value
client_cycle detected none ip = detected
client_cycle detected (some v) ip = process_received_value detected (some v) ip

-- The same with the receipt of the value, whose sender is that of the datagram.
unfoldable pub client_node_cycle :
    DiscoveryClient
    → Bool
    → (ℕ → Recvfrom)
    → Text
    → (ℕ → ℕ → ℕ)
    → ℕ
    → PacketEntity
    → Option (PacketEntity × DiscoveryClient)
client_node_cycle detected stale answer sender fresh f p = do
  (p', v, ip) ← node_receive stale answer sender fresh f p
  some (p', client_cycle detected v ip)

-- `detectedServers`, which empties the list.
unfoldable pub detected_servers : DiscoveryClient → DiscoveryClient × List ServerInfo
detected_servers detected = ([], detected)
