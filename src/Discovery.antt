-- ===== src/Discovery.antt =====
-- utils/src/DiscoveryNode.cpp: an entity whose socket is that of a multicast endpoint. Its server and
-- its client stand in the children.
pub mod Server
pub mod Client
pub mod Exchange
mod Tests
use macdetect.Base.{
  ℕ, ◌+◌, Bool, true, false, List, [], ◌∷◌, Option, none, some, Text, if◌then◌else◌, ◌>>=◌,
}
use macdetect.Value.{Value}
use macdetect.Packet.{
  PacketEntity, Recv, received, closed, failed, Receipt, Outcome, done, overrun, receive,
}
use macdetect.Reader.{Recvfrom, taken, would_block, recv_error}

-- `DiscoveryNode::recv`, as `PacketEntity::receive` reads its result. A datagram without bytes gives
-- -1, and `errno` is what an earlier call left: `stale` tells whether this is `EAGAIN`.
unfoldable pub node_recv : Bool → Recvfrom → Recv
node_recv stale (taken []) = failed stale
node_recv stale (taken (b ∷ bytes)) = received (b ∷ bytes)
node_recv stale would_block = closed
node_recv stale recv_error = failed false

-- `DiscoveryNode::receive`: the node after it, the value, and `strIP`, which each read sets to the
-- address that it came from. `sender` is what `inet_ntoa` gives for the source of the datagram that is
-- peeked. `none`: the bytes are no value.
unfoldable pub node_receive :
    Bool
    → (ℕ → Recvfrom)
    → Text
    → (ℕ → ℕ → ℕ)
    → ℕ
    → PacketEntity
    → Option (PacketEntity × Option Value × Text)
unfolding node_recv
node_receive stale answer sender fresh f p = do
  outcome ← receive (λ i n. node_recv stale (answer n)) fresh f p false
  elim outcome [
    | overrun ↦ none
    | done r ↦ some (r.entity, if r.disconnected then none else r.value, sender)
  ]
