-- ===== src/Discovery/Tests.antt =====
-- The laws of the discovery on a small server.
use macdetect.Base.{[], ◌∷◌, some, text, false, ◌≡◌, arith}
use macdetect.Value.{make, add_pair, add_pairs, add, push_back, size}
use macdetect.Value.Wire.{le32}
use macdetect.Value.Encode.{encode}
use macdetect.Packet.{PacketEntity}
use macdetect.Discovery.Exchange.{search, discover}

abbrev node : PacketEntity
node = record { socket = 5; failure_state = false }

discover_example :
    search false (λ n i. 0) 100 (text "home") (text "10.0.0.7") (text "10.0.0.9") node node []
    ≡ some (node, node, record { name = text "home"; ip = text "10.0.0.9" } ∷ [])
unfolding make add_pairs add_pair add push_back encode le32 size text
discover_example =
    discover false (λ n i. 0) 100 node node (text "home") (text "10.0.0.7") (text "10.0.0.9") []
      (omega arith) (omega arith) (omega arith)
