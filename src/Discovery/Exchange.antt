-- ===== src/Discovery/Exchange.antt =====
-- A client of utils/src/DiscoveryClient.cpp finds a server of utils/src/DiscoveryServer.cpp, over
-- the datagrams of utils/src/PacketEntity.cpp.
use mathlib.Core.Path.{subst}
use macdetect.Base.{
  List, Option, ℕ, zero, suc, ◌+◌, ◌^◌, ◌<◌, Bool, true, false, [], ◌∷◌, ◌++◌, some, Text, text,
  str_eq, take, length, ◌==◌, ◌>>=◌, ◌≡◌, refl, ap, append-nil, arith, Bool-cases, inl, inr,
}
use macdetect.Value.{
  Value, key, content, add, add_pair, add_pairs, make, sub, find_key, push_back, size,
}
use macdetect.Value.Wire.{le32}
use macdetect.Value.Encode.{encode, le-length-encode}
use macdetect.Packet.{
  send, PacketEntity, Recv, received, closed, failed, done, peek_loop, take_in, receive,
}
use macdetect.Packet.Send.{send-encode}
use macdetect.Packet.Receive.{waiting, receipt, receive-encode}
use macdetect.Reader.{Recvfrom, taken}
use macdetect.Discovery.{node_recv, node_receive}
use macdetect.Discovery.Server.{process_received_value, discovery_cycle, server_node_cycle}
use macdetect.Discovery.Client.{
  DiscoveryClient, process_received_value as process_response, detect_servers, client_cycle,
  client_node_cycle,
}

same_answer :
    (peek peek' : ℕ → ℕ → Recv) (f i size : ℕ) (r : Recv)
    → peek i (size + 2048) ≡ r
    → peek' i (size + 2048) ≡ r
    → peek_loop peek f (i + 1) (size + 2048) ≡ peek_loop peek' f (i + 1) (size + 2048)
    → peek_loop peek (suc f) i size ≡ peek_loop peek' (suc f) i size
unfolding peek_loop
same_answer peek peek' f i size (received bytes) e e' ih =
    elim (Bool-cases (length bytes == size + 2048)) [
      | inl full ↦ rw (e, e', peek_loop, full) ih
      | inr part ↦ rw (e, e', peek_loop, part)
    ]
same_answer peek peek' f i size closed e e' ih = rw (e, e', peek_loop)
same_answer peek peek' f i size (failed t) e e' ih = rw (e, e', peek_loop)

-- Two sockets that give the same for each buffer with room give the same to the loop.
peek_loop_same :
    (peek peek' : ℕ → ℕ → Recv)
    → ((i n : ℕ) → 0 < n → peek i n ≡ peek' i n)
    → (f i size : ℕ) → peek_loop peek f i size ≡ peek_loop peek' f i size
unfolding peek_loop
peek_loop_same peek peek' same zero i size = refl
peek_loop_same peek peek' same (suc f) i size =
    same_answer peek peek' f i size (peek' i (size + 2048)) (same i (size + 2048) (omega arith))
      refl (peek_loop_same peek peek' same f (i + 1) (size + 2048))

-- A datagram that waits.
abbrev pub datagram : Text → ℕ → Recvfrom
datagram bytes n = taken (take n bytes)

node_recv-datagram :
    (stale : Bool) (b : ℕ) (bytes : Text) (i n : ℕ)
    → 0 < n
    → node_recv stale (datagram (b ∷ bytes) n) ≡ waiting (b ∷ bytes) i n
unfolding node_recv
node_recv-datagram stale b bytes i zero h = absurd (omega arith)
node_recv-datagram stale b bytes i (suc n) h = refl

receive-datagram :
    (stale : Bool) (bytes : Text) (fresh : ℕ → ℕ → ℕ) (f : ℕ) (p : PacketEntity)
    → 0 < length bytes
    → receive (λ i n. node_recv stale (datagram bytes n)) fresh f p false
      ≡ receive (waiting bytes) fresh f p false
unfolding receive
receive-datagram stale [] fresh f p h = absurd (omega arith)
receive-datagram stale (b ∷ bytes) fresh f p h =
    ap (λ o. o >>= λ r. some (take_in fresh p false r.0 r.1))
      (peek_loop_same (λ i n. node_recv stale (datagram (b ∷ bytes) n)) (waiting (b ∷ bytes))
        (node_recv-datagram stale b bytes) f 0 0)

-- A node receives the value that a datagram encodes, and its sender, and its state does not change.
-- The encoding is shorter than 2 GiB, and the fuel is more than its length.
pub node_receive-datagram :
    (stale : Bool) (v : Value) (fresh : ℕ → ℕ → ℕ) (f : ℕ) (p : PacketEntity) (sender : Text)
    → length (encode v) < 2 ^ 31
    → length (encode v) < f
    → node_receive stale (datagram (encode v)) sender fresh f p ≡ some (p, some v, sender)
unfolding node_receive
node_receive-datagram stale v fresh f p sender h k =
    let whole : encode v ++ [] ≡ encode v = append-nil (encode v) in
    let got : receive (waiting (encode v)) fresh f p false
        ≡ some (done (receipt p false v (length (encode v)))) =
      subst
        (λ bytes.
          receive (waiting bytes) fresh f p false
          ≡ some (done (receipt p false v (length (encode v)))))
        whole (receive-encode v [] fresh f p false h (rw whole k)) in
    rw (receive-datagram stale (encode v) fresh f p (omega (arith, le-length-encode v)), got)

-- The answer of a server.
abbrev pub reply : Text → Value
reply identifier =
    add_pair (make (text "response") (text "server-info") []) (text "server-name") identifier

short : length (encode detect_servers) + 2048 < 2 ^ 31
unfolding make add_pairs encode le32 size text
short = omega arith

server_answers :
    (identifier : Text) → discovery_cycle identifier (some detect_servers) ≡ reply identifier ∷ []
unfolding discovery_cycle process_received_value make add_pairs key content text str_eq
server_answers identifier = refl

client_detects :
    (detected : DiscoveryClient) (identifier ip : Text)
    → client_cycle detected (some (reply identifier)) ip
      ≡ detected ++ (record { name = identifier; ip = ip } ∷ [])
unfolding client_cycle process_response make add_pairs add_pair add push_back sub find_key key
    content text str_eq
client_detects detected identifier ip = refl

-- `sendto` takes a datagram whole.
abbrev pub whole : ℕ → ℕ → ℕ
whole i n = n

-- The client in its rounds takes in the answers, each of which is sent as one datagram.
unfoldable pub answers_arrive :
    Bool
    → (ℕ → ℕ → ℕ)
    → ℕ
    → Text
    → PacketEntity
    → DiscoveryClient
    → List Value
    → Option (PacketEntity × DiscoveryClient)
answers_arrive stale fresh f server_ip p detected [] = some (p, detected)
answers_arrive stale fresh f server_ip p detected (v ∷ vs) = do
  (bytes, _) ← send whole f v
  (p', detected') ← client_node_cycle detected stale (datagram bytes) server_ip fresh f p
  answers_arrive stale fresh f server_ip p' detected' vs

-- A search: `detectServers` of the client `p`, a round of the server `q` that the request reaches, and
-- the rounds of the client that its answers reach.
unfoldable pub search :
    Bool
    → (ℕ → ℕ → ℕ)
    → ℕ
    → Text
    → Text
    → Text
    → PacketEntity
    → PacketEntity
    → DiscoveryClient
    → Option (PacketEntity × PacketEntity × DiscoveryClient)
search stale fresh f identifier client_ip server_ip p q detected = do
  (request, _) ← send whole f detect_servers
  (q', replies) ← server_node_cycle identifier stale (datagram request) client_ip fresh f q
  (p', detected') ← answers_arrive stale fresh f server_ip p detected replies
  some (p', q', detected')

send-whole :
    (f : ℕ) (v : Value)
    → length (encode v) < f
    → length (encode v) + 2048 < 2 ^ 31
    → send whole f v ≡ some (encode v, true)
send-whole f v fuel short = send-encode whole f v (λ i n. omega arith) fuel short (λ i n h. h)

-- A client that searches finds a server: over the datagrams that `PacketEntity::send` writes and
-- `DiscoveryNode::receive` reads, the server that the request reaches answers it once, and the answer
-- puts the name of the server, with the address that its datagram comes from, behind the servers that
-- the client knows. Neither node changes its state. Each datagram is taken whole and reaches the other
-- node; the answer is 2 KiB shorter than 2 GiB, and the fuel is more than the lengths.
pub discover :
    (stale : Bool) (fresh : ℕ → ℕ → ℕ) (f : ℕ) (p q : PacketEntity)
    (identifier client_ip server_ip : Text) (detected : DiscoveryClient)
    → length (encode (reply identifier)) + 2048 < 2 ^ 31
    → length (encode (reply identifier)) < f
    → length (encode detect_servers) < f
    → search stale fresh f identifier client_ip server_ip p q detected
      ≡ some (p, q, detected ++ (record { name = identifier; ip = server_ip } ∷ []))
unfolding search answers_arrive server_node_cycle client_node_cycle
discover stale fresh f p q identifier client_ip server_ip detected h k l = rw (
  send-whole f detect_servers l short,
  node_receive-datagram stale detect_servers fresh f q client_ip (omega (arith, short)) l,
  server_answers identifier,
  send-whole f (reply identifier) k h,
  node_receive-datagram stale (reply identifier) fresh f p server_ip (omega (arith, h)) k,
  client_detects detected identifier server_ip,
)
