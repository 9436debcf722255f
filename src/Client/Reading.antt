-- ===== src/Client/Reading.antt =====
-- `MDClient::receive` of client/src/MDClient.cpp on the bytes that macdetectd/src/Daemon.cpp sends to
-- a client.
use macdetect.Base.{
  ℕ, zero, suc, ◌<◌, true, false, List, [], ◌∷◌, ◌++◌, map, Option, none, some, Text, length,
  length-append, append-nil, append_assoc, drop, ◌>>=◌, All, ◌≡◌, refl, sym, ap, ◌∙◌, inr, arith,
}
use macdetect.Doubles.{Doubles}
use macdetect.Value.{Value}
use macdetect.Value.Encode.{encode, le-length-encode}
use macdetect.Packet.{PacketEntity, done, overrun, receive as packet_receive}
use macdetect.Packet.Send.{Bounded, Progress}
use macdetect.Packet.Receive.{receive-encode}
use macdetect.Packet.Channel.{
  Action, put, sent as was_sent, Channel, channel, act_each, queue_each, socket_with, encoded,
  IsShort, IsWritten, load, act_each-queue_each, socket_with-waiting, drop-front,
}
use macdetect.Server.{Sent}
use macdetect.Network.Tracking.{Inv}
use macdetect.Daemon.Fold.{values_to, read_values, read_all-values_to}
use macdetect.Daemon.View.{track}
use macdetect.Daemon.Knows.{macs}
use macdetect.Daemon.History.{Followed, start, round, track_all-Followed}
use macdetect.Daemon.DeviceView.{track_names}
use macdetect.Daemon.DeviceNews.{device_names, Connected, start, round, read_names-Connected}
use macdetect.Daemon.{Daemon}
use macdetect.Client.Laws.{receive_lem}
use macdetect.Client.{Reception, receive}

module _ (g : ℕ) (fresh : ℕ → ℕ → ℕ) (f : ℕ) where
  -- A blocking `MDClient::receive`, while no more bytes come: a call of `PacketEntity::receive` that
  -- gives nothing changes nothing, so each one gives the same until the loop ends. `g` and `f` are the
  -- fuel of the two loops.
  unfoldable pub receive_here : Channel → Option (Channel × Option Value)
  receive_here c = do
    outcome ← packet_receive (socket_with c.pending) fresh f c.receiver false
    elim outcome [
      | overrun ↦ none
      | done r ↦
          receive g (λ i. record { value = r.value; disconnected = r.disconnected }) true >>= λ a.
          some (record { receiver = r.entity; pending = drop r.used c.pending }, a.0)
    ]

  -- The values of some calls.
  unfoldable pub receive_each : ℕ → Channel → Option (Channel × List (Option Value))
  receive_each zero c = some (c, [])
  receive_each (suc n) c = do
    (c', v) ← receive_here c
    (c'', vs) ← receive_each n c'
    some (c'', v ∷ vs)

  receive_here-front :
      (p : PacketEntity) (v : Value) (vs : List Value)
      → 0 < g
      → IsShort v
      → length (encoded (v ∷ vs)) < f
      → receive_here (channel p (v ∷ vs)) ≡ some (channel p vs, some v)
  unfolding receive_here
  receive_here-front p v vs fuel short total =
      let long : 0 < length (encode v ++ encoded vs) =
        omega (arith, length-append (encode v) (encoded vs), le-length-encode v) in
      let call : Reception = record { value = some v; disconnected = false } in
      let first : receive g (λ i. call) true ≡ some (some v, false, 1) =
        (receive_lem g 0 (λ i. call) fuel (λ j l. absurd (omega arith)) (inr (v, refl, refl))).0 in
      rw (
        socket_with-waiting (encode v ++ encoded vs) long,
        receive-encode v (encoded vs) fresh f p false (omega (arith, short)) total,
        first,
        drop-front (encode v) (encoded vs),
      )

  -- As many calls as values wait give these values.
  receive_each-encoded :
      (p : PacketEntity) (vs : List Value)
      → 0 < g
      → All IsShort vs
      → length (encoded vs) < f
      → receive_each (length vs) (channel p vs) ≡ some (channel p [], map some vs)
  unfolding receive_each
  receive_each-encoded p [] fuel short total = refl
  receive_each-encoded p (v ∷ vs) fuel short total =
      let all = length-append (encode v) (encoded vs) in
      rw (
        receive_here-front p v vs fuel short.0 total,
        receive_each-encoded p vs fuel short.1 (omega (arith, all)),
      )

-- A value is sent after another one.
abbrev pub sends : (ℕ → ℕ → ℕ) → List Value → List Action
sends write vs = map (put write) vs

queue_each-sends :
    (write : ℕ → ℕ → ℕ) (vs ws : List Value)
    → queue_each vs (sends write ws) ≡ (vs ++ ws, map (λ w. was_sent true) ws)
unfolding queue_each
queue_each-sends write vs [] = ap (λ l. (l, [])) (sym (append-nil vs))
queue_each-sends write vs (w ∷ ws) =
    rw (queue_each-sends write (vs ++ (w ∷ [])) ws)
      (ap (λ l. (l, was_sent true ∷ map (λ x. was_sent true) ws)) (append_assoc vs (w ∷ []) ws))

load-sends : (write : ℕ → ℕ → ℕ) (vs : List Value) → load (sends write vs) ≡ length (encoded vs)
load-sends write [] = omega arith
load-sends write (v ∷ vs) =
    omega (arith, load-sends write vs, length-append (encode v) (encoded vs))

sends-IsWritten :
    (write : ℕ → ℕ → ℕ) (vs : List Value)
    → Bounded write
    → Progress write
    → All IsShort vs
    → All IsWritten (sends write vs)
sends-IsWritten write [] b p s = tt
sends-IsWritten write (v ∷ vs) b p s = ((b, p, s.0), sends-IsWritten write vs b p s.1)

-- The values that a client gets, as bytes: each one is sent completely, and as many calls of
-- `MDClient::receive` give all of them, in their order.
receive_each-sends :
    (g : ℕ) (fresh : ℕ → ℕ → ℕ) (f : ℕ) (p : PacketEntity) (write : ℕ → ℕ → ℕ) (vs : List Value)
    → Bounded write
    → Progress write
    → All IsShort vs
    → 0 < g
    → length (encoded vs) < f
    → (c : Channel) × (act_each fresh f (channel p []) (sends write vs)
        ≡ some (c, map (λ v. was_sent true) vs))
      × (receive_each g fresh f (length vs) c ≡ some (channel p [], map some vs))
receive_each-sends g fresh f p write vs b progress short loops total = (
  channel p vs,
  act_each-queue_each fresh f p [] (sends write vs) tt (sends-IsWritten write vs b progress short)
        (omega (arith, load-sends write vs))
      ∙ ap (λ r. some (channel p r.0, r.1)) (queue_each-sends write [] vs),
  receive_each-encoded g fresh f p vs loops short total,
)

-- A client that follows a device behind each round stands among the clients all the time.
Followed-Connected :
    {D : Type 0} (dbl : Doubles D) (h : ℕ) (name : Text) {d e : Daemon D} {sent : Sent}
    → Followed dbl h name d sent e
    → Connected dbl h d sent e
Followed-Connected dbl h name start = start
Followed-Connected dbl h name (round before env t turned on clock follows) =
    round (Followed-Connected dbl h name before) env t turned on follows.once

-- From the network to the client library, through the bytes between them: over any number of rounds
-- of the daemon that go on, behind each of which a client follows a device, `send` hands over all the
-- values for the client completely, and as many calls of `MDClient::receive` give values from which
-- the client knows exactly the addresses on the device and the names of all devices, if it knew them
-- at the start. A call of `write` takes a byte or more, and no more than it is given; the values are
-- 2 KiB shorter than 2 GiB; `g` and `f` are fuel enough; the client stands among the clients once
-- behind each round; the invariant of the seen addresses holds at the start, and the clock never
-- shows the time that means "unknown".
pub receive_each-Followed :
    {D : Type 0} (dbl : Doubles D) (h : ℕ) (name : Text) {d e : Daemon D} {sent : Sent} (g : ℕ)
    (fresh : ℕ → ℕ → ℕ) (f : ℕ) (p : PacketEntity) (write : ℕ → ℕ → ℕ)
    → Followed dbl h name d sent e
    → Inv dbl d.network
    → Bounded write
    → Progress write
    → All IsShort (values_to h sent)
    → 0 < g
    → length (encoded (values_to h sent)) < f
    → (c : Channel) × (vs : List Value) × (act_each fresh f
          (channel p [])
          (sends write (values_to h sent))
        ≡ some (c, map (λ v. was_sent true) vs))
      × (receive_each g fresh f (length (values_to h sent)) c ≡ some (channel p [], map some vs))
      × (read_values (track name) (macs h name d) vs ≡ macs h name e)
      × (read_values track_names (device_names d) vs ≡ device_names e)
receive_each-Followed dbl h name {d} {e} {sent} g fresh f p write rounds v b progress short loops
      total =
    let vs = values_to h sent in
    let (c, sends_all, receives_all) =
      receive_each-sends g fresh f p write vs b progress short loops total in
    (
      c,
      vs,
      sends_all,
      receives_all,
      sym (read_all-values_to (track name) h (macs h name d) sent)
          ∙ (track_all-Followed dbl h name rounds v).0,
      sym (read_all-values_to track_names h (device_names d) sent)
          ∙ read_names-Connected dbl h (Followed-Connected dbl h name rounds),
    )
