-- ===== src/Packet/Channel.antt =====
-- A connection between two `PacketEntity`s of utils/src/PacketEntity.cpp as a queue of values.
use macdetect.Base.{
  ℕ, zero, suc, ◌+◌, ◌^◌, ◌<◌, ◌≡◌, refl, Bool, true, false, List, [], ◌∷◌, Option, none, some,
  Text, length, length-append, take, drop, ◌++◌, ◌>>=◌, arith, All, All-append, append_assoc,
  append-nil, sym, ap, ◌∙◌,
}
use macdetect.Value.{Value}
use macdetect.Value.Encode.{encode, le-length-encode}
use macdetect.Packet.{
  PacketEntity, Recv, received, failed, Outcome, done, overrun, send, peek_loop, take_in, nothing,
  receive,
}
use macdetect.Packet.Send.{Bounded, Progress, send-encode}
use macdetect.Packet.Receive.{waiting, receive-encode}

-- One side sends a value, with the answers of `write`; or the other side calls `receive`.
pub data Action : Type 0 where
  put : (ℕ → ℕ → ℕ) → Value → Action
  get : Action

-- The result of `send`, or the value of `receive`.
pub data Reply : Type 0 where
  sent : Bool → Reply
  taken : Option Value → Reply

-- A socket that does not block: without bytes it gives `EAGAIN`.
abbrev pub socket_with : Text → ℕ → ℕ → Recv
socket_with [] i n = failed true
socket_with (c ∷ cs) i n = received (take n (c ∷ cs))

-- The receiving side, and the bytes that are on their way to it.
pub record Channel : Type 0 where
  pub receiver : PacketEntity
  pub pending : Text

module _ (fresh : ℕ → ℕ → ℕ) (f : ℕ) where
  after_receive : Channel → Outcome → Option (Channel × Reply)
  after_receive c overrun = none
  after_receive c (done r) =
      some (record { receiver = r.entity; pending = drop r.used c.pending }, taken r.value)

  unfoldable pub act : Channel → Action → Option (Channel × Reply)
  unfolding after_receive
  act c (put write v) =
      send write f v >>= λ r. some (record c { pending = c.pending ++ r.0 }, sent r.1)
  act c get = receive (socket_with c.pending) fresh f c.receiver false >>= after_receive c

  -- Calls of both sides, in the order in which they are made.
  unfoldable pub act_each : Channel → List Action → Option (Channel × List Reply)
  act_each c [] = some (c, [])
  act_each c (a ∷ more) = do
    (c', reply) ← act c a
    (c'', replies) ← act_each c' more
    some (c'', reply ∷ replies)

-- What the calls promise: the values that were sent and not received yet wait in a queue.
unfoldable pub queue_each : List Value → List Action → List Value × List Reply
queue_each vs [] = (vs, [])
queue_each vs (put write v ∷ more) =
    let (left, replies) = queue_each (vs ++ (v ∷ [])) more in (left, sent true ∷ replies)
queue_each [] (get ∷ more) =
    let (left, replies) = queue_each [] more in (left, taken none ∷ replies)
queue_each (v ∷ vs) (get ∷ more) =
    let (left, replies) = queue_each vs more in (left, taken (some v) ∷ replies)

abbrev pub encoded : List Value → Text
encoded [] = []
encoded (v ∷ vs) = encode v ++ encoded vs

-- Short enough to be sent and received.
abbrev pub IsShort : Value → Type 0
IsShort v = length (encode v) + 2048 < 2 ^ 31

-- The calls of `write` take a byte or more, and no more than they are given; and the value is short.
abbrev pub IsWritten : Action → Type 0
IsWritten (put write v) = Bounded write × Progress write × IsShort v
IsWritten get = Unit {0}

-- The bytes that the calls send.
abbrev pub load : List Action → ℕ
load [] = 0
load (put write v ∷ more) = length (encode v) + load more
load (get ∷ more) = load more

encoded-append : (vs : List Value) (v : Value) → encoded (vs ++ (v ∷ [])) ≡ encoded vs ++ encode v
encoded-append [] v = append-nil (encode v)
encoded-append (w ∷ vs) v =
    ap (λ l. encode w ++ l) (encoded-append vs v)
    ∙ sym (append_assoc (encode w) (encoded vs) (encode v))

pub socket_with-waiting :
    (pending : Text) → 0 < length pending → socket_with pending ≡ waiting pending
socket_with-waiting [] h = absurd (omega arith)
socket_with-waiting (c ∷ cs) h = refl

pub drop-front : (a b : Text) → drop (length a) (a ++ b) ≡ b
drop-front [] b = ground arith
drop-front (x ∷ a) b = drop-front a b

-- The queue as bytes.
abbrev pub channel : PacketEntity → List Value → Channel
channel p vs = record { receiver = p; pending = encoded vs }

module _ (fresh : ℕ → ℕ → ℕ) (f : ℕ) (p : PacketEntity) where
  act-put :
      (vs : List Value) (write : ℕ → ℕ → ℕ) (v : Value)
      → IsWritten (put write v)
      → length (encode v) < f
      → act fresh f (channel p vs) (put write v) ≡ some (channel p (vs ++ (v ∷ [])), sent true)
  unfolding act
  act-put vs write v h fuel = rw (send-encode write f v h.0 fuel h.2 h.1, encoded-append vs v)

  act-get_nothing : 0 < f → act fresh f (channel p []) get ≡ some (channel p [], taken none)
  unfolding act receive peek_loop take_in nothing
  act-get_nothing fuel =
      elim f as (λ g. 0 < g → act fresh g (channel p []) get ≡ some (channel p [], taken none)) [
        | zero ↦ λ h. absurd (omega arith)
        | suc g ↦ λ h. refl
      ]
        fuel

  act-get :
      (v : Value) (vs : List Value)
      → length (encode v) < 2 ^ 31
      → length (encoded (v ∷ vs)) < f
      → act fresh f (channel p (v ∷ vs)) get ≡ some (channel p vs, taken (some v))
  unfolding act
  act-get v vs short fuel =
      let long : 0 < length (encode v ++ encoded vs) =
        omega (arith, length-append (encode v) (encoded vs), le-length-encode v) in
      rw (
        socket_with-waiting (encode v ++ encoded vs) long,
        receive-encode v (encoded vs) fresh f p false short fuel,
        drop-front (encode v) (encoded vs),
      )

  -- The bytes between two entities are a queue of values: whatever the two sides do, one after the
  -- other, each value that was sent is received once, whole and in order, `receive` gives no value
  -- exactly if none waits, and each `send` returns true. The bytes of a value are there when it is
  -- received; a call of `write` takes a byte or more, and no more than it is given; the values are 2
  -- KiB shorter than 2 GiB; and the number of all bytes is less than the fuel.
  pub act_each-queue_each :
      (vs : List Value) (actions : List Action)
      → All IsShort vs
      → All IsWritten actions
      → length (encoded vs) + load actions < f
      → act_each fresh f (channel p vs) actions
        ≡ some (channel p (queue_each vs actions).0, (queue_each vs actions).1)
  unfolding act_each queue_each
  act_each-queue_each vs [] s h fuel = refl
  act_each-queue_each vs (put write v ∷ more) s h fuel =
      let longer = ap length (encoded-append vs v) ∙ length-append (encoded vs) (encode v) in
      rw (
        act-put vs write v h.0 (omega arith),
        act_each-queue_each (vs ++ (v ∷ [])) more (All-append IsShort vs (v ∷ []) s (h.0.2, tt)) h.1
            (omega (arith, longer)),
      )
  act_each-queue_each [] (get ∷ more) s h fuel =
      rw (act-get_nothing (omega arith), act_each-queue_each [] more s h.1 fuel)
  act_each-queue_each (v ∷ vs) (get ∷ more) s h fuel =
      let all = length-append (encode v) (encoded vs) in
      rw (
        act-get v vs (omega (arith, s.0)) (omega arith),
        act_each-queue_each vs more s.1 h.1 (omega (arith, all)),
      )
