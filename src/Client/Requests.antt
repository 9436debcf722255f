-- ===== src/Client/Requests.antt =====
-- The requests of client/src/MDClient.cpp, answered by macdetectd/src/Daemon.cpp.
use mathlib.Core.Path.{subst}
use macdetect.Base.{
  str_eq_refl, ap, ◌∙◌, arith, true, ℕ, false, ◌&&◌, ◌||◌, [], ◌∷◌, some, Text, text, str_eq, ◌==◌,
  ◌≡◌,
}
use macdetect.Doubles.{Doubles}
use macdetect.Value.{
  Value, value, nil, cons, key, content, add, add_pair, add_pairs, make, set, push_back, sub,
}
use macdetect.Server.{QueuedValue, Sent}
use macdetect.Daemon.Streams.{stream_enabled}
use macdetect.Daemon.Requests.{
  response, serving_device, answer_request, answer_enable, answer_disable, handle_value,
  handle_values, result,
}
use macdetect.Daemon.RequestLaws.{answer_enable_follows}
use macdetect.Daemon.Replies.{IsReply, handle_value-IsReply}
use macdetect.Daemon.{Daemon}
use macdetect.Client.{request_enable_stream, request_disable_stream}

-- A value of a client, as the server queues it.
abbrev pub queued : Value → ℕ → ℕ → QueuedValue
queued v served id = record { value = v; served = served; serving_id = id }

abbrev pub named : Text → Value
named name = value (text "device-name") name nil

-- The answer with a result.
abbrev pub answer : Text → Text → Text → Value
answer request outcome name = value (text "response") request (cons (result outcome name) nil)

module _ {D : Type 0} (dbl : Doubles D) (d : Daemon D) (served id : ℕ) (name : Text) where
  -- `requestEnableStream`, from a client that does not follow the device of its serving socket: the
  -- client gets one response, of success, and afterwards it follows the named device; what else it
  -- and the other clients follow is as before.
  pub request_enable_stream_follows :
      stream_enabled d.streams served (serving_device d.server id) ≡ false
      → (d' : Daemon D) × (handle_value dbl d (queued (request_enable_stream name) served id)
          ≡ some (d', (served, answer (text "enable-stream") (text "success") name) ∷ []))
        × ((j : ℕ) (other : Text)
            → stream_enabled d'.streams j other
              ≡ (served == j && str_eq name other || stream_enabled d.streams j other))
  unfolding handle_value answer_request request_enable_stream response answer_enable set text str_eq
      add add_pair make add_pairs push_back sub key content
  request_enable_stream_follows off = (
    (answer_enable d (queued (request_enable_stream name) served id) (some (named name))).0,
    rw off,
    λ j other.
        answer_enable_follows dbl d (queued (request_enable_stream name) served id) (named name) off
          j other,
  )

  -- `requestDisableStream`, from a client that does not follow the device of its serving socket: the
  -- daemon is as before, and the client gets one response, that the stream is disabled already.
  pub request_disable_stream_other :
      stream_enabled d.streams served (serving_device d.server id) ≡ false
      → handle_value dbl d (queued (request_disable_stream name) served id)
        ≡ some (d, (served, answer (text "disable-stream") (text "already-disabled") name) ∷ [])
  unfolding handle_value answer_request request_disable_stream response answer_disable set text
      str_eq add add_pair make add_pairs push_back sub key content
  request_disable_stream_other off = rw off

module _ {D : Type 0} (dbl : Doubles D) where
  same_server :
      (d : Daemon D) (q : QueuedValue) (d' : Daemon D) (sent : Sent)
      → handle_value dbl d q ≡ some (d', sent)
      → d'.server ≡ d.server
  same_server d q d' sent e = (subst (IsReply d) e (handle_value-IsReply dbl d q)).0.0

  -- `requestDisableStream` does not undo `requestEnableStream`, if the named device is not that of the
  -- serving socket, and the client does not follow the latter: the daemon answers the first request
  -- with success and the second one with "already disabled", and the client still follows the device.
  pub request_disable_stream_keeps :
      (d : Daemon D) (served id : ℕ) (name : Text)
      → stream_enabled d.streams served (serving_device d.server id) ≡ false
      → str_eq name (serving_device d.server id) ≡ false
      → (d' : Daemon D) × (handle_values dbl d (
            queued (request_enable_stream name) served id
            ∷ queued (request_disable_stream name) served id
            ∷ [])
          ≡ some (
            d',
            (served, answer (text "enable-stream") (text "success") name)
                ∷ (served, answer (text "disable-stream") (text "already-disabled") name)
                ∷ [],
          ))
        × (stream_enabled d'.streams served name ≡ true)
  unfolding handle_values
  request_disable_stream_keeps d served id name off elsewhere =
      let (d', enabled, follows) = request_enable_stream_follows dbl d served id name off in
      let here = serving_device d.server id in
      let same = ap (λ s. serving_device s id) (same_server d _ d' _ enabled) in
      let still : stream_enabled d'.streams served here ≡ false =
        ground (arith, follows served here, off, elsewhere) in
      let off' = ap (stream_enabled d'.streams served) same ∙ still in
      (
        d',
        rw (enabled, request_disable_stream_other dbl d' served id name off'),
        ground (arith, follows served name, str_eq_refl name),
      )
