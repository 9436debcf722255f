-- ===== src/Daemon/Keeping.antt =====
-- The parts of `Daemon::cycle` in macdetectd/src/Daemon.cpp keep the clients of the streams connected.
-- `c` gives how often a client is connected.
use macdetect.Base.{
  ℕ, ◌<◌, Bool, true, false, List, [], ◌∷◌, Option, none, some, text, str_eq, ◌≡◌, inl, inr,
  Bool-cases, Option-cases, All, if◌then◌else◌,
}
use mathlib.Core.Path.{subst}
use macdetect.Doubles.{Doubles}
use macdetect.Value.{Value, key, content, sub}
use macdetect.Event.{Event}
use macdetect.Network.System.{System}
use macdetect.Server.{Server, QueuedValue, Sent}
use macdetect.Daemon.Streams.{stream_enabled}
use macdetect.Daemon.Requests.{
  serving_device, answer_mac_evidence, answer_enable, answer_disable, answer_request, handle_value,
  handle_values, response,
}
use macdetect.Daemon.Notices.{handle_event, handle_events}
use macdetect.Daemon.Cycle.{keep_alive}
use macdetect.Daemon.Owners.{
  AllOwned, enable_stream-AllOwned, disable_stream-AllOwned, end_streams-AllOwned,
}
use macdetect.Daemon.{Daemon}

module _ (c : ℕ → ℕ) {D : Type 0} (server : Server) where
  -- The server is as it was, and each stream is that of a connected client.
  abbrev pub IsKept : Daemon D → Type 0
  IsKept d = (d.server ≡ server) × AllOwned c d.streams

  abbrev pub IsKeptIfAny : Option (Daemon D × Sent) → Type 0
  IsKeptIfAny none = Unit {0}
  IsKeptIfAny (some r) = IsKept r.0

  answer_mac_evidence-IsKept :
      (d : Daemon D) (mac : Option Value) → IsKept d → IsKept (answer_mac_evidence d mac).0
  unfolding answer_mac_evidence
  answer_mac_evidence-IsKept d none h = h
  answer_mac_evidence-IsKept d (some mac) h = h

  answer_enable-IsKept :
      (d : Daemon D) (q : QueuedValue) (device : Option Value)
      → 0 < c q.served
      → IsKept d
      → IsKept (answer_enable d q device).0
  unfolding answer_enable
  answer_enable-IsKept d q none on h = h
  answer_enable-IsKept d q (some device) on h =
      elim (Bool-cases (stream_enabled d.streams q.served (serving_device d.server q.serving_id))) [
        | inl old ↦ rw old h
        | inr new ↦
            rw new (h.0, enable_stream-AllOwned c d.streams q.served (content device) on h.1)
      ]

  answer_disable-IsKept :
      (d : Daemon D) (q : QueuedValue) (device : Option Value)
      → IsKept d
      → IsKept (answer_disable d q device).0
  unfolding answer_disable
  answer_disable-IsKept d q none h = h
  answer_disable-IsKept d q (some device) h =
      let here = serving_device d.server q.serving_id in
      elim (Bool-cases (stream_enabled d.streams q.served here)) [
        | inl on ↦ rw on (h.0, disable_stream-AllOwned c d.streams q.served here h.1)
        | inr off ↦ rw off h
      ]

  branch-IsKept :
      (b : Bool) (x y : Daemon D × Value) → IsKept x.0 → IsKept y.0 → IsKept (if b then x else y).0
  branch-IsKept true x y h k = h
  branch-IsKept false x y h k = k

  answer_request-IsKept :
      (dbl : Doubles D) (d : Daemon D) (q : QueuedValue)
      → 0 < c q.served
      → IsKept d
      → IsKept (answer_request dbl d q).0
  unfolding answer_request
  answer_request-IsKept dbl d q on h =
      let request = content q.value in
      branch-IsKept (str_eq request (text "devices-list")) _ _ h (
        branch-IsKept (str_eq request (text "known-mac-addresses")) _ _ h (
          branch-IsKept (str_eq request (text "mac-evidence")) _ _
            (answer_mac_evidence-IsKept d (sub q.value (text "mac-address")) h)
            (branch-IsKept (str_eq request (text "enable-stream")) _ _
              (answer_enable-IsKept d q (sub q.value (text "device-name")) on h)
              (branch-IsKept (str_eq request (text "disable-stream")) _ _
                (answer_disable-IsKept d q (sub q.value (text "device-name")) h) h))))

  handle_value-IsKept :
      (dbl : Doubles D) (d : Daemon D) (q : QueuedValue)
      → 0 < c q.served
      → IsKept d
      → IsKeptIfAny (handle_value dbl d q)
  unfolding handle_value response
  handle_value-IsKept dbl d q on h = elim (Bool-cases (str_eq (key q.value) (text "request"))) [
    | inl request ↦ rw request (answer_request-IsKept dbl d q on h)
    | inr other ↦ rw other tt
  ]

  pub handle_values-IsKept :
      (dbl : Doubles D) (d : Daemon D) (qs : List QueuedValue)
      → All (λ q. 0 < c q.served) qs
      → IsKept d
      → IsKeptIfAny (handle_values dbl d qs)
  unfolding handle_values
  handle_values-IsKept dbl d [] on h = h
  handle_values-IsKept dbl d (q ∷ qs) on h = elim (Option-cases (handle_value dbl d q)) [
    | inl bad ↦ rw (handle_values, bad) tt
    | inr (r, good) ↦
        let kept = subst IsKeptIfAny good (handle_value-IsKept dbl d q on.0 h) in
        let rest = handle_values-IsKept dbl r.0 qs on.1 kept in
        elim (Option-cases (handle_values dbl r.0 qs)) [
          | inl bad ↦ rw (handle_values, good, bad) tt
          | inr (r', fine) ↦ rw (handle_values, good, fine) (subst IsKeptIfAny fine rest)
        ]
  ]

  handle_event-IsKept :
      (sys : System D) (d : Daemon D) (e : Event) → IsKept d → IsKept (handle_event sys d e).0
  unfolding handle_event
  handle_event-IsKept sys d e h =
      (h.0, end_streams-AllOwned c e.event_type e.device_name d.streams h.1)

  pub handle_events-IsKept :
      (sys : System D) (d : Daemon D) (es : List Event)
      → IsKept d
      → IsKept (handle_events sys d es).0
  unfolding handle_events
  handle_events-IsKept sys d [] h = h
  handle_events-IsKept sys d (e ∷ es) h =
      handle_events-IsKept sys (handle_event sys d e).0 es (handle_event-IsKept sys d e h)

  pub keep_alive-IsKept :
      (dbl : Doubles D) (now : D) (d : Daemon D) → IsKept d → IsKept (keep_alive dbl now d).0
  unfolding keep_alive
  keep_alive-IsKept dbl now d h =
      elim (Bool-cases (dbl.gt now (dbl.plus d.last_keep_alive d.keep_alive_interval))) [
        | inl due ↦ rw due h
        | inr early ↦ rw early h
      ]
