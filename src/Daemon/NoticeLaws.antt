-- ===== src/Daemon/NoticeLaws.antt =====
-- Which clients get the notice of an event, in the third loop of `Daemon::cycle` of
-- macdetectd/src/Daemon.cpp.
use macdetect.Base.{
  ℕ, Bool, true, false, ◌&&◌, ◌||◌, List, [], ◌∷◌, map, Text, str_eq, ◌==◌, any, ◌≡◌, refl, ap, ◌∙◌,
  Bool-cases, inl, inr, arith,
}
use macdetect.Event.{
  EventType, device_added, device_removed, device_state_changed, mac_address_discovered,
  mac_address_disappeared, device_evidence_changed, mac_evidence_changed, Event,
}
use macdetect.Network.System.{System}
use macdetect.Value.{Value}
use macdetect.Server.{Sent}
use macdetect.Daemon.Streams.{stream_enabled}
use macdetect.Daemon.Notices.{audience, receivers, end_streams, notice, handle_event}
use macdetect.Daemon.{Stream, Daemon}

-- The events about an address.
abbrev pub is_mac_event : EventType → Bool
is_mac_event mac_address_discovered = true
is_mac_event mac_address_disappeared = true
is_mac_event mac_evidence_changed = true
is_mac_event device_added = false
is_mac_event device_removed = false
is_mac_event device_state_changed = false
is_mac_event device_evidence_changed = false

abbrev pub gets : ℕ → Sent → Bool
gets h sent = any (λ s. s.0 == h) sent

abbrev pub is_served : ℕ → List (ℕ × ℕ) → Bool
is_served h clients = any (λ c. c.0 == h) clients

gets-receivers :
    (streams : List Stream) (name : Text) (v : Value) (h : ℕ) (clients : List (ℕ × ℕ))
    → gets h (map (λ c. (c.0, v)) (receivers streams name clients))
      ≡ ((str_eq name [] || stream_enabled streams h name) && is_served h clients)
unfolding receivers
gets-receivers streams name v h [] = ground arith
gets-receivers streams name v h (c ∷ clients) =
    let ih = gets-receivers streams name v h clients in
    elim (Bool-cases (str_eq name [] || stream_enabled streams c.0 name)) [
      | inl on ↦ elim (Bool-cases (c.0 == h)) [
        | inr other ↦ rw (on, other) ih
        | inl same ↦
            let e : h ≡ c.0 = ground (arith, same) in
            let there = ap (λ k. str_eq name [] || stream_enabled streams k name) e ∙ on in
            rw (on, same, there)
      ]
      | inr off ↦ elim (Bool-cases (c.0 == h)) [
        | inr other ↦ rw (off, other) ih
        | inl same ↦
            let e : h ≡ c.0 = ground (arith, same) in
            let there = ap (λ k. str_eq name [] || stream_enabled streams k name) e ∙ off in
            rw (off, there) (ih ∙ ap (λ b. b && is_served h clients) there)
      ]
    ]

mac_event_streams :
    (t : EventType) (name : Text) (streams : List Stream)
    → is_mac_event t ≡ true
    → (end_streams t name streams ≡ (streams, [])) × (audience t name ≡ name)
unfolding end_streams audience
mac_event_streams mac_address_discovered name streams h = (refl, refl)
mac_event_streams mac_address_disappeared name streams h = (refl, refl)
mac_event_streams mac_evidence_changed name streams h = (refl, refl)
mac_event_streams device_added name streams h = cc
mac_event_streams device_removed name streams h = cc
mac_event_streams device_state_changed name streams h = cc
mac_event_streams device_evidence_changed name streams h = cc

-- The notice of an event about an address goes to exactly the clients that follow its device, to all
-- if the name of the device is empty, and the streams stay as they are.
pub handle_event_mac :
    {D : Type 0} (sys : System D) (d : Daemon D) (e : Event) (h : ℕ)
    → is_mac_event e.event_type ≡ true
    → (gets h (handle_event sys d e).1 ≡ (
        (str_eq e.device_name [] || stream_enabled d.streams h e.device_name)
        && is_served h d.server.served))
      × ((handle_event sys d e).0.streams ≡ d.streams)
unfolding handle_event
handle_event_mac sys d e h mac =
    let (kept, about) = mac_event_streams e.event_type e.device_name d.streams mac in
    (
      rw (kept, about)
          (gets-receivers d.streams e.device_name (notice sys d.network e.event_type e) h
            d.server.served),
      rw kept,
    )
