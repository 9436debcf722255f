-- ===== src/Daemon/Delivery.antt =====
-- The notices of macdetectd/src/Daemon.cpp reach the clients that follow a device, each once.
use macdetect.Base.{
  ℕ, true, false, ◌||◌, List, [], ◌∷◌, map, Text, text, str_eq, str_eq_iff, ◌==◌, if◌then◌else◌,
  length, All, ◌≡◌, refl, sym, ap, ◌∙◌, Bool-cases, inl, inr, arith,
}
use macdetect.Value.{Value, key, content, set, make, add_pairs, add_pair, add, push_back}
use macdetect.Event.{
  EventType, device_added, device_removed, device_state_changed, mac_address_discovered,
  mac_address_disappeared, device_evidence_changed, mac_evidence_changed, Event,
}
use macdetect.Network.System.{System}
use macdetect.Network.Evidence.{or_else}
use macdetect.Network.{Network}
use macdetect.Server.{Sent}
use macdetect.Server.Connections.{connections}
use macdetect.Daemon.Streams.{stream_enabled, erase_streams}
use macdetect.Daemon.Fold.{read_all, read_copies_quiet, read_copies_once}
use macdetect.Daemon.Notices.{notice, audience, receivers, of_device, stream_disabled, end_streams}
use macdetect.Daemon.View.{track, track_all, follow_on, track-notice}
use macdetect.Daemon.{Stream}

pub connections-receivers :
    (streams : List Stream) (name : Text) (h : ℕ) (clients : List (ℕ × ℕ))
    → connections h (receivers streams name clients)
      ≡ (if str_eq name [] || stream_enabled streams h name then connections h clients else 0)
unfolding receivers connections
connections-receivers streams name h [] = ground arith
connections-receivers streams name h ((c, id) ∷ clients) =
    let ih = connections-receivers streams name h clients in
    elim (Bool-cases (c == h)) [
      | inl same ↦
          let e : h ≡ c = ground (arith, same) in
          let f : stream_enabled streams h name ≡ stream_enabled streams c name =
            ap (λ k. stream_enabled streams k name) e in
          ground (arith, ih, f)
      | inr other ↦ ground (arith, ih, other)
    ]

-- A value that tells nothing of any address.
abbrev pub IsSilent : ℕ × Value → Type 0
IsSilent s = (name : Text) (ms : List Text) → track name ms s.1 ≡ ms

pub track_all-IsSilent :
    (h : ℕ) (name : Text) (ms : List Text) (sent : Sent)
    → All IsSilent sent
    → track_all h name ms sent ≡ ms
unfolding read_all
track_all-IsSilent h name ms [] silent = refl
track_all-IsSilent h name ms ((c, v) ∷ sent) silent = elim (Bool-cases (c == h)) [
  | inl same ↦ rw (read_all, same, silent.0 name ms) (track_all-IsSilent h name ms sent silent.1)
  | inr other ↦ rw (read_all, other) (track_all-IsSilent h name ms sent silent.1)
]

pub copies-IsSilent :
    {A : Type 0} (to : A → ℕ) (v : Value) (xs : List A)
    → IsSilent (0, v)
    → All IsSilent (map (λ x. (to x, v)) xs)
copies-IsSilent to v [] h = tt
copies-IsSilent to v (x ∷ xs) h = (h, copies-IsSilent to v xs h)

stream_disabled-IsSilent : (dev : Text) → IsSilent (0, stream_disabled dev)
unfolding stream_disabled track text str_eq key content set make add_pairs add_pair add push_back
stream_disabled-IsSilent dev name ms = ground arith

pub end_streams-IsSilent :
    (t : EventType) (dev : Text) (streams : List Stream)
    → All IsSilent (end_streams t dev streams).1
unfolding end_streams
end_streams-IsSilent device_removed dev streams =
    copies-IsSilent (λ (s : Stream). s.served) (stream_disabled dev)
      (erase_streams (of_device dev) (length streams) streams).1 (stream_disabled-IsSilent dev)
end_streams-IsSilent device_added dev streams = tt
end_streams-IsSilent device_state_changed dev streams = tt
end_streams-IsSilent mac_address_discovered dev streams = tt
end_streams-IsSilent mac_address_disappeared dev streams = tt
end_streams-IsSilent device_evidence_changed dev streams = tt
end_streams-IsSilent mac_evidence_changed dev streams = tt

module _ {D : Type 0} (sys : System D) where
  -- The notices of an event, as they are sent.
  abbrev pub told : Network D → List Stream → List (ℕ × ℕ) → EventType → Event → Sent
  told n streams clients t e =
      map (λ c. (c.0, notice sys n t e)) (receivers streams (audience t e.device_name) clients)

  told_other :
      (n : Network D) (streams : List Stream) (clients : List (ℕ × ℕ)) (h : ℕ) (name : Text)
      (ms : List Text) (t : EventType) (e : Event)
      → follow_on name ms t e.device_name (or_else e.mac_address []) ≡ ms
      → track_all h name ms (told n streams clients t e)
        ≡ follow_on name ms t e.device_name (or_else e.mac_address [])
  told_other n streams clients h name ms t e quiet =
      read_copies_quiet (track name) h ms (notice sys n t e)
        (receivers streams (audience t e.device_name) clients)
        (track-notice sys n name ms e t ∙ quiet)
      ∙ sym quiet

  told_once :
      (n : Network D) (streams : List Stream) (clients : List (ℕ × ℕ)) (h : ℕ) (name : Text)
      (ms : List Text) (t : EventType) (e : Event)
      → connections h clients ≡ 1
      → stream_enabled streams h name ≡ true
      → audience t e.device_name ≡ name
      → track_all h name ms (told n streams clients t e)
        ≡ follow_on name ms t e.device_name (or_else e.mac_address [])
  told_once n streams clients h name ms t e once on to =
      let count = connections-receivers streams (audience t e.device_name) h clients in
      let follows : stream_enabled streams h (audience t e.device_name) ≡ true =
        ap (stream_enabled streams h) to ∙ on in
      read_copies_once (track name) h ms (notice sys n t e)
        (receivers streams (audience t e.device_name) clients)
        (ground (arith, count, follows, once))
      ∙ track-notice sys n name ms e t

  told_mac :
      (n : Network D) (streams : List Stream) (clients : List (ℕ × ℕ)) (h : ℕ) (name : Text)
      (ms : List Text) (t : EventType) (e : Event)
      → connections h clients ≡ 1
      → stream_enabled streams h name ≡ true
      → audience t e.device_name ≡ e.device_name
      → (str_eq e.device_name name ≡ false
          → follow_on name ms t e.device_name (or_else e.mac_address []) ≡ ms)
      → track_all h name ms (told n streams clients t e)
        ≡ follow_on name ms t e.device_name (or_else e.mac_address [])
  told_mac n streams clients h name ms t e once on to elsewhere =
      elim (Bool-cases (str_eq e.device_name name)) [
        | inl same ↦
            told_once n streams clients h name ms t e once on
              (to ∙ (str_eq_iff e.device_name name).0 same)
        | inr other ↦ told_other n streams clients h name ms t e (elsewhere other)
      ]

  -- A client that follows a device, and stands among the clients once, learns from the notices of an
  -- event just what the event tells of this device.
  pub told_lem :
      (n : Network D) (streams : List Stream) (clients : List (ℕ × ℕ)) (h : ℕ) (name : Text)
      (ms : List Text) (t : EventType) (e : Event)
      → connections h clients ≡ 1
      → stream_enabled streams h name ≡ true
      → track_all h name ms (told n streams clients t e)
        ≡ follow_on name ms t e.device_name (or_else e.mac_address [])
  unfolding follow_on audience
  told_lem n streams clients h name ms mac_address_discovered e once on =
      told_mac n streams clients h name ms mac_address_discovered e once on refl (λ o. rw o)
  told_lem n streams clients h name ms mac_address_disappeared e once on =
      told_mac n streams clients h name ms mac_address_disappeared e once on refl (λ o. rw o)
  told_lem n streams clients h name ms device_added e once on =
      told_other n streams clients h name ms device_added e refl
  told_lem n streams clients h name ms device_removed e once on =
      told_other n streams clients h name ms device_removed e refl
  told_lem n streams clients h name ms device_state_changed e once on =
      told_other n streams clients h name ms device_state_changed e refl
  told_lem n streams clients h name ms device_evidence_changed e once on =
      told_other n streams clients h name ms device_evidence_changed e refl
  told_lem n streams clients h name ms mac_evidence_changed e once on =
      told_other n streams clients h name ms mac_evidence_changed e refl
