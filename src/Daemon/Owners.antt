-- ===== src/Daemon/Owners.antt =====
-- The clients of the streams in macdetectd/src/Daemon.cpp, in each part of `Daemon::cycle`. `c` gives
-- how often a client is connected.
use macdetect.Base.{
  ℕ, ◌+◌, ◌<◌, Bool, List, [], ◌∷◌, Text, ◌==◌, length, ap, inl, inr, Bool-cases, take_first-cases,
  arith, All, All-append, All-without, reject,
}
use mathlib.Core.Path.{subst}
use macdetect.Event.{
  EventType, device_added, device_removed, device_state_changed, mac_address_discovered,
  mac_address_disappeared, device_evidence_changed, mac_evidence_changed,
}
use macdetect.Server.Connections.{occurrences}
use macdetect.Daemon.Streams.{is_stream, enable_stream, disable_stream, stream_enabled}
use macdetect.Daemon.StreamLaws.{erase_streams_lem}
use macdetect.Daemon.Notices.{of_device, end_streams}
use macdetect.Daemon.Cycle.{drop_streams}
use macdetect.Daemon.{Stream}

module _ (c : ℕ → ℕ) where
  -- Each stream is that of a connected client.
  abbrev pub AllOwned : List Stream → Type 0
  AllOwned streams = All (λ s. 0 < c s.served) streams

  pub reject-AllOwned :
      (p : Stream → Bool) (streams : List Stream) → AllOwned streams → AllOwned (reject p streams)
  reject-AllOwned p [] h = tt
  reject-AllOwned p (s ∷ ss) h = elim (Bool-cases (p s)) [
    | inl hit ↦ rw hit (reject-AllOwned p ss h.1)
    | inr miss ↦ rw miss (h.0, reject-AllOwned p ss h.1)
  ]

  -- A stream of a connected client, or of one that is gone.
  abbrev pub AllKnown : List ℕ → List Stream → Type 0
  AllKnown gone streams = All (λ s. 0 < occurrences s.served gone + c s.served) streams

  reject-AllKnown :
      (g : ℕ) (gs : List ℕ) (streams : List Stream)
      → AllKnown (g ∷ gs) streams
      → AllKnown gs (reject (λ s. s.served == g) streams)
  unfolding occurrences
  reject-AllKnown g gs [] h = tt
  reject-AllKnown g gs (s ∷ ss) h =
      let ih = reject-AllKnown g gs ss h.1 in
      elim (Bool-cases (s.served == g)) [
        | inl gone ↦ rw gone ih
        | inr stays ↦ rw stays (ground (arith, h.0, stays), ih)
      ]

  pub AllKnown-AllOwned : (streams : List Stream) → AllKnown [] streams → AllOwned streams
  unfolding occurrences
  AllKnown-AllOwned [] h = tt
  AllKnown-AllOwned (s ∷ ss) h = (omega (arith, h.0), AllKnown-AllOwned ss h.1)

  pub drop_streams-AllOwned :
      (gone : List ℕ) (streams : List Stream)
      → AllKnown gone streams
      → AllOwned (drop_streams streams gone)
  unfolding drop_streams occurrences
  drop_streams-AllOwned [] streams h = AllKnown-AllOwned streams h
  drop_streams-AllOwned (g ∷ gs) streams h =
      let erased =
        ap (λ r. r.0)
          (erase_streams_lem (λ s. s.served == g) (length streams) streams (omega arith)) in
      rw erased (
        drop_streams-AllOwned gs (reject (λ s. s.served == g) streams)
          (reject-AllKnown g gs streams h))

  pub enable_stream-AllOwned :
      (streams : List Stream) (h : ℕ) (name : Text)
      → 0 < c h
      → AllOwned streams
      → AllOwned (enable_stream streams h name)
  unfolding enable_stream
  enable_stream-AllOwned streams h name on all = elim (Bool-cases (stream_enabled streams h name)) [
    | inl old ↦ rw old all
    | inr new ↦ rw new (
        All-append (λ s. 0 < c s.served) streams (record { served = h; device_name = name } ∷ [])
          all (on, tt))
  ]

  pub disable_stream-AllOwned :
      (streams : List Stream) (h : ℕ) (name : Text)
      → AllOwned streams
      → AllOwned (disable_stream streams h name).0
  unfolding disable_stream
  disable_stream-AllOwned streams h name all = elim (take_first-cases (is_stream h name) streams) [
    | inl (e, other) ↦ rw (disable_stream, e) all
    | inr s ↦
        rw (disable_stream, s.taken)
          (All-without (λ (t : Stream). 0 < c t.served) s.before s.found s.behind
            (subst AllOwned s.splits all))
  ]

  pub end_streams-AllOwned :
      (t : EventType) (name : Text) (streams : List Stream)
      → AllOwned streams
      → AllOwned (end_streams t name streams).0
  unfolding end_streams
  end_streams-AllOwned device_removed name streams all =
      rw (erase_streams_lem (of_device name) (length streams) streams (omega arith))
        (reject-AllOwned (of_device name) streams all)
  end_streams-AllOwned device_added name streams all = all
  end_streams-AllOwned device_state_changed name streams all = all
  end_streams-AllOwned mac_address_discovered name streams all = all
  end_streams-AllOwned mac_address_disappeared name streams all = all
  end_streams-AllOwned device_evidence_changed name streams all = all
  end_streams-AllOwned mac_evidence_changed name streams all = all
