-- ===== src/Network/Quiet.antt =====
-- The operations of macdetectd/src/Network.cpp that leave the seen addresses alone: their events
-- tell a client nothing new about these.
use mathlib.Core.Bool.{xor}
use macdetect.Base.{
  Bool, true, false, not, List, [], ◌∷◌, ◌++◌, Text, text, str_eq, ◌≡◌, refl, sym, ◌∙◌, ap,
  Bool-cases, Option-cases, inl, inr, All, All-append, if-cases, append-nil,
}
use macdetect.Base.Dict.{lookup}
use macdetect.Doubles.{Doubles}
use macdetect.Event.{
  Event, device_event, mac_event, set_evidence, change_up, change_running, device_state_changed,
  device_evidence_changed,
}
use macdetect.Device.{Device}
use macdetect.Network.System.{Status, System}
use macdetect.Network.Macs.{mac_allowed, device_for_mac}
use macdetect.Network.Replay.{Pair, pairs, follow, replay}
use macdetect.Network.Tracking.{Tracks-trans}
use macdetect.Network.Sound.{Sound}
use macdetect.Network.Devices.{add_device, device_allowed, known_device, contains}
use macdetect.Network.Evidence.{
  update_mac_evidence, check_hostname, check_hostnames_of, check_hostnames,
}
use macdetect.Network.Cycle.{when, status_events, all_status_events, maintain_devices}
use macdetect.Network.{Network}

abbrev IsQuiet : Event → Type 0
IsQuiet e = (ps : List Pair) → follow ps e.event_type e.device_name e.mac_address ≡ ps

replay_quiet : (es : List Event) (ps : List Pair) → All IsQuiet es → replay ps es ≡ ps
unfolding replay
replay_quiet [] ps h = refl
replay_quiet (e ∷ es) ps h = rw (h.0 ps) (replay_quiet es ps h.1)

when-IsQuiet :
    (b : Bool) (e : Event) (es : List Event)
    → IsQuiet e
    → All IsQuiet es
    → All IsQuiet (when b e ++ es)
when-IsQuiet true e es h k = (h, k)
when-IsQuiet false e es h k = k

module _ {D : Type 0} (dbl : Doubles D) where
  pub quiet-Sound :
      (n n' : Network D) (es : List Event)
      → n'.macs_seen ≡ n.macs_seen
      → n'.events ≡ n.events ++ es
      → All IsQuiet es
      → Sound dbl n n'
  quiet-Sound n n' es same logged h v = (
    record { distinct = rw same v.distinct; real = rw same v.real; timed = rw same v.timed },
    record {
      scheduled = es;
      logged = logged;
      followed = replay_quiet es (pairs n.macs_seen) h ∙ ap pairs (sym same);
    },
  )

  pub Sound-trans : {n m k : Network D} → Sound dbl n m → Sound dbl m k → Sound dbl n k
  Sound-trans s t v = let (v₁, t₁) = s v in let (v₂, t₂) = t v₁ in (v₂, Tracks-trans t₁ t₂)

  pub Sound-refl : (n : Network D) → Sound dbl n n
  Sound-refl n = quiet-Sound n n [] refl (sym (append-nil n.events)) tt

  pub update_mac_evidence-Sound :
      (n : Network D) (dev mac key content : Text)
      → Sound dbl n (update_mac_evidence n dev mac key content)
  unfolding update_mac_evidence follow set_evidence mac_event
  update_mac_evidence-Sound n dev mac key content =
      if-cases (Sound dbl n) (mac_allowed n mac) _ _
        (if-cases (Sound dbl n) (str_eq _ content) _ _
          (quiet-Sound n _ [] refl (sym (append-nil n.events)) tt)
          (quiet-Sound n _ _ refl refl ((λ ps. refl), tt)))
        (Sound-refl n)

  pub add_device-Sound :
      (sys : System D) (n : Network D) (name : Text) → Sound dbl n (add_device dbl sys n name).0
  unfolding add_device follow set_evidence device_event
  add_device-Sound sys n name = elim (Bool-cases (device_allowed sys n name)) [
    | inr refused ↦ rw refused (Sound-refl n)
    | inl allowed ↦ elim (Option-cases (known_device n.devices name)) [
      | inr (d, known) ↦ rw (allowed, known) (Sound-refl n)
      | inl new ↦ elim (Bool-cases (contains n.system_device_names name)) [
        | inr missing ↦ rw (allowed, new, missing) (Sound-refl n)
        | inl there ↦
            rw (allowed, new, there)
              (quiet-Sound n _ _ refl refl ((λ ps. refl), ((λ ps. refl), tt)))
      ]
    ]
  ]

  status-IsQuiet : (s : Status) (d : Device D) → All IsQuiet (status_events s d)
  unfolding status_events follow set_evidence change_up change_running device_event
  status-IsQuiet s d =
      let changed = device_event device_state_changed d.device_name in
      let evidence = device_event device_evidence_changed d.device_name in
      let up = when (xor d.up s.up) (change_up changed s.up) in
      let running = when (xor d.running s.running) (change_running changed s.running) in
      let ip = set_evidence evidence (text "ip") s.ip d.ip in
      let broadcast = set_evidence evidence (text "broadcast-ip") s.broadcast_ip d.broadcast_ip in
      let last = when (not (str_eq s.broadcast_ip d.broadcast_ip)) broadcast in
      let third = when (not (str_eq s.ip d.ip)) ip ++ last in
      when-IsQuiet (xor d.up s.up) (change_up changed s.up) (running ++ third) (λ ps. refl)
        (when-IsQuiet (xor d.running s.running) (change_running changed s.running) third
          (λ ps. refl)
          (when-IsQuiet (not (str_eq s.ip d.ip)) ip last (λ ps. refl)
            (rw (← append-nil last) (
              when-IsQuiet (not (str_eq s.broadcast_ip d.broadcast_ip)) broadcast [] (λ ps. refl)
                tt))))

  All-status-IsQuiet :
      (sys : System D) (ds : List (Device D)) → All IsQuiet (all_status_events sys ds)
  unfolding all_status_events
  All-status-IsQuiet sys [] = tt
  All-status-IsQuiet sys (d ∷ ds) =
      All-append IsQuiet (status_events (sys.status d.device_name) d) (all_status_events sys ds)
        (status-IsQuiet (sys.status d.device_name) d) (All-status-IsQuiet sys ds)

  pub maintain_devices-Sound :
      (sys : System D) (n : Network D) → Sound dbl n (maintain_devices sys n)
  unfolding maintain_devices
  maintain_devices-Sound sys n =
      if-cases (Sound dbl n) n.control _ _
        (quiet-Sound n _ (all_status_events sys n.devices) refl refl
          (All-status-IsQuiet sys n.devices))
        (Sound-refl n)

  check_hostname-Sound :
      (sys : System D) (n : Network D) (mac : Text) (entry : List (Text × Text))
      → Sound dbl n (check_hostname sys n mac entry)
  unfolding check_hostname
  check_hostname-Sound sys n mac entry = elim (Option-cases (lookup (text "ip") entry)) [
    | inl e ↦ rw (e, check_hostname) (Sound-refl n)
    | inr (ip, e) ↦ elim (Option-cases (lookup (text "hostname") entry)) [
      | inr (h, k) ↦ rw (e, check_hostname, k) (Sound-refl n)
      | inl k ↦ elim (Option-cases (sys.host_name ip)) [
        | inl m ↦ rw (e, check_hostname, k, m) (Sound-refl n)
        | inr (host, m) ↦
            rw (e, check_hostname, k, m)
              (update_mac_evidence-Sound n (device_for_mac n.macs_seen mac) mac (text "hostname")
                host)
      ]
    ]
  ]

  check_hostnames_of-Sound :
      (sys : System D) (n : Network D) (es : List (Text × List (Text × Text)))
      → Sound dbl n (check_hostnames_of sys n es)
  unfolding check_hostnames_of
  check_hostnames_of-Sound sys n [] = Sound-refl n
  check_hostnames_of-Sound sys n ((mac, entry) ∷ es) =
      Sound-trans (check_hostname-Sound sys n mac entry)
        (check_hostnames_of-Sound sys (check_hostname sys n mac entry) es)

  pub check_hostnames-Sound : (sys : System D) (n : Network D) → Sound dbl n (check_hostnames sys n)
  unfolding check_hostnames
  check_hostnames-Sound sys n = check_hostnames_of-Sound sys n n.mac_evidence
