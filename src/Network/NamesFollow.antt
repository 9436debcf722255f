-- ===== src/Network/NamesFollow.antt =====
-- The events of `Network::cycle` in macdetectd/src/Network.cpp tell which devices it knows.
use macdetect.Base.{
  not, List, [], ◌∷◌, ◌++◌, map, Text, text, str_eq, length, if-cases, All, All-append, append-nil,
  select, reject, ◌≡◌, refl, sym, ap, ◌∙◌, Bool-cases, Option-cases, inl, inr, arith,
}
use mathlib.Core.Bool.{xor}
use macdetect.Doubles.{Doubles}
use macdetect.Device.{Device, send_ping_broadcast}
use macdetect.Event.{
  device_event, device_added, device_evidence_changed, set_evidence, change_up, change_running,
}
use macdetect.Network.System.{System, Status}
use macdetect.Network.Macs.{expire, is_old}
use macdetect.Network.Devices.{
  contains, device_allowed, known_device, new_device, add_device, add_devices,
}
use macdetect.Network.Cycle.{
  when, status_events, all_status_events, update_status, maintain_devices, manage_devices,
  refresh_macs, send_broadcasts, cycle,
}
use macdetect.Network.Loops.{gone, after, expire_lem}
use macdetect.Network.Managed.{new_device-name}
use macdetect.Network.Names.{names, follow_names, replay_names, IsAside}
use macdetect.Network.Steady.{detect-Keeps}
use macdetect.Network.{Network}
use macdetect.Network.NamesKept.{
  map-IsAside, disappeared-IsAside, when-IsAside, added-replay, Names, aside-Names, Names-refl,
  Names-trans, Keeps-Names, names-append, remove_devices-Names,
}

module _ {D : Type 0} where
  names-map :
      (f : Device D → Device D)
      → ((d : Device D) → (f d).device_name ≡ d.device_name)
      → (ds : List (Device D)) → names (map f ds) ≡ names ds
  names-map f same [] = refl
  names-map f same (d ∷ ds) = rw (same d) (ap (◌∷◌ d.device_name) (names-map f same ds))

  status_events-IsAside : (s : Status) (d : Device D) → All IsAside (status_events s d)
  unfolding status_events follow_names device_event set_evidence change_up change_running
  status_events-IsAside s d =
      All-append IsAside (when (xor d.up s.up) _) _ (when-IsAside _ _ (λ ns. refl)) (
        All-append IsAside (when (xor d.running s.running) _) _ (when-IsAside _ _ (λ ns. refl)) (
          All-append IsAside (when (not (str_eq s.ip d.ip)) _) _ (when-IsAside _ _ (λ ns. refl))
            (when-IsAside (not (str_eq s.broadcast_ip d.broadcast_ip)) _ (λ ns. refl))))

  all_status_events-IsAside :
      (sys : System D) (ds : List (Device D)) → All IsAside (all_status_events sys ds)
  unfolding all_status_events
  all_status_events-IsAside sys [] = tt
  all_status_events-IsAside sys (d ∷ ds) =
      All-append IsAside (status_events (sys.status d.device_name) d) _
        (status_events-IsAside (sys.status d.device_name) d) (all_status_events-IsAside sys ds)

  maintain_devices-Names : (sys : System D) (n : Network D) → Names n (maintain_devices sys n)
  unfolding maintain_devices update_status
  maintain_devices-Names sys n =
      if-cases (Names n) n.control _ _
        (aside-Names n _ (all_status_events sys n.devices) (names-map _ (λ d. refl) n.devices) refl
          (all_status_events-IsAside sys n.devices))
        (Names-refl n)

  module _ (dbl : Doubles D) (sys : System D) where
    add_device-Names : (n : Network D) (name : Text) → Names n (add_device dbl sys n name).0
    unfolding add_device
    add_device-Names n name = elim (Bool-cases (device_allowed sys n name)) [
      | inr refused ↦ rw refused (Names-refl n)
      | inl allowed ↦ elim (Option-cases (known_device n.devices name)) [
        | inr (d, old) ↦ rw (allowed, old) (Names-refl n)
        | inl new ↦ elim (Bool-cases (contains n.system_device_names name)) [
          | inr missing ↦ rw (allowed, new, missing) (Names-refl n)
          | inl here ↦
              let d = new_device dbl sys n name in
              let evidence =
                set_evidence (device_event device_evidence_changed name) (text "mac") d.mac [] in
              rw (allowed, new, here)
                (record {
                  scheduled = device_event device_added name ∷ evidence ∷ [];
                  logged = refl;
                  followed =
                      added-replay (names n.devices) name d.mac
                      ∙ ap (λ m. names n.devices ++ m ∷ []) (sym (new_device-name dbl sys n name))
                      ∙ sym (names-append n.devices d);
                })
        ]
      ]
    ]

    add_devices-Names : (n : Network D) (new : List Text) → Names n (add_devices dbl sys n new)
    unfolding add_devices
    add_devices-Names n [] = Names-refl n
    add_devices-Names n (name ∷ new) =
        Names-trans (add_device-Names n name) (add_devices-Names (add_device dbl sys n name).0 new)

    manage_devices-Names : (n : Network D) → Names n (manage_devices dbl sys n)
    unfolding manage_devices
    manage_devices-Names n =
        if-cases (Names n) n.auto_manage_devices _ _
          (Names-trans (remove_devices-Names n _) (add_devices-Names _ _)) (Names-refl n)

    expire-Names : (n : Network D) → Names n (expire dbl sys.cycle_time (length n.macs_seen) n)
    expire-Names n =
        let old = is_old dbl sys.cycle_time n in
        rw (expire_lem dbl sys.cycle_time (length n.macs_seen) n (omega arith)) (
          aside-Names n (after n (reject old n.macs_seen) (map gone (select old n.macs_seen)))
            (map gone (select old n.macs_seen)) refl refl
            (map-IsAside gone _ (λ e. disappeared-IsAside e.device_name e.mac)))

    send_broadcasts-Names : (now : D) (n : Network D) → Names n (send_broadcasts dbl now n)
    unfolding send_broadcasts send_ping_broadcast
    send_broadcasts-Names now n =
        aside-Names n _ []
          (names-map _
            (λ d. if-cases (λ (e : Device D). e.device_name ≡ d.device_name) _ _ _ refl refl)
            n.devices)
          (sym (append-nil n.events)) tt

    cycle-Names : (n : Network D) → Names (record n { events = [] }) (cycle dbl sys n).0
    unfolding cycle refresh_macs
    cycle-Names n =
        Names-trans (Keeps-Names _ _ (detect-Keeps dbl sys (record n { events = [] }))) (
          Names-trans (aside-Names _ _ [] refl (sym (append-nil _)) tt) (
            Names-trans (manage_devices-Names _) (
              Names-trans (maintain_devices-Names sys _) (
                Names-trans (expire-Names _) (
                  Names-trans (aside-Names _ _ [] refl (sym (append-nil _)) tt)
                    (send_broadcasts-Names sys.cycle_time _))))))

    -- A client that knows the names of the devices before a round of `cycle`, and follows the events
    -- of the round in their order, knows the names after it: each device that is added or removed is
    -- reported, once and in order, whatever the system answers.
    pub replay_names-cycle :
        (n : Network D)
        → replay_names (names n.devices) (cycle dbl sys n).0.events
          ≡ names (cycle dbl sys n).0.devices
    replay_names-cycle n = let t = cycle-Names n in rw t.logged t.followed
