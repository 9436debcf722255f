-- ===== src/Network/Follow.antt =====
-- A round of `Network::cycle` (macdetectd/src/Network.cpp) from the side of a client that follows
-- the events of the round.
use macdetect.Base.{
  false, List, [], ◌∷◌, ◌++◌, map, Text, ◌≡◌, refl, sym, ◌∙◌, ap, All, if-cases, append-nil, arith,
  length, ◌==◌,
}
use macdetect.Doubles.{Doubles}
use macdetect.Event.{Event, device_event, device_removed}
use macdetect.Device.{Device}
use macdetect.Network.System.{System}
use macdetect.Network.Macs.{ip_allowed}
use macdetect.Network.Replay.{pairs, follow, replay, replay-append}
use macdetect.Network.Tracking.{Real, Timed, Inv}
use macdetect.Network.Sound.{Sound, add_mac-Sound, expire-Sound, remove_device_macs-Sound}
use macdetect.Network.Quiet.{
  quiet-Sound, Sound-refl, Sound-trans, update_mac_evidence-Sound, add_device-Sound,
  maintain_devices-Sound, check_hostnames-Sound,
}
use macdetect.Network.Devices.{add_device, add_devices, remove_device, remove_devices}
use macdetect.Network.Activity.{
  has_header, take_frame, take_frames, detect_network_activity, buffer_of, source_mac,
}
use macdetect.Network.Cycle.{manage_devices, refresh, refresh_macs, cycle}
use macdetect.Network.{MacEntity, Network}

module _ {D : Type 0} (dbl : Doubles D) where
  -- The clock never shows the time that stands for an unknown address.
  abbrev pub Clock : System D → Type 0
  Clock sys = (name : Text) → dbl.eq (sys.seen_time name) dbl.minus_one ≡ false

  pub remove_device-Sound : (n : Network D) (name : Text) → Sound dbl n (remove_device n name).0
  unfolding remove_device follow device_event
  remove_device-Sound n name =
      Sound-trans dbl
        (quiet-Sound dbl n _ (device_event device_removed name ∷ []) refl refl ((λ ps. refl), tt))
        (remove_device_macs-Sound dbl (length n.macs_seen) _ name)

  pub remove_devices-Sound :
      (n : Network D) (names : List Text) → Sound dbl n (remove_devices n names)
  unfolding remove_devices
  remove_devices-Sound n [] = Sound-refl dbl n
  remove_devices-Sound n (name ∷ names) =
      Sound-trans dbl (remove_device-Sound n name)
        (remove_devices-Sound (remove_device n name).0 names)

  add_devices-Sound :
      (sys : System D) (n : Network D) (names : List Text)
      → Sound dbl n (add_devices dbl sys n names)
  unfolding add_devices
  add_devices-Sound sys n [] = Sound-refl dbl n
  add_devices-Sound sys n (name ∷ names) =
      Sound-trans dbl (add_device-Sound dbl sys n name)
        (add_devices-Sound sys (add_device dbl sys n name).0 names)

  manage_devices-Sound : (sys : System D) (n : Network D) → Sound dbl n (manage_devices dbl sys n)
  unfolding manage_devices
  manage_devices-Sound sys n =
      if-cases (Sound dbl n) n.auto_manage_devices _ _
        (Sound-trans dbl (remove_devices-Sound n _) (add_devices-Sound sys _ _)) (Sound-refl dbl n)

  take_frame-Sound :
      (sys : System D) (n : Network D) (d : Device D)
      → Clock sys
      → Sound dbl n (take_frame dbl sys n d)
  unfolding take_frame
  take_frame-Sound sys n d clock =
      let mac = source_mac (buffer_of (sys.frame d.device_name)) in
      let seen =
        add_mac-Sound dbl (sys.seen_time d.device_name) n mac d.device_name (clock d.device_name) in
      if-cases (Sound dbl n) (has_header (sys.frame d.device_name)) _ _
        (if-cases (Sound dbl n) (_ == 0x0800) _ _
          (if-cases (Sound dbl n) (ip_allowed _) _ _
            (Sound-trans dbl seen (update_mac_evidence-Sound dbl _ _ _ _ _)) seen)
          seen)
        (Sound-refl dbl n)

  take_frames-Sound :
      (sys : System D) (n : Network D) (ds : List (Device D))
      → Clock sys
      → Sound dbl n (take_frames dbl sys n ds)
  unfolding take_frames
  take_frames-Sound sys n [] clock = Sound-refl dbl n
  take_frames-Sound sys n (d ∷ ds) clock =
      Sound-trans dbl (take_frame-Sound sys n d clock)
        (take_frames-Sound sys (take_frame dbl sys n d) ds clock)

  detect-Sound :
      (sys : System D) (n : Network D) → Clock sys → Sound dbl n (detect_network_activity dbl sys n)
  unfolding detect_network_activity
  detect-Sound sys n clock =
      if-cases (Sound dbl n) (dbl.gt _ _) _ _
        (Sound-trans dbl (take_frames-Sound sys n n.devices clock) (
          Sound-trans dbl (check_hostnames-Sound dbl sys _)
            (quiet-Sound dbl _ _ [] refl (sym (append-nil _)) tt)))
        (take_frames-Sound sys n n.devices clock)

  pairs-refresh :
      (now : D) (n : Network D) (es : List (MacEntity D))
      → pairs (map (refresh dbl now n) es) ≡ pairs es
  unfolding refresh
  pairs-refresh now n [] = refl
  pairs-refresh now n (e ∷ es) = ground (arith, pairs-refresh now n es)

  refresh-Inv :
      (now : D) (n : Network D) (es : List (MacEntity D))
      → All Real es
      → All (Timed dbl) es
      → All Real (map (refresh dbl now n) es) × All (Timed dbl) (map (refresh dbl now n) es)
  unfolding refresh
  refresh-Inv now n [] h k = (tt, tt)
  refresh-Inv now n (e ∷ es) h k = ground (arith, refresh-Inv now n es h.1 k.1)

  refresh_macs-Sound : (now : D) (n : Network D) → Sound dbl n (refresh_macs dbl now n)
  unfolding refresh_macs replay
  refresh_macs-Sound now n v =
      let kept = refresh-Inv now n n.macs_seen v.real v.timed in
      let same = pairs-refresh now n n.macs_seen in
      (
        record { distinct = rw same v.distinct; real = kept.0; timed = kept.1 },
        record { scheduled = []; logged = sym (append-nil n.events); followed = sym same },
      )

  -- The steps of a round, behind the reset of the events.
  cycle-Sound :
      (sys : System D) (n : Network D)
      → Clock sys
      → Sound dbl (record n { events = [] }) (cycle dbl sys n).0
  unfolding cycle
  cycle-Sound sys n clock = Sound-trans dbl (detect-Sound sys (record n { events = [] }) clock) (
      Sound-trans dbl (quiet-Sound dbl _ _ [] refl (sym (append-nil _)) tt) (
        Sound-trans dbl (manage_devices-Sound sys _) (
          Sound-trans dbl (maintain_devices-Sound dbl sys _) (
            Sound-trans dbl (expire-Sound dbl sys.cycle_time _ _) (
              Sound-trans dbl (refresh_macs-Sound sys.cycle_time _)
                (quiet-Sound dbl _ _ [] refl (sym (append-nil _)) tt))))))

  -- A round of `cycle` keeps the seen addresses in order: no pair of a device and an address twice,
  -- no zero and no broadcast address, no time that means "unknown". The clock never shows that time.
  pub cycle-Inv :
      (sys : System D) (n : Network D) → Clock sys → Inv dbl n → Inv dbl (cycle dbl sys n).0
  cycle-Inv sys n clock v =
      (cycle-Sound sys n clock (record { distinct = v.distinct; real = v.real; timed = v.timed })).0

  -- A client that knows the pairs of a device and an address before a round of `cycle`, and follows
  -- the events of the round in their order, knows the pairs after it: no discovery or disappearance
  -- is missed, reported twice, or out of order. The invariant holds before the round, and the clock
  -- never shows the time that means "unknown".
  pub replay-cycle :
      (sys : System D) (n : Network D)
      → Clock sys
      → Inv dbl n
      → replay (pairs n.macs_seen) (cycle dbl sys n).0.events ≡ pairs (cycle dbl sys n).0.macs_seen
  replay-cycle sys n clock v =
      let t =
        (cycle-Sound sys n clock
          (record { distinct = v.distinct; real = v.real; timed = v.timed })).1 in
      rw t.logged t.followed

  -- The rounds of the main loop, each with the answers of the system in it; the events of all of them.
  pub run : Network D → List (System D) → Network D × List Event
  run n [] = (n, [])
  run n (sys ∷ later) =
      let n' = (cycle dbl sys n).0 in
      let (last, events) = run n' later in (last, n'.events ++ events)

  -- A client that follows the events of any number of rounds from the pairs of a device and an address
  -- that are known before them knows the pairs after them, and the invariant holds after them. It
  -- holds before them, and the clock never shows the time that means "unknown".
  pub replay-run :
      (n : Network D) (rounds : List (System D))
      → All Clock rounds
      → Inv dbl n
      → Inv dbl (run n rounds).0
        × (replay (pairs n.macs_seen) (run n rounds).1 ≡ pairs (run n rounds).0.macs_seen)
  unfolding run
  replay-run n [] clock v = (v, unfold replay in refl)
  replay-run n (sys ∷ later) clock v =
      let n' = (cycle dbl sys n).0 in
      let (v', e) = replay-run n' later clock.1 (cycle-Inv sys n clock.0 v) in
      (
        v',
        replay-append (pairs n.macs_seen) n'.events (run n' later).1
            ∙ ap (λ ps. replay ps (run n' later).1) (replay-cycle sys n clock.0 v)
            ∙ e,
      )
