-- ===== src/Network/Cycle.antt =====
-- `Network::cycle`, `Network::maintainDeviceStatus` and `Network::shutdown` of
-- macdetectd/src/Network.cpp.
use mathlib.Core.Bool.{xor}
use macdetect.Base.{
  Bool, true, false, not, ◌&&◌, List, [], ◌∷◌, ◌++◌, map, Option, none, some, Text, text, str_eq,
  length, reject, select, if◌then◌else◌,
}
use macdetect.Doubles.{Doubles}
use macdetect.Event.{
  Event, device_event, device_state_changed, device_evidence_changed, set_evidence, change_up,
  change_running,
}
use macdetect.Device.{Device, send_ping_broadcast}
use macdetect.Network.System.{Status, System}
use macdetect.Network.Macs.{expire}
use macdetect.Network.Devices.{
  contains, known_device, system_device_names, add_devices, remove_devices,
}
use macdetect.Network.Activity.{detect_network_activity}
use macdetect.Network.{MacEntity, Network}

abbrev pub when {ℓ} : {A : Type ℓ} → Bool → A → List A
when b x = if b then x ∷ [] else []

unfoldable pub is_unknown : {A : Type 0} → Option A → Bool
is_unknown none = true
is_unknown (some _) = false

module _ {D : Type 0} where
  -- The events of `maintainDeviceStatus` for a device, and the device after it.
  unfoldable pub status_events : Status → Device D → List Event
  status_events s d =
      let changed = device_event device_state_changed d.device_name in
      let evidence = device_event device_evidence_changed d.device_name in
      when (xor d.up s.up) (change_up changed s.up)
      ++ (when (xor d.running s.running) (change_running changed s.running)
          ++ (when (not (str_eq s.ip d.ip)) (set_evidence evidence (text "ip") s.ip d.ip)
              ++ when (not (str_eq s.broadcast_ip d.broadcast_ip))
                  (set_evidence evidence (text "broadcast-ip") s.broadcast_ip d.broadcast_ip)))

  unfoldable pub update_status : Status → Device D → Device D
  update_status s d = record d {
    up = s.up;
    running = s.running;
    ip = s.ip;
    broadcast_ip = s.broadcast_ip;
  }

  unfoldable pub all_status_events : System D → List (Device D) → List Event
  all_status_events sys [] = []
  all_status_events sys (d ∷ ds) =
      status_events (sys.status d.device_name) d ++ all_status_events sys ds

  -- `maintainDeviceStatus` for each device.
  unfoldable pub maintain_devices : System D → Network D → Network D
  maintain_devices sys n =
      if n.control
      then record n {
        devices = map (λ d. update_status (sys.status d.device_name) d) n.devices;
        events = n.events ++ all_status_events sys n.devices;
      }
      else n

  unfoldable pub added_names : Network D → List Text → List Text
  unfolding is_unknown
  added_names n names = select (λ name. is_unknown (known_device n.devices name)) names

  unfoldable pub removed_names : Network D → List Text → List Text
  removed_names n names = reject (contains names) (map (λ d. d.device_name) n.devices)

  -- The devices that came are added, and those that went are removed.
  unfoldable pub manage_devices : Doubles D → System D → Network D → Network D
  unfolding added_names removed_names
  manage_devices dbl sys n =
      let names = n.system_device_names in
      if n.auto_manage_devices
      then add_devices dbl sys (remove_devices n (removed_names n names)) (added_names n names)
      else n

  unfoldable pub refresh : Doubles D → D → Network D → MacEntity D → MacEntity D
  refresh dbl now n e =
      if str_eq e.host_name [] && dbl.gt (dbl.minus now e.last_update) n.update_interval
      then record e { last_update = now }
      else e

  unfoldable pub refresh_macs : Doubles D → D → Network D → Network D
  unfolding refresh
  refresh_macs dbl now n = record n { macs_seen = map (refresh dbl now n) n.macs_seen }

  unfoldable pub send_broadcasts : Doubles D → D → Network D → Network D
  send_broadcasts dbl now n = record n {
    devices = map (λ d. send_ping_broadcast dbl d now n.ping_broadcast_interval) n.devices;
  }

  -- The state after a round, and the result of `cycle`.
  unfoldable pub cycle : Doubles D → System D → Network D → Network D × Bool
  unfolding refresh_macs send_broadcasts
  cycle dbl sys n =
      let detected = detect_network_activity dbl sys (record n { events = [] }) in
      let named = record detected { system_device_names = system_device_names sys detected } in
      let maintained = maintain_devices sys (manage_devices dbl sys named) in
      let current = expire dbl sys.cycle_time (length maintained.macs_seen) maintained in
      let refreshed = refresh_macs dbl sys.cycle_time current in
      (send_broadcasts dbl sys.cycle_time refreshed, refreshed.should_run)

  unfoldable pub shutdown : Network D → Network D
  shutdown n = record n { should_run = false }
