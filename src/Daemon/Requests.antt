-- ===== src/Daemon/Requests.antt =====
-- The answers of macdetectd/src/Daemon.cpp to the values of the clients: `response` and the second
-- loop of `cycle`.
use macdetect.Base.{
  ℕ, List, [], ◌∷◌, ◌++◌, Option, none, some, Text, text, str_eq, if◌then◌else◌, ◌>>=◌,
}
use macdetect.Base.Dict.{insert}
use macdetect.Doubles.{Doubles}
use macdetect.Value.{Value, value, nil, key, content, add, add_pair, add_pairs, make, set, sub}
use macdetect.Vendors.{vendor_name}
use macdetect.Device.{HardwareType, loopback, wired, wireless, Device}
use macdetect.Network.Evidence.{mac_evidence_of}
use macdetect.Network.{MacEntity, Network}
use macdetect.Server.{QueuedValue, Server, Sent, serving_by_id}
use macdetect.Daemon.Streams.{stream_enabled, enable_stream, disable_stream}
use macdetect.Daemon.{Daemon}

abbrev pub empty_value : Value
empty_value = value [] [] nil

unfoldable pub type_text : Option HardwareType → Text
type_text none = []
type_text (some loopback) = text "loopback"
type_text (some wired) = text "wired"
type_text (some wireless) = text "wireless"

-- `response(valValue)`; `none` is the null pointer.
unfoldable pub response : Value → Option Value
response v =
    if str_eq (key v) (text "request") then some (make (text "response") (content v) []) else none

-- The device of the serving socket through which a client came.
unfoldable pub serving_device : Server → ℕ → Text
serving_device s id = elim (serving_by_id s.servings id) [ some v ↦ v.device_name | none ↦ [] ]

-- The answer that names the device of the request.
abbrev pub result : Text → Text → Value
result outcome name = add_pair (set empty_value (text "result") outcome) (text "device-name") name

module _ {D : Type 0} where
  unfoldable pub device_value : Device D → Value
  device_value d = add_pairs (make d.device_name [] []) (
      (text "mac", d.mac)
      ∷ (text "ip", d.ip)
      ∷ (text "broadcast-ip", d.broadcast_ip)
      ∷ (text "hardware-type", type_text d.hardware_type)
      ∷ [])

  unfoldable pub mac_value : Doubles D → Network D → MacEntity D → Value
  mac_value dbl n e = add_pairs (make e.mac [] []) (
      (text "device-name", e.device_name)
      ∷ (text "last-seen", dbl.show e.last_seen)
      ∷ (text "first-seen", dbl.show e.first_seen)
      ∷ (text "vendor", vendor_name n.vendors e.mac)
      ∷ [])

  unfoldable pub devices_list : List (Device D) → Value → Value
  devices_list [] v = v
  devices_list (d ∷ ds) v = devices_list ds (add v (device_value d))

  unfoldable pub known_macs : Doubles D → Network D → List (MacEntity D) → Value → Value
  known_macs dbl n [] v = v
  known_macs dbl n (e ∷ es) v = known_macs dbl n es (add v (mac_value dbl n e))

  unfoldable pub answer_mac_evidence : Daemon D → Option Value → Daemon D × Value
  answer_mac_evidence d none = (d, empty_value)
  answer_mac_evidence d (some mac) =
      let (network, evidence) = mac_evidence_of d.network (content mac) in
      (
        record d { network = network },
        add_pairs (set empty_value (text "mac-evidence") [])
            (insert (text "mac-address") (content mac) evidence),
      )

  -- The tests look for a stream of the device of the serving socket, not for one of the device that
  -- the request names.
  unfoldable pub answer_enable : Daemon D → QueuedValue → Option Value → Daemon D × Value
  answer_enable d q none = (d, set empty_value (text "result") (text "device-name-missing"))
  answer_enable d q (some device) =
      if stream_enabled d.streams q.served (serving_device d.server q.serving_id)
      then (d, result (text "already-enabled") (content device))
      else (
        record d { streams = enable_stream d.streams q.served (content device) },
        result (text "success") (content device),
      )

  unfoldable pub answer_disable : Daemon D → QueuedValue → Option Value → Daemon D × Value
  answer_disable d q none = (d, set empty_value (text "result") (text "device-name-missing"))
  answer_disable d q (some device) =
      let here = serving_device d.server q.serving_id in
      if stream_enabled d.streams q.served here
      then (
        record d { streams = (disable_stream d.streams q.served here).0 },
        result (text "success") (content device),
      )
      else (d, result (text "already-disabled") (content device))

  -- The inner value of the answer to a request, by its content.
  unfoldable pub answer_request : Doubles D → Daemon D → QueuedValue → Daemon D × Value
  answer_request dbl d q =
      let request = content q.value in
      let n = d.network in
      if str_eq request (text "devices-list")
      then (d, devices_list n.devices (set empty_value (text "devices-list") []))
      else if str_eq request (text "known-mac-addresses")
      then (d, known_macs dbl n n.macs_seen (set empty_value (text "known-mac-addresses") []))
      else if str_eq request (text "mac-evidence")
      then answer_mac_evidence d (sub q.value (text "mac-address"))
      else if str_eq request (text "enable-stream")
      then answer_enable d q (sub q.value (text "device-name"))
      else if str_eq request (text "disable-stream")
      then answer_disable d q (sub q.value (text "device-name"))
      else (d, empty_value)

  -- The body of the loop. `none`: `valResponseOuter->add` on a null pointer.
  unfoldable pub handle_value : Doubles D → Daemon D → QueuedValue → Option (Daemon D × Sent)
  handle_value dbl d q = do
    let answered =
        if str_eq (key q.value) (text "request") then answer_request dbl d q else (d, empty_value)
    outer ← response q.value
    some (answered.0, (q.served, add outer answered.1) ∷ [])

  unfoldable pub handle_values : Doubles D → Daemon D → List QueuedValue → Option (Daemon D × Sent)
  handle_values dbl d [] = some (d, [])
  handle_values dbl d (q ∷ qs) = do
    (d', sent) ← handle_value dbl d q
    (d'', more) ← handle_values dbl d' qs
    some (d'', sent ++ more)
