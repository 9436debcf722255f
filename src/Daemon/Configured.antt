-- ===== src/Daemon/Configured.antt =====
-- The configuration that macdetectd/src/Daemon.cpp reads keeps the invariant of the daemon.
use macdetect.Base.{
  Bool, true, List, [], ◌∷◌, ◌++◌, map, Option, none, some, Text, text, str_eq, reject, if-cases,
  ◌≡◌, refl, ◌∙◌, Option-cases, inl, inr,
}
use mathlib.Core.Path.{subst}
use macdetect.Doubles.{Doubles}
use macdetect.Config.{Sections, load_from_string, value, list}
use macdetect.Network.System.{System}
use macdetect.Network.Devices.{device_allowed, add_device_white_blacklist_entry}
use macdetect.Network.Tracking.{Inv}
use macdetect.Network.Follow.{remove_devices-Sound}
use macdetect.Network.Known.{DistinctNames, remove_devices_lem}
use macdetect.Network.{Network, WhiteBlackListMode, whitelist, blacklist}
use macdetect.Server.{Server, serve}
use macdetect.Server.Ids.{Distinct, serve-cases}
use macdetect.Daemon.Safe.{IsSafe}
use macdetect.Daemon.Settings.{
  Setup, Defaults, serve_entry, set_list_mode, add_entries, serve_entries, serve_entries-Distinct,
  apply_settings, parse_config_file,
}
use macdetect.Daemon.{Daemon}

module _ {D : Type 0} (dbl : Doubles D) where
  -- What the settings must keep in the monitor.
  record IsWatching (n : Network D) : Type 0 where
    devices : DistinctNames n.devices
    seen : Inv dbl n

  set_list_mode-IsWatching :
      (n : Network D) (mode : Text) → IsWatching n → IsWatching (set_list_mode n mode)
  unfolding set_list_mode
  set_list_mode-IsWatching n mode h =
      let same : (m : WhiteBlackListMode) → IsWatching (record n { mode = m }) = λ m. record {
        devices = h.devices;
        seen = record { distinct = h.seen.distinct; real = h.seen.real; timed = h.seen.timed };
      } in
      if-cases IsWatching (str_eq mode (text "whitelist")) _ _ (same whitelist)
        (if-cases IsWatching (str_eq mode (text "blacklist")) _ _ (same blacklist) h)

  add_entry-IsWatching :
      (sys : System D) (n : Network D) (pattern' : Text)
      → IsWatching n
      → IsWatching (add_device_white_blacklist_entry sys n pattern')
  unfolding add_device_white_blacklist_entry
  add_entry-IsWatching sys n pattern' h =
      let n' = record n { patterns = n.patterns ++ (pattern' ∷ []) } in
      let gone =
        map (λ d. d.device_name) (reject (λ d. device_allowed sys n' d.device_name) n'.devices) in
      record {
        devices = (remove_devices_lem n' gone h.devices).0;
        seen =
            (remove_devices-Sound dbl n' gone
              (record { distinct = h.seen.distinct; real = h.seen.real; timed = h.seen.timed })).0;
      }

  add_entries-IsWatching :
      (sys : System D) (n : Network D) (entries : List Text)
      → IsWatching n
      → IsWatching (add_entries sys n entries)
  unfolding add_entries
  add_entries-IsWatching sys n [] h = h
  add_entries-IsWatching sys n (entry ∷ entries) h =
      add_entries-IsWatching sys (add_device_white_blacklist_entry sys n entry) entries
        (add_entry-IsWatching sys n entry h)

  -- The clients of the server, and the values that wait, are as they were.
  IsServing : Server → Server → Type 0
  IsServing s s' = (s'.served ≡ s.served) × (s'.value_queue ≡ s.value_queue)

  serve_entries-IsServing :
      (env : Setup D) (s : Server) (entries : List Text) → IsServing s (serve_entries env s entries)
  unfolding serve_entries IsServing
  serve_entries-IsServing env s [] = (refl, refl)
  serve_entries-IsServing env s (entry ∷ entries) =
      let name = (serve_entry entry).0 in
      let port = env.scan_port (serve_entry entry).1 in
      let r = serve (env.new_socket name port) (env.bound name port) s name port in
      let first =
        serve-cases (λ r. IsServing s r.0) (env.new_socket name port) (env.bound name port) s name
          port (refl, refl) (λ f id free fresh. (refl, refl)) in
      let rest = serve_entries-IsServing env r.0 entries in (rest.0 ∙ first.0, rest.1 ∙ first.1)

  abbrev IsSafeIfAny : Option (Daemon D) → Type 0
  IsSafeIfAny none = Unit {0}
  IsSafeIfAny (some d) = IsSafe dbl d

  -- With settings that keep what they must.
  settings-IsSafe :
      (d d' : Daemon D)
      → Distinct d'.server.servings
      → IsServing d.server d'.server
      → d'.streams ≡ d.streams
      → IsWatching d'.network
      → IsSafe dbl d
      → IsSafe dbl d'
  unfolding IsServing
  settings-IsSafe d d' apart serving streams watching h = record {
    sound = record { servings = apart; devices = watching.devices; seen = watching.seen };
    streams = record {
      owned = rw (streams, serving.0) h.streams.owned;
      answered = serving.1 ∙ h.streams.answered;
    };
  }

  apply_settings-IsSafe :
      (env : Setup D) (defaults : Defaults D) (m : Sections) (d : Daemon D)
      → IsSafe dbl d
      → IsSafeIfAny (apply_settings env defaults m d)
  unfolding apply_settings
  apply_settings-IsSafe env defaults m d h =
      elim (Option-cases (list m (text "network") (text "allowed-devices"))) [
        | inl p ↦ rw (p, apply_settings) tt
        | inr (allowed, p) ↦ elim (Option-cases (list m (text "server") (text "serve"))) [
          | inl q ↦ rw (p, apply_settings, q) tt
          | inr (serves, q) ↦
              let moded =
                set_list_mode d.network
                  (value m (text "network") (text "list-mode") (text "whitelist") true) in
              let watching = add_entries-IsWatching env.system moded allowed (
                set_list_mode-IsWatching d.network _
                  (record { devices = h.sound.devices; seen = h.sound.seen })) in
              rw (p, apply_settings, q)
                (settings-IsSafe d _ (serve_entries-Distinct env d.server serves h.sound.servings)
                  (serve_entries-IsServing env d.server serves) refl
                  (record {
                    devices = watching.devices;
                    seen = record {
                      distinct = watching.seen.distinct;
                      real = watching.seen.real;
                      timed = watching.seen.timed;
                    };
                  })
                  h)
        ]
      ]

  abbrev pub IsSafeRead : Option (Daemon D × Bool) → Type 0
  IsSafeRead none = Unit {0}
  IsSafeRead (some r) = IsSafe dbl r.0

  -- A configuration file that does not throw keeps the invariant of the daemon, whatever it says.
  pub parse_config_file-IsSafe :
      (env : Setup D) (defaults : Defaults D) (file : Option Text) (d : Daemon D)
      → IsSafe dbl d
      → IsSafeRead (parse_config_file env defaults file d)
  unfolding parse_config_file
  parse_config_file-IsSafe env defaults none d h = h
  parse_config_file-IsSafe env defaults (some content) d h =
      elim (Option-cases (load_from_string content)) [
        | inl bad ↦ rw (bad, parse_config_file) tt
        | inr (m, good) ↦
            let safe = apply_settings-IsSafe env defaults m d h in
            elim (Option-cases (apply_settings env defaults m d)) [
              | inl throws ↦ rw (good, parse_config_file, throws) tt
              | inr (d', fine) ↦ rw (good, parse_config_file, fine) (subst IsSafeIfAny fine safe)
            ]
      ]
