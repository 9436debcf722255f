-- ===== src/Daemon/Settings.antt =====
-- `Daemon::parseConfigFile` of macdetectd/src/Daemon.cpp. What `sscanf` reads and what the system
-- answers to `serve` are arguments.
use macdetect.Base.{
  ℕ, Bool, true, false, List, [], ◌∷◌, Option, none, some, Text, text, str_eq, ◌==◌, if◌then◌else◌,
  ◌>>=◌, ◌≡◌, Option-cases, inl, inr, ◌⊎◌,
}
use mathlib.Core.Path.{subst}
use macdetect.Config.{Sections, load_from_string, value, list}
use macdetect.Network.System.{System}
use macdetect.Network.Devices.{add_device_white_blacklist_entry}
use macdetect.Network.{Network, whitelist, blacklist}
use macdetect.Server.{Server, serve}
use macdetect.Server.Ids.{Distinct, serve-Distinct}
use macdetect.Daemon.{Daemon}

-- The answers: `"%lf"`, 0 if there is no number; `"%d"`, as an `unsigned short`; the socket for a
-- device and port, and whether `bind` works.
pub record Setup (D : Type 0) : Type 0 where
  pub system : System D
  pub scan_double : Text → D
  pub scan_port : Text → ℕ
  pub new_socket : Text → ℕ → Option ℕ
  pub bound : Text → ℕ → Bool

-- The default values of the file's numbers.
pub record Defaults (D : Type 0) : Type 0 where
  pub keep_alive_interval : D
  pub max_mac_age : D
  pub update_interval : D
  pub ping_broadcast_interval : D

-- The device and the port of an entry; without a colon both are the whole entry, as `npos + 1` is 0.
unfoldable pub find_colon : Text → Option (Text × Text)
find_colon [] = none
find_colon (c ∷ cs) =
    let rest = find_colon cs >>= λ r. some (c ∷ r.0, r.1) in
    if c == b':' then some ([], cs) else rest

unfoldable pub serve_entry : Text → Text × Text
unfolding find_colon
serve_entry entry = elim (find_colon entry) [ some r ↦ r | none ↦ (entry, entry) ]

module _ {D : Type 0} where
  -- `Config::doubleValue`
  unfoldable pub double_value : Setup D → Sections → Text → Text → D → D
  double_value env m section term default_value =
      let v = value m section term [] true in
      if str_eq v [] then default_value else env.scan_double v

  unfoldable pub set_list_mode : Network D → Text → Network D
  set_list_mode n mode =
      if str_eq mode (text "whitelist")
      then record n { mode = whitelist }
      else if str_eq mode (text "blacklist")
      then record n { mode = blacklist }
      else n

  unfoldable pub add_entries : System D → Network D → List Text → Network D
  add_entries sys n [] = n
  add_entries sys n (entry ∷ entries) =
      add_entries sys (add_device_white_blacklist_entry sys n entry) entries

  unfoldable pub serve_entries : Setup D → Server → List Text → Server
  serve_entries env s [] = s
  serve_entries env s (entry ∷ entries) =
      let name = (serve_entry entry).0 in
      let port = env.scan_port (serve_entry entry).1 in
      serve_entries env (serve (env.new_socket name port) (env.bound name port) s name port).0
        entries

  -- The settings of a file that could be read.
  unfoldable pub apply_settings : Setup D → Defaults D → Sections → Daemon D → Option (Daemon D)
  apply_settings env defaults m d = do
    let moded =
        set_list_mode d.network
          (value m (text "network") (text "list-mode") (text "whitelist") true)
    allowed ← list m (text "network") (text "allowed-devices")
    let network = record (add_entries env.system moded allowed) {
      max_mac_age = double_value env m (text "network") (text "max-mac-age") defaults.max_mac_age;
      update_interval =
          double_value env m (text "network") (text "update-interval") defaults.update_interval;
      ping_broadcast_interval =
          double_value env m (text "network") (text "ping-broadcast-interval")
            defaults.ping_broadcast_interval;
    }
    serves ← list m (text "server") (text "serve")
    some (record d {
      network = network;
      keep_alive_interval =
          double_value env m (text "server") (text "keepalive-interval")
            defaults.keep_alive_interval;
      server = serve_entries env d.server serves;
      identifier = value m (text "server") (text "name") (text "New Server") true;
    })

  -- `parseConfigFile`, with the text of the file, if there is one.
  unfoldable pub parse_config_file :
      Setup D → Defaults D → Option Text → Daemon D → Option (Daemon D × Bool)
  parse_config_file env defaults none d = some (d, false)
  parse_config_file env defaults (some content) d = do
    m ← load_from_string content
    d' ← apply_settings env defaults m d
    some (d', true)

  pub serve_entries-Distinct :
      (env : Setup D) (s : Server) (entries : List Text)
      → Distinct s.servings
      → Distinct (serve_entries env s entries).servings
  unfolding serve_entries
  serve_entries-Distinct env s [] h = h
  serve_entries-Distinct env s (entry ∷ entries) h =
      let name = (serve_entry entry).0 in
      let port = env.scan_port (serve_entry entry).1 in
      serve_entries-Distinct env
        (serve (env.new_socket name port) (env.bound name port) s name port).0 entries
        (serve-Distinct (env.new_socket name port) (env.bound name port) s name port h)

  abbrev KeepsApart : Option (Daemon D) → Type 0
  KeepsApart none = Unit {0}
  KeepsApart (some d) = Distinct d.server.servings

  apply_settings-KeepsApart :
      (env : Setup D) (defaults : Defaults D) (m : Sections) (d : Daemon D)
      → Distinct d.server.servings
      → KeepsApart (apply_settings env defaults m d)
  unfolding apply_settings
  apply_settings-KeepsApart env defaults m d h =
      elim (Option-cases (list m (text "network") (text "allowed-devices"))) [
        | inl p ↦ rw (p, apply_settings) tt
        | inr (allowed, p) ↦ elim (Option-cases (list m (text "server") (text "serve"))) [
          | inl q ↦ rw (p, apply_settings, q) tt
          | inr (serves, q) ↦
              rw (p, apply_settings, q) (serve_entries-Distinct env d.server serves h)
        ]
      ]

  -- The settings of any file keep the serving sockets apart: no two have the same number, nor the
  -- same device and port, whatever the file asks for and the system answers.
  pub apply_settings-Distinct :
      (env : Setup D) (defaults : Defaults D) (m : Sections) (d d' : Daemon D)
      → apply_settings env defaults m d ≡ some d'
      → Distinct d.server.servings
      → Distinct d'.server.servings
  apply_settings-Distinct env defaults m d d' e h =
      subst KeepsApart e (apply_settings-KeepsApart env defaults m d h)

  -- A file without `allowed-devices` in its section `network`, or without `serve` in its section
  -- `server`, throws an exception; the list may not be left out.
  pub apply_settings_missing :
      (env : Setup D) (defaults : Defaults D) (m : Sections) (d : Daemon D)
      → (list m (text "network") (text "allowed-devices") ≡ none)
        ⊎ (list m (text "server") (text "serve") ≡ none)
      → apply_settings env defaults m d ≡ none
  unfolding apply_settings
  apply_settings_missing env defaults m d (inl p) = rw (p, apply_settings)
  apply_settings_missing env defaults m d (inr q) =
      elim (Option-cases (list m (text "network") (text "allowed-devices"))) [
        | inl p ↦ rw (p, apply_settings)
        | inr (allowed, p) ↦ rw (p, apply_settings, q)
      ]
