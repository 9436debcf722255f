-- ===== src/Main/Tests.antt =====
-- The program of the daemon at concrete inputs.
use macdetect.Base.{
  ℕ, Bool, true, false, List, [], ◌∷◌, Option, none, some, Text, text, trim_end, str_eq, ◌≡◌, ◌==◌,
  refl, sym, ap, ◌∙◌, ◌≤◌, arith,
}
use macdetect.Network.Samples.{seconds, network, answers, arp}
use macdetect.Server.{would_block, Clients}
use macdetect.Server.Received.{nothing}
use macdetect.Daemon.Settings.{Setup, Defaults}
use macdetect.Daemon.Cycle.{Round, Turn, cycle}
use macdetect.Daemon.Total.{OnlyRequests, cycle-returns}
use macdetect.Daemon.Safe.{IsSafe}
use macdetect.Daemon.{Daemon}
use macdetect.Arguments.{Argument, parameter}
use macdetect.Main.{Startup, load_config, main_loop, child, config_files, returned}
use macdetect.Main.Reach.{Reached, configured, round, Reached-IsSafe, main_loop-IsSafe}
use macdetect.Daemon.Start.{Numbers, new_daemon}
use macdetect.Daemon.Settings.{parse_config_file, apply_settings}
use macdetect.Base.Dict.{lookup, insert, str_lt}
use macdetect.Config.{
  load_from_string, parse_lines, parse_from, filter_lines, split_string, list, stored_value,
  section_of, assignment,
}

abbrev daemon : Daemon ℕ
daemon = record {
  identifier = text "home";
  server = record {
    server_name = text "home";
    run = true;
    servings = [];
    served = (20, 0) ∷ [];
    value_queue = [];
    removed = [];
  };
  network = network;
  streams = [];
  last_keep_alive = 1;
  keep_alive_interval = 6;
}

abbrev setup : Setup ℕ
setup = record {
  system = answers none;
  scan_double = λ s. 26;
  scan_port = λ s. 7090;
  new_socket = λ name port. some 9;
  bound = λ name port. true;
}

abbrev defaults : Defaults ℕ
defaults = record {
  keep_alive_interval = 2;
  max_mac_age = 301;
  update_interval = 11;
  ping_broadcast_interval = 11;
}

-- Only the last of the files is there.
abbrev files : Text → Option Text
files path = elim (str_eq path (text "/usr/share/macdetect/config/default.config")) [
  | true ↦ some (text "[network]")
  | false ↦ none
]

abbrev clients : Clients
clients = record {
  answer = λ v. record { listens = true; accept = would_block };
  received = λ h. nothing false;
}

abbrev idle_round : Round ℕ
idle_round = record {
  system = answers none;
  clients = clients;
  discovery = none;
  keep_alive_time = 3;
}

-- A signal comes before the third round.
abbrev signals : ℕ → Bool
signals i = i == 2

abbrev startup : Startup ℕ
startup = record {
  sockets = record { new_socket = some 5; index_found = true; address_found = true; bound = true };
  fork = child true;
  setup = setup;
  defaults = defaults;
  files = files;
  rounds = λ i. idle_round;
  signals = signals;
}

abbrev arguments : List Argument
arguments = record { key = []; value = text "now"; argument_type = parameter } ∷ []

-- One device is allowed and served.
abbrev config : Text
config = text "[network]\nallowed-devices=eth0\n[server]\nserve=eth0:7090"

abbrev numbers : Numbers ℕ
numbers = record {
  max_mac_age = 301;
  update_interval = 11;
  ping_broadcast_interval = 11;
  hostname_check_interval = 16;
  keep_alive_interval = 2;
}

abbrev fresh : Daemon ℕ
fresh = new_daemon seconds numbers true [] false (text "home")

abbrev only_file : Text → Option Text
only_file path = some config

abbrev loaded_from : Option (Daemon ℕ × Bool) → Daemon ℕ
loaded_from none = fresh
loaded_from (some r) = r.0

abbrev begun : Daemon ℕ
begun = loaded_from (load_config setup defaults only_file (config_files []) fresh)

begun-Reached : Reached seconds numbers begun
unfolding load_config parse_config_file load_from_string text parse_lines parse_from filter_lines
    split_string trim_end apply_settings list stored_value lookup insert str_eq str_lt section_of
    assignment
begun-Reached =
    configured setup defaults only_file (config_files []) true [] false (text "home") true refl

-- The device is there and gives a frame.
abbrev frame_round : Round ℕ
frame_round = record {
  system = record (answers (some arp)) {
    interfaces =
        record { interface_name = text "eth0"; is_loopback = false; is_wireless = false } ∷ [];
  };
  clients = clients;
  discovery = none;
  keep_alive_time = 3;
}

abbrev turn : Option (Turn ℕ) → Turn ℕ
turn none = record { daemon = fresh; sent = []; multicast = []; success = false }
turn (some t) = t

abbrev after : Daemon ℕ → Daemon ℕ
after d = (turn (cycle seconds frame_round d)).daemon

silent : OnlyRequests clients
silent h v e = cc

another : (d : Daemon ℕ) → Reached seconds numbers d → Reached seconds numbers (after d)
another d r =
    let (t, e) =
      cycle-returns seconds frame_round d silent
        (Reached-IsSafe seconds numbers r).streams.answered in
    round r frame_round (turn (cycle seconds frame_round d)) (e ∙ ap some (sym (ap turn e)))
      (λ name. refl)

-- In the first round the device is added, and in the second one an address is seen on it.
Reached-IsSafe_example : IsSafe seconds (after (after begun))
Reached-IsSafe_example =
    Reached-IsSafe seconds numbers (another (after begun) (another begun begun-Reached))

main_loop-IsSafe_example :
    (e : Daemon ℕ) × (m : ℕ) × (main_loop 3 seconds (λ i. frame_round) signals begun 0
      ≡ returned (e, m))
    × (m ≤ 3)
    × IsSafe seconds e
main_loop-IsSafe_example =
    main_loop-IsSafe seconds numbers 3 2 (λ i. frame_round) signals begun (omega arith) refl
      (λ j. ((λ name. refl), silent)) begun-Reached
