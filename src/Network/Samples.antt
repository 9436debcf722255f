-- ===== src/Network/Samples.antt =====
-- A network, an instance of `double`, and the answers of a system, for the tests.
use macdetect.Base.{
  ℕ, ◌+◌, ◌-◌, [], ◌∷◌, List, Option, refl, none, true, false, Text, text, str_eq, ltb, leb, ◌==◌,
}
use macdetect.Doubles.{Doubles}
use macdetect.Device.{Device, make}
use macdetect.Network.System.{System}
use macdetect.Network.{MacEntity, Network, WhiteBlackListMode}

-- Whole seconds, one later than the source's, so that 0 is the time -1.
abbrev pub seconds : Doubles ℕ
seconds = record {
  plus = λ a b. a + b - 1;
  minus = λ a b. a + 1 - b;
  gt = λ a b. ltb b a;
  ge = λ a b. leb b a;
  eq = λ a b. a == b;
  zero = 1;
  minus_one = 0;
  show = λ a. a ∷ [];
  eq-minus_one = refl;
}

abbrev pub wired_device : Device ℕ
wired_device = record (make seconds (text "eth0") none) { up = true }

abbrev pub seen : Text → ℕ → MacEntity ℕ
seen mac t = record {
  mac = mac;
  device_name = text "eth0";
  host_name = [];
  ip = [];
  first_seen = t;
  last_seen = t;
  last_update = t;
}

abbrev pub known : List (MacEntity ℕ)
known = seen (text "02:00:00:00:00:01") 2 ∷ seen (text "02:00:00:00:00:02") 900 ∷ []

abbrev pub network : Network ℕ
network = record {
  control = true;
  auto_manage_devices = false;
  devices = wired_device ∷ [];
  system_device_names = [];
  events = [];
  macs_seen = known;
  mode = WhiteBlackListMode.blacklist;
  patterns = [];
  max_mac_age = 301;
  update_interval = 16;
  ping_broadcast_interval = 11;
  hostnames_last_checked = 1;
  hostname_check_interval = 6;
  should_run = true;
  ignore_device_macs = false;
  mac_evidence = [];
  vendors = [];
}

-- An ARP frame from a third address.
abbrev pub arp : Text
arp = 255 ∷ 255 ∷ 255 ∷ 255 ∷ 255 ∷ 255 ∷ 2 ∷ 0 ∷ 0 ∷ 0 ∷ 0 ∷ 3 ∷ 8 ∷ 6 ∷ 0 ∷ 1 ∷ []

abbrev pub answers : Option Text → System ℕ
answers frame = record {
  regex_match = λ pattern name. str_eq pattern name;
  interfaces = [];
  hardware_address = λ name. 2 ∷ 0 ∷ 0 ∷ 0 ∷ 0 ∷ 9 ∷ [];
  status = λ name. record { up = true; running = true; ip = []; broadcast_ip = [] };
  frame = λ name. frame;
  inet_ntoa = λ a b c d. a ∷ b ∷ c ∷ d ∷ [];
  host_name = λ ip. none;
  cycle_time = 1000;
  seen_time = λ name. 1001;
  hostname_time = 1002;
}
