-- ===== src/Daemon/Start.antt =====
-- The constructors of `Network`, `Server` and `Daemon` in macdetectd/src: the daemon before it reads
-- its configuration.
use macdetect.Base.{Bool, true, List, [], Text}
use macdetect.Doubles.{Doubles}
use macdetect.Network.Settings.{set_auto_manage_devices, set_device_white_blacklist_mode}
use macdetect.Network.{Network, whitelist, blacklist}
use macdetect.Server.{Server}
use macdetect.Daemon.{Daemon}

-- The numbers in the constructors: 300.0, 10.0, 10.0, 15.0 and 1.0.
pub record Numbers (D : Type 0) : Type 0 where
  pub max_mac_age : D
  pub update_interval : D
  pub ping_broadcast_interval : D
  pub hostname_check_interval : D
  pub keep_alive_interval : D

module _ {D : Type 0} (dbl : Doubles D) (numbers : Numbers D) where
  -- With whether the control socket could be made, and the vendors that `readVendors` found.
  -- `m_bAutoManageDevices` has no value yet, which is an argument.
  unfoldable pub new_network : Bool → List (Text × Text) → Bool → Network D
  new_network control vendors auto_manage_devices = record {
    control = control;
    auto_manage_devices = auto_manage_devices;
    devices = [];
    system_device_names = [];
    events = [];
    macs_seen = [];
    mode = blacklist;
    patterns = [];
    max_mac_age = numbers.max_mac_age;
    update_interval = numbers.update_interval;
    ping_broadcast_interval = numbers.ping_broadcast_interval;
    hostnames_last_checked = dbl.zero;
    hostname_check_interval = numbers.hostname_check_interval;
    should_run = true;
    ignore_device_macs = true;
    mac_evidence = [];
    vendors = vendors;
  }

  unfoldable pub new_server : Server
  new_server = record {
    server_name = [];
    run = true;
    servings = [];
    served = [];
    value_queue = [];
    removed = [];
  }

  unfoldable pub new_daemon : Bool → List (Text × Text) → Bool → Text → Daemon D
  unfolding new_network new_server
  new_daemon control vendors auto_manage_devices identifier = record {
    identifier = identifier;
    server = new_server;
    network =
        set_device_white_blacklist_mode
          (set_auto_manage_devices (new_network control vendors auto_manage_devices) true)
          whitelist;
    streams = [];
    last_keep_alive = dbl.zero;
    keep_alive_interval = numbers.keep_alive_interval;
  }
