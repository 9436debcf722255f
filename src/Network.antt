-- ===== src/Network.antt =====
-- macdetectd/include/macdetectd/Network.h: the state of the monitor. The operations of
-- macdetectd/src/Network.cpp stand in the children. The sockets, the regular expressions and the
-- resolver are not part of the repository: what they answer is an argument of the operations.
pub mod System
pub mod Devices
pub mod Evidence
pub mod Activity
pub mod Cycle
pub mod Macs
pub mod Replay
pub mod Tracking
pub mod Sound
pub mod Quiet
pub mod Follow
pub mod Loops
pub mod EvidenceLaws
pub mod Samples
pub mod Settings
pub mod Frames
pub mod Known
pub mod Names
pub mod Managed
pub mod Steady
pub mod Rounds
pub mod NamesKept
pub mod NamesFollow
mod Tests
use macdetect.Base.{ℕ, Bool, List, Option, Text, ◌++◌, ◌∷◌, []}
use macdetect.Event.{Event}
use macdetect.Device.{Device}

pub data WhiteBlackListMode : Type 0 where
  whitelist blacklist : WhiteBlackListMode

pub record MacEntity (D : Type 0) : Type 0 where
  pub mac : Text
  pub device_name : Text
  pub host_name : Text
  pub ip : Text
  pub first_seen : D
  pub last_seen : D
  pub last_update : D

-- `control` tells whether the control socket could be made.
pub record Network (D : Type 0) : Type 0 where
  pub control : Bool
  pub auto_manage_devices : Bool
  pub devices : List (Device D)
  pub system_device_names : List Text
  pub events : List Event
  pub macs_seen : List (MacEntity D)
  pub mode : WhiteBlackListMode
  pub patterns : List Text
  pub max_mac_age : D
  pub update_interval : D
  pub ping_broadcast_interval : D
  pub hostnames_last_checked : D
  pub hostname_check_interval : D
  pub should_run : Bool
  pub ignore_device_macs : Bool
  pub mac_evidence : List (Text × List (Text × Text))
  pub vendors : List (Text × Text)

-- `scheduleEvent`
abbrev pub schedule_event : {D : Type 0} → Network D → Event → Network D
schedule_event n e = record n { events = n.events ++ (e ∷ []) }
