-- ===== src/Network/System.antt =====
-- What the operating system answers to macdetectd/src/Network.cpp, and what the library of regular
-- expressions and the resolver do. In one round of `Network::cycle` these answers are fixed.
use macdetect.Base.{ℕ, Bool, List, Option, Text}

-- An entry of `SIOCGIFCONF`, with the flag and the answer that give its hardware type.
pub record Interface : Type 0 where
  pub interface_name : Text
  pub is_loopback : Bool
  pub is_wireless : Bool

-- The flags and the addresses of a device.
pub record Status : Type 0 where
  pub up : Bool
  pub running : Bool
  pub ip : Text
  pub broadcast_ip : Text

pub record System (D : Type 0) : Type 0 where
  -- `std::regex_match`, for a pattern that `std::regex` accepts; for another one the constructor
  -- throws, and the program ends: the patterns of the model are accepted.
  pub regex_match : Text → Text → Bool
  pub interfaces : List Interface
  pub hardware_address : Text → List ℕ
  pub status : Text → Status
  -- What a read from the device gives; `none` is the result -1, and no bytes are the result 0.
  pub frame : Text → Option Text
  pub inet_ntoa : ℕ → ℕ → ℕ → ℕ → Text
  pub host_name : Text → Option Text
  -- The clock, where `cycle` begins, where a frame of a device is read, and behind the frames.
  pub cycle_time : D
  pub seen_time : Text → D
  pub hostname_time : D
