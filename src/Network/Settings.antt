-- ===== src/Network/Settings.antt =====
-- The setters of macdetectd/src/Network.cpp.
use macdetect.Base.{Bool}
use macdetect.Network.{Network, WhiteBlackListMode}

module _ {D : Type 0} where
  -- `setMaxMACAge` and `setMACMaxAge` are the same.
  unfoldable pub set_max_mac_age : Network D → D → Network D
  set_max_mac_age n age = record n { max_mac_age = age }

  unfoldable pub set_update_interval : Network D → D → Network D
  set_update_interval n interval = record n { update_interval = interval }

  unfoldable pub set_ping_broadcast_interval : Network D → D → Network D
  set_ping_broadcast_interval n interval = record n { ping_broadcast_interval = interval }

  unfoldable pub set_ignore_device_macs : Network D → Bool → Network D
  set_ignore_device_macs n ignore = record n { ignore_device_macs = ignore }

  unfoldable pub set_device_white_blacklist_mode : Network D → WhiteBlackListMode → Network D
  set_device_white_blacklist_mode n mode' = record n { mode = mode' }

  unfoldable pub set_auto_manage_devices : Network D → Bool → Network D
  set_auto_manage_devices n manage = record n { auto_manage_devices = manage }
