-- ===== src/Daemon.antt =====
-- macdetectd/include/macdetectd/Daemon.h: the daemon, which joins the monitor of the network and the
-- server, and knows which client follows which device. The operations of macdetectd/src/Daemon.cpp
-- stand in the children.
pub mod Streams
pub mod Requests
pub mod Notices
pub mod Cycle
pub mod StreamLaws
pub mod RequestLaws
pub mod Settings
pub mod NoticeLaws
pub mod Owners
pub mod Keeping
pub mod Fold
pub mod DeviceView
pub mod DeviceNews
pub mod View
pub mod Delivery
pub mod Following
pub mod Knows
pub mod History
pub mod Replies
pub mod Owned
pub mod Answers
pub mod Answering
pub mod Unasked
pub mod Answered
pub mod Learning
pub mod Start
pub mod Safe
pub mod Total
pub mod Configured
mod Tests
mod HistoryTests
mod AnswerTests
mod DeviceTests
use macdetect.Base.{ℕ, List, Text}
use macdetect.Network.{Network}
use macdetect.Server.{Server}

pub record Stream : Type 0 where
  pub served : ℕ
  pub device_name : Text

pub record Daemon (D : Type 0) : Type 0 where
  pub identifier : Text
  pub server : Server
  pub network : Network D
  pub streams : List Stream
  pub last_keep_alive : D
  pub keep_alive_interval : D
