-- ===== src/Daemon/History.antt =====
-- The rounds of macdetectd/src/Daemon.cpp, one behind the other, with all that was sent in them.
use macdetect.Base.{ℕ, true, [], ◌++◌, some, Text, ◌≡◌, refl, ap, ◌∙◌}
use macdetect.Doubles.{Doubles}
use macdetect.Network.Tracking.{Inv}
use macdetect.Network.Follow.{Clock}
use macdetect.Server.{Sent}
use macdetect.Daemon.Cycle.{Round, Turn, cycle}
use macdetect.Daemon.Fold.{read_all, read_all-append}
use macdetect.Daemon.View.{track, track_all}
use macdetect.Daemon.Knows.{Follows, macs, track_all-cycle}
use macdetect.Daemon.{Daemon}

module _ {D : Type 0} (dbl : Doubles D) where
  -- Rounds that go on, and behind each of which the client `h` follows the device `name`.
  pub data Followed (h : ℕ) (name : Text) (d : Daemon D) : Sent → Daemon D → Type 0 where
    start : Followed h name d [] d
    round :
        {sent : Sent} {e : Daemon D}
        → Followed h name d sent e
        → (env : Round D) (t : Turn D) → cycle dbl env e ≡ some t
        → t.success ≡ true
        → Clock dbl env.system
        → Follows h name t.daemon
        → Followed h name d (sent ++ t.sent) t.daemon

  -- Over any number of rounds that go on, behind each of which a client follows a device and stands
  -- among the clients once, the client knows the addresses on the device from the values that were
  -- sent to it, if it knew them at the start: none is missed, told twice or out of order, whatever
  -- else is sent, whoever else is connected, and whatever happens on other devices. The invariant of
  -- the seen addresses holds at the start, and the clock never shows the time that means "unknown".
  pub track_all-Followed :
      (h : ℕ) (name : Text) {d e : Daemon D} {sent : Sent}
      → Followed h name d sent e
      → Inv dbl d.network
      → (track_all h name (macs h name d) sent ≡ macs h name e) × Inv dbl e.network
  track_all-Followed h name start v = (unfold read_all in refl, v)
  track_all-Followed h name {d} (round {sent} {e} before env t turned on clock follows) v =
      let (known, v') = track_all-Followed h name before v in
      let (last, v'') = track_all-cycle h name dbl env e t turned on clock v' follows in
      (
        read_all-append (track name) h (macs h name d) sent t.sent
            ∙ ap (λ ms. track_all h name ms t.sent) known
            ∙ last,
        v'',
      )
