-- ===== src/Daemon/Learning.antt =====
-- A client of macdetectd/src/Daemon.cpp that asks for the known addresses, and follows a device then.
use macdetect.Base.{ℕ, true, [], ◌∷◌, some, Text, text, ◌≡◌, ap, ◌∙◌}
use mathlib.Core.Path.{subst}
use macdetect.Doubles.{Doubles}
use macdetect.Value.{Value, content}
use macdetect.Network.Follow.{Clock}
use macdetect.Server.{Sent}
use macdetect.Server.Received.{got}
use macdetect.Server.Connections.{connections}
use macdetect.Server.Queue.{clients_of}
use macdetect.Daemon.Cycle.{Round, Turn, cycle}
use macdetect.Daemon.View.{track_all}
use macdetect.Daemon.Knows.{macs}
use macdetect.Daemon.History.{Followed, track_all-Followed}
use macdetect.Daemon.Safe.{IsSafe, cycle-IsSafe}
use macdetect.Daemon.Answers.{responses, read_known, read_devices}
use macdetect.Daemon.Answering.{known_in}
use macdetect.Daemon.Fold.{read_all}
use macdetect.Daemon.DeviceView.{track_names}
use macdetect.Daemon.DeviceNews.{device_names, Connected, read_names-Connected}
use macdetect.Daemon.Answered.{IsAnswered, cycle-IsAnswered}
use macdetect.Daemon.{Daemon}

-- A client learns the addresses on a device from scratch: it asks for the known addresses in a round,
-- gets one response, and follows the device behind each later round. All rounds go on. From this
-- response and the values that are sent to it in the later rounds it knows exactly the addresses on
-- the device, however many rounds there are. It does not read the notices of the round in which it
-- asks: they are sent behind the response, which has what they tell already. The invariant of the
-- daemon holds before the first of the rounds, the client stands once among the clients, and the
-- clock never shows the time that means "unknown".
pub track_all-read_known :
    {D : Type 0} (dbl : Doubles D) (h : ℕ) (name : Text) (env : Round D) (d : Daemon D) (t : Turn D)
    (v : Value) {sent : Sent} {e : Daemon D}
    → IsSafe dbl d
    → Clock dbl env.system
    → cycle dbl env d ≡ some t
    → t.success ≡ true
    → connections h (clients_of env.clients d.server) ≡ 1
    → env.clients.received h ≡ got v
    → content v ≡ text "known-mac-addresses"
    → Followed dbl h name t.daemon sent e
    → (w : Value) × (responses h t.sent ≡ w ∷ [])
      × (track_all h name (read_known name w) sent ≡ macs h name e)
track_all-read_known dbl h name env d t v {sent} {e} safe clock turned on once given asks later =
    let (w, only, _, tells, _) =
      subst (λ r. IsAnswered (known_in t.daemon) r (responses h t.sent)) given
        (cycle-IsAnswered dbl h env d t turned on safe.streams.answered once) in
    let safe' = cycle-IsSafe dbl env d t turned clock safe in
    (
      w,
      only,
      ap (λ ms. track_all h name ms sent) (tells asks name)
          ∙ (track_all-Followed dbl h name later safe'.sound.seen).0,
    )

-- A client learns the names of the devices from scratch: it asks for the list of the devices in a
-- round, gets one response, and stands among the clients once behind each later round. All rounds go
-- on. From this response and the values that are sent to it in the later rounds it knows exactly the
-- names of the devices, in their order, however many rounds there are. It does not read the notices
-- of the round in which it asks: they are sent behind the response, which has what they tell already.
-- No value waits before the first of the rounds, and the client stands once among its clients.
pub read_names-read_devices :
    {D : Type 0} (dbl : Doubles D) (h : ℕ) (env : Round D) (d : Daemon D) (t : Turn D) (v : Value)
    {sent : Sent} {e : Daemon D}
    → d.server.value_queue ≡ []
    → cycle dbl env d ≡ some t
    → t.success ≡ true
    → connections h (clients_of env.clients d.server) ≡ 1
    → env.clients.received h ≡ got v
    → content v ≡ text "devices-list"
    → Connected dbl h t.daemon sent e
    → (w : Value) × (responses h t.sent ≡ w ∷ [])
      × (read_all track_names h (read_devices w) sent ≡ device_names e)
read_names-read_devices dbl h env d t v {sent} empty turned on once given asks later =
    let (w, only, _, _, lists) =
      subst (λ r. IsAnswered (known_in t.daemon) r (responses h t.sent)) given
        (cycle-IsAnswered dbl h env d t turned on empty once) in
    (
      w,
      only,
      ap (λ ns. read_all track_names h ns sent) (lists asks) ∙ read_names-Connected dbl h later,
    )
