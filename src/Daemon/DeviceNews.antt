-- ===== src/Daemon/DeviceNews.antt =====
-- A client of macdetectd/src/Daemon.cpp knows the names of the devices, whatever it follows.
use macdetect.Base.{
  ℕ, true, List, [], ◌∷◌, ◌++◌, Option, none, some, Text, text, str_eq, All, All-append, ◌≡◌, refl,
  sym, ap, ◌∙◌, Bool-cases, Option-cases, inl, inr,
}
use mathlib.Core.Path.{subst}
use macdetect.Doubles.{Doubles}
use macdetect.Value.{key, content}
use macdetect.Network.Cycle.{cycle as network_cycle}
use macdetect.Network.Names.{names, replay_names}
use macdetect.Network.NamesFollow.{replay_names-cycle}
use macdetect.Network.{Network}
use macdetect.Server.{Server, Sent, QueuedValue, take_removed, queued_values, cycle as server_cycle}
use macdetect.Server.Connections.{connections}
use macdetect.Daemon.Requests.{answer_request, handle_value, handle_values, response}
use macdetect.Daemon.Notices.{handle_events}
use macdetect.Daemon.Cycle.{Round, Turn, drop_streams, keep_alive, serve_round, cycle}
use macdetect.Daemon.Fold.{read_all, read_all-append, read_all-IsUnread}
use macdetect.Daemon.Following.{handle_events_rest}
use macdetect.Daemon.Replies.{IsReply, IsSame, handle_values-IsReply, keep_alive-IsSame}
use macdetect.Daemon.DeviceView.{
  track_names, IsApart, response-IsApart, server_cycle-IsApart, keep_alive-IsApart,
  read_names-handle_events,
}
use macdetect.Daemon.{Daemon}

abbrev pub device_names : {D : Type 0} → Daemon D → List Text
device_names d = names d.network.devices

module _ {D : Type 0} (dbl : Doubles D) where
  abbrev AreResponses : Option (Daemon D × Sent) → Type 0
  AreResponses none = Unit {0}
  AreResponses (some r) = All IsApart r.1

  handle_value-IsApart : (d : Daemon D) (q : QueuedValue) → AreResponses (handle_value dbl d q)
  unfolding handle_value response
  handle_value-IsApart d q = elim (Bool-cases (str_eq (key q.value) (text "request"))) [
    | inl request ↦ rw request (response-IsApart (content q.value) (answer_request dbl d q).1, tt)
    | inr other ↦ rw other tt
  ]

  handle_values-IsApart :
      (d : Daemon D) (qs : List QueuedValue) → AreResponses (handle_values dbl d qs)
  unfolding handle_values
  handle_values-IsApart d [] = tt
  handle_values-IsApart d (q ∷ qs) = elim (Option-cases (handle_value dbl d q)) [
    | inl bad ↦ rw (handle_values, bad) tt
    | inr (r, good) ↦ elim (Option-cases (handle_values dbl r.0 qs)) [
      | inl bad ↦ rw (handle_values, good, bad) tt
      | inr (r', fine) ↦
          rw (handle_values, good, fine)
            (All-append IsApart r.1 r'.1 (subst AreResponses good (handle_value-IsApart d q))
              (subst AreResponses fine (handle_values-IsApart r.0 qs)))
    ]
  ]

  module _ (h : ℕ) where
    -- The client stands among the clients once.
    abbrev pub IsOnce : Daemon D → Type 0
    IsOnce d = connections h d.server.served ≡ 1

    -- A client that knew these names knows, from what was sent, those that the events lead to, and the
    -- devices are as they were.
    abbrev IsNews : Daemon D → List Text → Turn D → Type 0
    IsNews d ns t =
        (read_all track_names h ns t.sent ≡ replay_names ns d.network.events)
        × (device_names t.daemon ≡ device_names d)

    abbrev IsNewsIfAny : Daemon D → List Text → Option (Turn D) → Type 0
    IsNewsIfAny d ns none = Unit {0}
    IsNewsIfAny d ns (some t) = IsOnce t.daemon → IsNews d ns t

    -- Behind the answers to the requests.
    notices-IsNews :
        (env : Round D) (d : Daemon D) (r : Daemon D × Sent) (ns : List Text)
        → IsSame d r.0
        → All IsApart r.1
        → let noticed = handle_events env.system r.0 r.0.network.events in
          let last = keep_alive dbl env.keep_alive_time noticed.0 in
          IsOnce last.0
          → IsNews d ns (record {
            daemon = last.0;
            sent = r.1 ++ (noticed.1 ++ last.1);
            multicast = [];
            success = true;
          })
    notices-IsNews env d r ns same apart once =
        let es = r.0.network.events in
        let noticed = handle_events env.system r.0 es in
        let last = keep_alive dbl env.keep_alive_time noticed.0 in
        let alive = (keep_alive-IsSame dbl env.keep_alive_time noticed.0).0 in
        let rest = handle_events_rest env.system h [] r.0 es in
        let once_here : connections h r.0.server.served ≡ 1 =
          ap (λ s. connections h (Server.served s)) (sym (alive.0 ∙ rest.0)) ∙ once in
        (
          read_all-append track_names h ns r.1 (noticed.1 ++ last.1)
              ∙ ap (λ m. read_all track_names h m (noticed.1 ++ last.1))
                  (read_all-IsUnread track_names h ns r.1 apart)
              ∙ read_all-append track_names h ns noticed.1 last.1
              ∙ read_all-IsUnread track_names h (read_all track_names h ns noticed.1) last.1
                  (keep_alive-IsApart dbl env.keep_alive_time noticed.0)
              ∙ read_names-handle_events env.system h r.0 es ns once_here
              ∙ ap (replay_names ns) same.2,
          ap names (alive.3 ∙ ap (λ n. Network.devices n) rest.1 ∙ same.3),
        )

    serve_round-IsNewsIfAny :
        (env : Round D) (d : Daemon D) (ns : List Text) → IsNewsIfAny d ns (serve_round dbl env d)
    unfolding serve_round take_removed queued_values
    serve_round-IsNewsIfAny env d ns =
        let server = record d.server { removed = []; value_queue = [] } in
        let dropped = record d {
          server = server;
          streams = drop_streams d.streams d.server.removed;
        } in
        let replies = handle_values-IsReply dbl dropped d.server.value_queue in
        let apart = handle_values-IsApart dropped d.server.value_queue in
        elim (Option-cases (handle_values dbl dropped d.server.value_queue)) [
          | inl bad ↦ rw (serve_round, bad) tt
          | inr (r, good) ↦
              let reply = subst (IsReply dropped) good replies in
              let unread = subst AreResponses good apart in
              rw (serve_round, good)
                (λ (once : IsOnce
                    (keep_alive dbl env.keep_alive_time
                      (handle_events env.system r.0 r.0.network.events).0).0).
                  notices-IsNews env dropped r ns reply.0 unread once)
        ]

    abbrev IsCurrentIfAny : Daemon D → Option (Turn D) → Type 0
    IsCurrentIfAny d none = Unit {0}
    IsCurrentIfAny d (some t) =
        t.success ≡ true
        → IsOnce t.daemon
        → read_all track_names h (device_names d) t.sent ≡ device_names t.daemon

    -- Behind the rounds of the network and of the server.
    rest-IsCurrent :
        (ns : List Text) (d : Daemon D) (hellos : Sent) (t : Turn D)
        → All IsApart hellos
        → replay_names ns d.network.events ≡ device_names d
        → IsNews d ns t
        → read_all track_names h ns (hellos ++ t.sent) ≡ device_names t.daemon
    rest-IsCurrent ns d hellos t apart followed news =
        read_all-append track_names h ns hellos t.sent
        ∙ ap (λ m. read_all track_names h m t.sent)
            (read_all-IsUnread track_names h ns hellos apart)
        ∙ news.0
        ∙ followed
        ∙ sym news.1

    cycle-IsCurrentIfAny : (env : Round D) (d : Daemon D) → IsCurrentIfAny d (cycle dbl env d)
    unfolding cycle
    cycle-IsCurrentIfAny env d =
        let network = (network_cycle dbl env.system d.network).0 in
        let server = (server_cycle env.clients d.server).0 in
        let hellos = (server_cycle env.clients d.server).1 in
        let here = record d { network = network; server = server } in
        elim (Bool-cases (network_cycle dbl env.system d.network).1) [
          | inr stops ↦ rw stops (λ e f. cc)
          | inl goes ↦ elim (Bool-cases (server_cycle env.clients d.server).2) [
            | inr down ↦ rw (goes, down) (λ e f. cc)
            | inl up ↦ elim (Option-cases (serve_round dbl env here)) [
              | inl bad ↦ rw (goes, up, bad) tt
              | inr (t, good) ↦
                  let news =
                    subst (IsNewsIfAny here (device_names d)) good
                      (serve_round-IsNewsIfAny env here (device_names d)) in
                  rw (goes, up, good)
                    (λ (e : t.success ≡ true) (once : IsOnce t.daemon).
                      rest-IsCurrent (device_names d) here hellos t
                        (server_cycle-IsApart env.clients d.server)
                        (replay_names-cycle dbl env.system d.network) (news once))
            ]
          ]
        ]

    -- Rounds that go on, and behind each of which the client stands among the clients once.
    pub data Connected (d : Daemon D) : Sent → Daemon D → Type 0 where
      start : Connected d [] d
      round :
          {sent : Sent} {e : Daemon D}
          → Connected d sent e
          → (env : Round D) (t : Turn D) → cycle dbl env e ≡ some t
          → t.success ≡ true
          → IsOnce t.daemon
          → Connected d (sent ++ t.sent) t.daemon

    -- Over any number of rounds of the daemon that go on, behind each of which a client stands among
    -- the clients once, the client knows the names of the devices from the values that were sent to
    -- it, in the order of the monitor, if it knew them at the start: no device that is added or
    -- removed is missed or told twice, whatever streams the client has and whatever else is sent.
    pub read_names-Connected :
        {d e : Daemon D} {sent : Sent}
        → Connected d sent e
        → read_all track_names h (device_names d) sent ≡ device_names e
    read_names-Connected start = unfold read_all in refl
    read_names-Connected {d} (round {sent} {e} before env t turned on once) =
        read_all-append track_names h (device_names d) sent t.sent
        ∙ ap (λ ns. read_all track_names h ns t.sent) (read_names-Connected before)
        ∙ subst (IsCurrentIfAny e) turned (cycle-IsCurrentIfAny env e) on once
