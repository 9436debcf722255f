-- ===== src/Daemon/Answered.antt =====
-- A round of `Daemon::cycle` in macdetectd/src/Daemon.cpp answers the requests of its clients.
use macdetect.Base.{
  ℕ, ap₂, Bool, true, false, List, [], ◌∷◌, ◌++◌, Option, none, some, Text, text, ◌≡◌, refl, sym,
  ap, ◌∙◌, Bool-cases, Option-cases, inl, inr, append-nil, All-append,
}
use mathlib.Core.Path.{subst}
use macdetect.Doubles.{Doubles}
use macdetect.Value.{Value, content}
use macdetect.Network.Cycle.{cycle as network_cycle}
use macdetect.Server.{QueuedValue, Received, take_removed, queued_values, cycle as server_cycle}
use macdetect.Server.Received.{got, nothing}
use macdetect.Server.Connections.{connections}
use macdetect.Server.Delivery.{Received-cases}
use macdetect.Server.Queue.{of_client, clients_of, cycle_queues, cycle_silent}
use macdetect.Daemon.Requests.{handle_values}
use macdetect.Daemon.Notices.{handle_events}
use macdetect.Daemon.Cycle.{Round, Turn, drop_streams, keep_alive, serve_round, cycle}
use macdetect.Daemon.Replies.{IsReply, handle_values-IsReply}
use macdetect.Daemon.Owned.{server_cycle_up}
use macdetect.Daemon.Safe.{notices-IsCarried}
use macdetect.Daemon.Answers.{
  IsOther, responses, responses-append, responses-IsOther, read_known, read_devices,
}
use macdetect.Daemon.Answering.{
  AreAnswers, AreAnswersIfAny, Knowledge, known_of, known_in, handle_values-AreAnswers,
}
use macdetect.Daemon.Unasked.{handle_events-IsOther, keep_alive-IsOther, server_cycle-IsOther}
use macdetect.Daemon.{Daemon}

-- The responses to a client that gave a value, or none, in a round: one response with the content of
-- the value, and no response.
abbrev pub IsAnswered : Knowledge → Received → List Value → Type 0
IsAnswered known (got v) ws =
    (w : Value) × (ws ≡ w ∷ [])
    × (content w ≡ content v)
    × (content v ≡ text "known-mac-addresses"
        → (name : Text) → read_known name w ≡ known.macs_of name)
    × (content v ≡ text "devices-list" → read_devices w ≡ known.all_names)
IsAnswered known (nothing b) ws = ws ≡ []

AreAnswers-none :
    (known : Knowledge) (qs : List QueuedValue) (ws : List Value)
    → qs ≡ []
    → AreAnswers known qs ws
    → ws ≡ []
AreAnswers-none known [] [] e a = refl
AreAnswers-none known [] (w ∷ ws) e a = absurd a
AreAnswers-none known (q ∷ qs) ws e a = cc

AreAnswers-one :
    (known : Knowledge) (q : QueuedValue) (ws : List Value)
    → AreAnswers known (q ∷ []) ws
    → IsAnswered known (got q.value) ws
AreAnswers-one known q [] a = absurd a
AreAnswers-one known q (w ∷ []) a = (w, refl, a.0.same, a.0.tells, a.0.lists)
AreAnswers-one known q (w ∷ u ∷ ws) a = absurd a.1

module _ {D : Type 0} (dbl : Doubles D) (h : ℕ) where
  -- The answers that were given, with the addresses that are known behind the round.
  abbrev GivesIfAny : List QueuedValue → Option (Turn D) → Type 0
  GivesIfAny qs none = Unit {0}
  GivesIfAny qs (some t) = AreAnswers (known_in t.daemon) qs (responses h t.sent)

  serve_round-GivesIfAny :
      (env : Round D) (d : Daemon D)
      → GivesIfAny (of_client h d.server.value_queue) (serve_round dbl env d)
  unfolding serve_round take_removed queued_values
  serve_round-GivesIfAny env d =
      let server = record d.server { removed = []; value_queue = [] } in
      let dropped = record d {
        server = server;
        streams = drop_streams d.streams d.server.removed;
      } in
      let qs = d.server.value_queue in
      elim (Option-cases (handle_values dbl dropped qs)) [
        | inl bad ↦ rw (serve_round, bad) tt
        | inr (r, good) ↦
            let answers =
              subst (AreAnswersIfAny dbl h dropped qs) good
                (handle_values-AreAnswers dbl h dropped qs) in
            let reply = subst (IsReply dropped) good (handle_values-IsReply dbl dropped qs) in
            let carried = notices-IsCarried dbl env dropped r reply in
            let noticed = handle_events env.system r.0 r.0.network.events in
            let last = keep_alive dbl env.keep_alive_time noticed.0 in
            let others = responses-IsOther h (noticed.1 ++ last.1) (
              All-append IsOther noticed.1 last.1
                (handle_events-IsOther env.system r.0 r.0.network.events)
                (keep_alive-IsOther dbl env.keep_alive_time noticed.0)) in
            let whole : responses h (r.1 ++ (noticed.1 ++ last.1)) ≡ responses h r.1 =
              responses-append h r.1 (noticed.1 ++ last.1)
              ∙ ap (◌++◌ (responses h r.1)) others
              ∙ append-nil (responses h r.1) in
            let known : known_in last.0 ≡ known_in dropped = ap₂ known_of carried.2 carried.1 in
            rw (serve_round, good, whole)
              (subst (λ k. AreAnswers k (of_client h qs) (responses h r.1)) (sym known) answers)
      ]

  -- What a round gives that goes on.
  abbrev AnswersIfAny : Round D → Daemon D → Option (Turn D) → Type 0
  AnswersIfAny env d none = Unit {0}
  AnswersIfAny env d (some t) =
      t.success ≡ true
      → (d.server.run ≡ true)
        × AreAnswers (known_in t.daemon)
            (of_client h (server_cycle env.clients d.server).0.value_queue) (responses h t.sent)

  -- Behind the round of the network, when the server runs.
  cycle_running-AnswersIfAny :
      (env : Round D) (d : Daemon D)
      → (network_cycle dbl env.system d.network).1 ≡ true
      → d.server.run ≡ true
      → AnswersIfAny env d (cycle dbl env d)
  unfolding cycle
  cycle_running-AnswersIfAny env d goes up =
      let server = (server_cycle env.clients d.server).0 in
      let hellos = (server_cycle env.clients d.server).1 in
      let here = record d {
        network = (network_cycle dbl env.system d.network).0;
        server = server;
      } in
      let given = serve_round-GivesIfAny env here in
      let running = server_cycle_up env.clients d.server up in
      elim (Option-cases (serve_round dbl env here)) [
        | inl bad ↦ rw (goes, running, bad) tt
        | inr (t, good) ↦
            let answers = subst (GivesIfAny (of_client h server.value_queue)) good given in
            let whole : responses h (hellos ++ t.sent) ≡ responses h t.sent =
              responses-append h hellos t.sent
              ∙ ap (λ l. l ++ responses h t.sent)
                  (responses-IsOther h hellos (server_cycle-IsOther env.clients d.server)) in
            rw (goes, running, good, whole) (λ on. (up, answers))
      ]

  cycle-AnswersIfAny : (env : Round D) (d : Daemon D) → AnswersIfAny env d (cycle dbl env d)
  unfolding cycle server_cycle
  cycle-AnswersIfAny env d = elim (Bool-cases (network_cycle dbl env.system d.network).1) [
    | inr stops ↦ rw stops (λ e. cc)
    | inl goes ↦ elim (Bool-cases d.server.run) [
      | inr down ↦ rw (goes, down) (λ e. cc)
      | inl up ↦ cycle_running-AnswersIfAny env d goes up
    ]
  ]

  -- In a round of the daemon that goes on, a client that gives a value gets exactly one response in
  -- the same round, with the content of its request, and a client that gives none gets no response.
  -- The response to a request for the known addresses has those that are known behind the round, and
  -- the response to a request for the devices has their names. The client stands among those of the
  -- round once, and no value waits before it.
  pub cycle-IsAnswered :
      (env : Round D) (d : Daemon D) (t : Turn D)
      → cycle dbl env d ≡ some t
      → t.success ≡ true
      → d.server.value_queue ≡ []
      → connections h (clients_of env.clients d.server) ≡ 1
      → IsAnswered (known_in t.daemon) (env.clients.received h) (responses h t.sent)
  cycle-IsAnswered env d t e on empty once =
      let (up, answers) = subst (AnswersIfAny env d) e (cycle-AnswersIfAny env d) on in
      let known = known_in t.daemon in
      let ws = responses h t.sent in
      let server = (server_cycle env.clients d.server).0 in
      let quiet : (b : Bool) → env.clients.received h ≡ nothing b → ws ≡ [] = λ b none_given.
        AreAnswers-none known (of_client h server.value_queue) ws
          (cycle_silent env.clients d.server h b up empty none_given) answers in
      elim (Received-cases (env.clients.received h)) [
        | inl (v, given) ↦
            let (id, queue) = cycle_queues env.clients d.server h v up empty given once in
            let q : QueuedValue = record { value = v; served = h; serving_id = id } in
            rw given
              (AreAnswers-one known q ws (subst (λ qs. AreAnswers known qs ws) queue answers))
        | inr (inl failed) ↦ rw failed (quiet true failed)
        | inr (inr waits) ↦ rw waits (quiet false waits)
      ]
