-- ===== src/Main/Reach.antt =====
-- The states that the program of macdetectd/src/daemon.cpp reaches.
use macdetect.Base.{
  ℕ, zero, suc, ◌+◌, ◌≤◌, ◌<◌, Bool, true, List, [], ◌∷◌, Option, some, Text, if◌then◌else◌, ◌≡◌,
  refl, sym, if-cases, Bool-cases, Option-cases, inl, inr, arith,
}
use mathlib.Core.Path.{subst}
use macdetect.Doubles.{Doubles}
use macdetect.Network.Follow.{Clock}
use macdetect.Network.Settings.{set_auto_manage_devices, set_device_white_blacklist_mode}
use macdetect.Daemon.Settings.{Setup, Defaults, parse_config_file}
use macdetect.Daemon.Cycle.{Round, Turn, cycle, shutdown}
use macdetect.Daemon.Start.{Numbers, new_network, new_server, new_daemon}
use macdetect.Daemon.Safe.{IsSafe, cycle-IsSafe, shutdown-IsSafe}
use macdetect.Daemon.Total.{OnlyRequests, cycle-returns}
use macdetect.Main.Laws.{cycle-shutdown}
use macdetect.Daemon.Configured.{IsSafeRead, parse_config_file-IsSafe}
use macdetect.Daemon.{Daemon}
use macdetect.Main.{load_config, main_loop, returned}

module _ {D : Type 0} (dbl : Doubles D) where
  -- The states behind the loading of the configuration, rounds of the main loop and signals, in any
  -- order of the last two.
  pub data Reached (numbers : Numbers D) : Daemon D → Type 0 where
    configured :
        {d : Daemon D} (env : Setup D) (defaults : Defaults D) (files : Text → Option Text)
        (paths : List Text) (control : Bool) (vendors : List (Text × Text)) (auto : Bool)
        (identifier : Text) (loaded : Bool)
        → load_config env defaults files paths
            (new_daemon dbl numbers control vendors auto identifier)
          ≡ some (d, loaded)
        → Reached numbers d
    round :
        {d : Daemon D}
        → Reached numbers d
        → (env : Round D) (t : Turn D) → cycle dbl env d ≡ some t
        → Clock dbl env.system
        → Reached numbers t.daemon
    signal : {d : Daemon D} → Reached numbers d → Reached numbers (shutdown d)

  new_daemon-IsSafe :
      (numbers : Numbers D) (control : Bool) (vendors : List (Text × Text)) (auto : Bool)
      (identifier : Text)
      → IsSafe dbl (new_daemon dbl numbers control vendors auto identifier)
  unfolding new_daemon new_network new_server set_auto_manage_devices
      set_device_white_blacklist_mode
  new_daemon-IsSafe numbers control vendors auto identifier = record {
    sound = record {
      servings = tt;
      devices = tt;
      seen = record { distinct = tt; real = tt; timed = tt };
    };
    streams = record { owned = tt; answered = refl };
  }

  load_config-IsSafe :
      (env : Setup D) (defaults : Defaults D) (files : Text → Option Text) (paths : List Text)
      (d : Daemon D)
      → IsSafe dbl d
      → IsSafeRead dbl (load_config env defaults files paths d)
  unfolding load_config
  load_config-IsSafe env defaults files [] d h = h
  load_config-IsSafe env defaults files (path ∷ paths) d h =
      let read = parse_config_file-IsSafe dbl env defaults (files path) d h in
      elim (Option-cases (parse_config_file env defaults (files path) d)) [
        | inl throws ↦ rw (throws, load_config) tt
        | inr ((d', loaded), good) ↦
            let safe = subst (IsSafeRead dbl) good read in
            elim (Bool-cases loaded) [
              | inl found ↦ rw (good, load_config, found) safe
              | inr other ↦
                  rw (good, load_config, other)
                    (load_config-IsSafe env defaults files paths d' safe)
            ]
      ]

  -- In each state that the program reaches, no two serving sockets have one number, nor one device
  -- and port; no two known devices have one name; the seen addresses are in order; each stream is
  -- that of a connected client; and no value of a client waits. This holds whatever the configuration
  -- files, the network, the clients and the system do, as long as the clock never shows the time that
  -- means "unknown".
  pub Reached-IsSafe : (numbers : Numbers D) {d : Daemon D} → Reached numbers d → IsSafe dbl d
  Reached-IsSafe numbers
        (configured env defaults files paths control vendors auto identifier loaded e) =
      subst (IsSafeRead dbl) e (
        load_config-IsSafe env defaults files paths
          (new_daemon dbl numbers control vendors auto identifier)
          (new_daemon-IsSafe numbers control vendors auto identifier))
  Reached-IsSafe numbers (round {d} before env t turned clock) =
      cycle-IsSafe dbl env d t turned clock (Reached-IsSafe numbers before)
  Reached-IsSafe numbers (signal {d} before) = shutdown-IsSafe dbl d (Reached-IsSafe numbers before)

  -- The loop from its round `i` on, with a signal before the round `n`.
  main_loop-returns :
      (numbers : Numbers D) (f k i n : ℕ) (rounds : ℕ → Round D) (signals : ℕ → Bool) (d : Daemon D)
      → k < f
      → n ≡ i + k
      → signals n ≡ true
      → ((j : ℕ) → Clock dbl (rounds j).system × OnlyRequests (rounds j).clients)
      → Reached numbers d
      → (e : Daemon D) × (m : ℕ) × (main_loop f dbl rounds signals d i ≡ returned (e, m))
        × (m ≤ n + 1)
        × Reached numbers e
  unfolding main_loop
  main_loop-returns numbers zero k i n rounds signals d h e stops env r = absurd (omega arith)
  main_loop-returns numbers (suc f) zero i n rounds signals d h e stops env r =
      let here : n ≡ i = omega arith in
      let now : signals i ≡ true = rw (sym here) stops in
      let turned = cycle-shutdown dbl (rounds i) d in
      let next = round (signal r) (rounds i) _ turned (env i).0 in
      (_, i + 1, rw (main_loop, now, turned), omega arith, next)
  main_loop-returns numbers (suc f) (suc k) i n rounds signals d h e stops env r =
      let d' = if signals i then shutdown d else d in
      let r' = if-cases (Reached numbers) (signals i) (shutdown d) d (signal r) r in
      let (t, turned) =
        cycle-returns dbl (rounds i) d' (env i).1 (Reached-IsSafe numbers r').streams.answered in
      let next = round r' (rounds i) t turned (env i).0 in
      elim (Bool-cases t.success) [
        | inr off ↦ (t.daemon, i + 1, rw (main_loop, turned, off), omega arith, next)
        | inl on ↦
            let (e', m, left, least, last) =
              main_loop-returns numbers f k (i + 1) n rounds signals t.daemon (omega arith)
                (omega arith) stops env next in
            (e', m, rw (main_loop, turned, on) left, least, last)
      ]

  -- The main loop is left in a good state: if the clients send only requests, and a signal comes
  -- before the round `n`, then the loop returns after `n + 1` rounds at most, in which no null
  -- pointer is followed, and the state behind it has the invariant of the whole daemon. The loop
  -- starts in a state that the program reaches, `n + 1` is fuel enough, and the clock never shows the
  -- time that means "unknown".
  pub main_loop-IsSafe :
      (numbers : Numbers D) (f n : ℕ) (rounds : ℕ → Round D) (signals : ℕ → Bool) (d : Daemon D)
      → n < f
      → signals n ≡ true
      → ((j : ℕ) → Clock dbl (rounds j).system × OnlyRequests (rounds j).clients)
      → Reached numbers d
      → (e : Daemon D) × (m : ℕ) × (main_loop f dbl rounds signals d 0 ≡ returned (e, m))
        × (m ≤ n + 1)
        × IsSafe dbl e
  main_loop-IsSafe numbers f n rounds signals d h stops env r =
      let (e, m, left, least, last) =
        main_loop-returns numbers f n 0 n rounds signals d h (omega arith) stops env r in
      (e, m, left, least, Reached-IsSafe numbers last)
