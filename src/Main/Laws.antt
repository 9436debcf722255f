-- ===== src/Main/Laws.antt =====
-- The start and the end of the daemon in macdetectd/src/daemon.cpp.
use macdetect.Base.{
  ℕ, zero, suc, ◌+◌, ◌≤◌, ◌<◌, Bool, true, false, List, [], ◌∷◌, Option, none, some, Text, text,
  if◌then◌else◌, ◌≡◌, ◌≢◌, sym, refl, arith, Bool-cases, Option-cases, inl, inr,
}
use macdetect.Doubles.{Doubles}
use macdetect.Config.{load_from_string}
use macdetect.Network.Cycle.{cycle as network_cycle}
use macdetect.Server.{cycle as server_cycle, shutdown as server_shutdown}
use macdetect.Daemon.Settings.{Setup, Defaults, apply_settings, parse_config_file}
use macdetect.Daemon.Cycle.{Round, cycle, shutdown}
use macdetect.Daemon.{Daemon}
use macdetect.Arguments.{Argument, switched, value as argument_value}
use macdetect.Wire.{privileges_suffice}
use macdetect.Main.{
  Startup, prototypes, config_files, go_into_background, load_config, main_loop, exit, run, start,
  Outcome, returned, crashed, out_of_fuel,
}

module _ {D : Type 0} where
  -- The first of the files that can be read, and the settings in it; if there is none, the daemon as
  -- it is.
  unfoldable pub first_settings :
      Setup D → Defaults D → (Text → Option Text) → List Text → Daemon D → Option (Daemon D × Bool)
  first_settings env defaults files [] d = some (d, false)
  first_settings env defaults files (path ∷ paths) d = elim (files path) [
    | none ↦ first_settings env defaults files paths d
    | some content ↦ parse_config_file env defaults (some content) d
  ]

  -- Of the configuration files the first one that can be read decides, and no other one is used; if
  -- it throws, the program ends. If none can be read, the daemon runs unconfigured.
  pub load_config_lem :
      (env : Setup D) (defaults : Defaults D) (files : Text → Option Text) (paths : List Text)
      (d : Daemon D)
      → load_config env defaults files paths d ≡ first_settings env defaults files paths d
  unfolding load_config parse_config_file first_settings
  load_config_lem env defaults files [] d = refl
  load_config_lem env defaults files (path ∷ paths) d = elim (Option-cases (files path)) [
    | inl unread ↦
        rw (load_config, first_settings, unread) (load_config_lem env defaults files paths d)
    | inr (content, found) ↦ elim (Option-cases (load_from_string content)) [
      | inl broken ↦ rw (load_config, first_settings, found, broken)
      | inr (m, loaded) ↦ elim (Option-cases (apply_settings env defaults m d)) [
        | inl throws ↦ rw (load_config, first_settings, found, loaded, throws)
        | inr (d', applied) ↦ rw (load_config, first_settings, found, loaded, applied)
      ]
    ]
  ]

  -- The round after `shutdown`: the daemon sends nothing, its server and its streams are as before,
  -- and `cycle` returns false.
  pub cycle-shutdown :
      (dbl : Doubles D) (env : Round D) (d : Daemon D)
      → cycle dbl env (shutdown d)
        ≡ some (record {
          daemon = record (shutdown d) {
            network = (network_cycle dbl env.system (shutdown d).network).0;
          };
          sent = [];
          multicast = [];
          success = false;
        })
  unfolding cycle shutdown server_cycle server_shutdown
  cycle-shutdown dbl env d =
      elim (Bool-cases (network_cycle dbl env.system (shutdown d).network).1) [
        | inl on ↦ rw on
        | inr off ↦ rw off
      ]

  -- A run of the main loop ends: by a crash, or after `n` rounds at most.
  abbrev pub EndsWithin : ℕ → Outcome (Daemon D × ℕ) → Type 0
  EndsWithin n (returned r) = r.1 ≤ n
  EndsWithin n crashed = Unit {0}
  EndsWithin n out_of_fuel = ⊥

  main_loop-EndsWithin :
      (f k i n : ℕ) (dbl : Doubles D) (rounds : ℕ → Round D) (signals : ℕ → Bool) (d : Daemon D)
      → k < f
      → n ≡ i + k
      → signals n ≡ true
      → EndsWithin (n + 1) (main_loop f dbl rounds signals d i)
  unfolding main_loop
  main_loop-EndsWithin zero k i n dbl rounds signals d h e stops = absurd (omega arith)
  main_loop-EndsWithin (suc f) zero i n dbl rounds signals d h e stops =
      let here : n ≡ i = omega arith in
      let now : signals i ≡ true = rw (sym here) stops in
      rw (main_loop, now, cycle-shutdown dbl (rounds i) d) (omega arith)
  main_loop-EndsWithin (suc f) (suc k) i n dbl rounds signals d h e stops =
      elim (Option-cases (cycle dbl (rounds i) (if signals i then shutdown d else d))) [
        | inl crash ↦ rw (main_loop, crash) tt
        | inr (t, turned) ↦ elim (Bool-cases t.success) [
          | inl on ↦
              rw (main_loop, turned, on)
                (main_loop-EndsWithin f k (i + 1) n dbl rounds signals t.daemon (omega arith)
                  (omega arith) stops)
          | inr off ↦ rw (main_loop, turned, off) (omega arith)
        ]
      ]

  -- A signal ends the main loop, whatever the network and the clients do: if one comes before the
  -- round `n`, then, unless the daemon crashes, the loop is left after `n + 1` rounds at most, and
  -- `n + 1` is fuel enough.
  pub main_loop_ends :
      (f n : ℕ) (dbl : Doubles D) (rounds : ℕ → Round D) (signals : ℕ → Bool) (d : Daemon D)
      → n < f
      → signals n ≡ true
      → EndsWithin (n + 1) (main_loop f dbl rounds signals d 0)
  main_loop_ends f n dbl rounds signals d h stops =
      main_loop-EndsWithin f n 0 n dbl rounds signals d h (omega arith) stops

  exit-failure : (o : Outcome (Daemon D × ℕ)) → exit false o ≢ returned true
  unfolding exit
  exit-failure (returned r) = λ e. cc
  exit-failure crashed = λ e. cc
  exit-failure out_of_fuel = λ e. cc

  run-failure :
      (f : ℕ) (dbl : Doubles D) (env : Startup D) (loaded : Option (Daemon D × Bool))
      → run f dbl env false loaded ≢ returned true
  unfolding run
  run-failure f dbl env none = λ e. cc
  run-failure f dbl env (some (d, b)) = exit-failure (main_loop f dbl env.rounds env.signals d 0)

  -- Without the switch `daemon` the program never returns `EXIT_SUCCESS`, also when the privileges
  -- suffice and its main loop ends as it should.
  pub start_foreground :
      (f : ℕ) (dbl : Doubles D) (env : Startup D) (arguments : List Argument) (d : Daemon D)
      → switched prototypes arguments (text "daemon") ≡ false
      → start f dbl env arguments d ≢ returned true
  unfolding start go_into_background
  start_foreground f dbl env arguments d off = elim (Bool-cases (privileges_suffice env.sockets)) [
    | inl enough ↦
        rw (off, enough)
          (run-failure f dbl env (
            load_config env.setup env.defaults env.files
              (config_files (argument_value prototypes arguments (text "config-file"))) d))
    | inr less ↦ rw (off, less) (λ e. cc)
  ]
