-- ===== src/Main.antt =====
-- macdetectd/src/daemon.cpp: the program of the daemon. What the system answers is an argument.
pub mod Laws
pub mod Reach
mod Tests
use macdetect.Base.{
  ℕ, zero, suc, ◌+◌, Bool, true, false, List, [], ◌∷◌, Option, none, some, Text, text,
  if◌then◌else◌,
}
use macdetect.Doubles.{Doubles}
use macdetect.Arguments.{
  ArgumentPrototype, Argument, switch, token, parse, switched, value as argument_value,
}
use macdetect.Wire.{SocketAnswers, privileges_suffice}
use macdetect.Daemon.Settings.{Setup, Defaults, parse_config_file}
use macdetect.Daemon.Cycle.{Round, cycle, shutdown}
use macdetect.Daemon.{Daemon}

-- The answers of `fork`, and to the child that of `setsid`.
pub data Fork : Type 0 where
  fork_failed : Fork
  parent : Fork
  child : (session : Bool) → Fork

-- The answers to the program: to the socket of `privilegesSuffice`, to `fork`, to the settings, the
-- text of each file that can be read, those to each round of the main loop, and whether a signal
-- comes before it.
pub record Startup (D : Type 0) : Type 0 where
  pub sockets : SocketAnswers
  pub fork : Fork
  pub setup : Setup D
  pub defaults : Defaults D
  pub files : Text → Option Text
  pub rounds : ℕ → Round D
  pub signals : ℕ → Bool

-- Of the main loop, with the number of its rounds, or of the program, with whether it returns
-- `EXIT_SUCCESS`.
pub data Outcome (A : Type 0) : Type 0 where
  returned : A → Outcome A
  crashed : Outcome A
  out_of_fuel : Outcome A

abbrev pub prototypes : List ArgumentPrototype
prototypes =
    record { short_name = text "d"; long_name = text "daemon"; argument_type = switch }
    ∷ record { short_name = text "c"; long_name = text "config-file"; argument_type = token }
    ∷ []

-- `lstConfigFiles`
abbrev pub config_files : Text → List Text
config_files config_file =
    config_file
    ∷ text "~/.macdetectd/macdetectd.config"
    ∷ text "/usr/local/share/macdetect/config/default.config"
    ∷ text "/usr/share/macdetect/config/default.config"
    ∷ []

-- `bRunnable` and whether `nReturnvalue` is `EXIT_SUCCESS`, before the main loop.
unfoldable pub go_into_background : Bool → Fork → Bool × Bool
go_into_background false fork = (true, false)
go_into_background true fork_failed = (false, false)
go_into_background true parent = (false, true)
go_into_background true (child session) = (true, session)

module _ {D : Type 0} where
  -- The loop over the files; `none` is an exception.
  unfoldable pub load_config :
      Setup D → Defaults D → (Text → Option Text) → List Text → Daemon D → Option (Daemon D × Bool)
  load_config env defaults files [] d = some (d, false)
  load_config env defaults files (path ∷ paths) d =
      elim (parse_config_file env defaults (files path) d) [
        | none ↦ none
        | some (d', loaded) ↦
            let rest = load_config env defaults files paths d' in
            if loaded then some (d', true) else rest
      ]

  -- `while(g_dmDaemon.cycle())`. A signal comes between two rounds: then `catchHandler` shuts the
  -- daemon down.
  unfoldable pub main_loop :
      ℕ → Doubles D → (ℕ → Round D) → (ℕ → Bool) → Daemon D → ℕ → Outcome (Daemon D × ℕ)
  main_loop zero dbl rounds signals d i = out_of_fuel
  main_loop (suc f) dbl rounds signals d i =
      elim (cycle dbl (rounds i) (if signals i then shutdown d else d)) [
        | none ↦ crashed
        | some t ↦
            let rest = main_loop f dbl rounds signals t.daemon (i + 1) in
            if t.success then rest else returned (t.daemon, i + 1)
      ]

  -- The result of the program behind its main loop.
  unfoldable pub exit : Bool → Outcome (Daemon D × ℕ) → Outcome Bool
  exit exits (returned r) = returned exits
  exit exits crashed = crashed
  exit exits out_of_fuel = out_of_fuel

  -- What is behind the loading of a configuration file.
  unfoldable pub run : ℕ → Doubles D → Startup D → Bool → Option (Daemon D × Bool) → Outcome Bool
  unfolding exit
  run f dbl env exits none = crashed
  run f dbl env exits (some (d, loaded)) = exit exits (main_loop f dbl env.rounds env.signals d 0)

  -- `main`, behind the parsing of the command line.
  unfoldable pub start : ℕ → Doubles D → Startup D → List Argument → Daemon D → Outcome Bool
  unfolding run
  start f dbl env arguments d =
      let (runnable, exits) =
        go_into_background (switched prototypes arguments (text "daemon")) env.fork in
      let config_file = argument_value prototypes arguments (text "config-file") in
      if privileges_suffice env.sockets
      then if runnable
        then run f dbl env exits
            (load_config env.setup env.defaults env.files (config_files config_file) d)
        else returned exits
      else returned false

  -- `main`, with the arguments behind the name of the program.
  unfoldable pub main : ℕ → Doubles D → Startup D → List Text → Daemon D → Outcome Bool
  main f dbl env artifacts d = elim (parse prototypes [] artifacts) [
    | none ↦ out_of_fuel
    | some arguments ↦ start f dbl env arguments d
  ]
