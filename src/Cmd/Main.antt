-- ===== src/Cmd/Main.antt =====
-- `main` and `printHelp` of main.go: the flags, the reading of the configuration, and how the process
-- ends where it does not serve. The flags are given as they stand behind `flag.Parse`.
pub mod Runs
use wsbalancer.Prelude.{
  ℕ, Bool, true, false, List, [], ◌∷◌, ◌++◌, Option, none, some, Text, codes, Exec, returns, ◌>>=◌,
  ◌⊎◌, inl, inr, if◌then◌else◌,
}
use wsbalancer.In.Inc.{Inc}
use wsbalancer.In.Sessions.{Backends}
use wsbalancer.Inst.{InstrumentValve}
use wsbalancer.Out.Backend.{Circuit, Backend}
use wsbalancer.Cmd.Compose.{Config, Level, Balancer, set_log_level, start}

pub record Flags : Type 0 where
  pub help : Bool
  pub config_file : Text

-- What `main` takes from libraries and from the system: `ReadConfig`, `ReadEnv` and `GetDescription`
-- of github.com/ilyakaznacheev/cleanenv, the configuration with the text of an error, or the
-- description or the text of an error; what `PrintDefaults` of the flags prints; `os.Args[0]`.
pub record Environment : Type 0 where
  pub read_config : Text → Config × Option Text
  pub read_env : Config × Option Text
  pub get_description : Text ⊎ Text
  pub print_defaults : Text
  pub name : Text

-- `os.Exit` with what was printed before, or the servers that `main` waits for.
pub data Outcome (K B W C : Type 0) : Type 0 where
  exits : ℕ → Text → Outcome K B W C
  serves : Option Level → Balancer K B W C → Outcome K B W C

-- The error of a `NewManager` that has no backend.
abbrev pub no_backend : Text
no_backend = codes "At least one backend must be provided"

-- `fmt.Println` of a text.
pub println : Text → Text
println s = s ++ codes "\n"

module _ (env : Environment) where
  -- The configuration is read from the file, and from the environment where none is named.
  unfoldable pub configuration : Text → Config × Option Text
  configuration [] = env.read_env
  configuration (c ∷ file) = env.read_config (c ∷ file)

  described : Text ⊎ Text → Text
  unfolding println
  described (inl help) = println help
  described (inr err) = println err

  -- What `printHelp` prints.
  pub usage : Text
  unfolding described
  usage =
      (codes "Usage of " ++ env.name ++ codes ":\n")
      ++ (env.print_defaults ++ described env.get_description)

  -- `printHelp`, behind what was printed before.
  print_help : {K B W C : Type 0} → Text → ℕ → Outcome K B W C
  unfolding usage
  print_help printed exit_code = exits exit_code (printed ++ usage)

module _ {K B W C V : Type 0} (backends : Backends B K W)
    (observe : Text → InstrumentValve → ℕ → W → W) (breaker : Circuit C V) (env : Environment)
    (blank_backend : Backend C) (blank : ℕ → Inc K) (pp : ℕ) where
  composed : Config → Option (Balancer K B W C) → Outcome K B W C
  unfolding print_help println
  composed cfg none = print_help env (println no_backend) 1
  composed cfg (some b) = serves (set_log_level cfg.server.logging_level none) b

  -- Behind the reading of the configuration.
  configured : Config × Option Text → Exec (Outcome K B W C)
  unfolding composed
  configured (cfg, some err) = returns (print_help env (println err) 1)
  configured (cfg, none) = do
    made ← start backends observe breaker blank_backend blank pp cfg
    returns (composed cfg made)

  unfoldable pub main : Flags → Exec (Outcome K B W C)
  unfolding configured configuration
  main flags =
      if flags.help
      then returns (print_help env [] 0)
      else configured (configuration env flags.config_file)
