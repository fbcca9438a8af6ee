-- ===== src/Cli/Launch.antt =====
-- src/rosy/cli/launch/: processes for the nodes of a configuration. The configuration is what YAML
-- gives; what the operating system does is a parameter.
pub mod Laws
pub mod Accounts
use rosy.Base.{
  ℕ, zero, suc, Bool, true, false, not, ◌&&◌, ◌||◌, Option, none, some, List, [], ◌∷◌, ◌++◌, ◌==◌,
  if◌then◌else◌, holds,
}
use rosy.Base.Text.{Text, Text-discrete}
use rosy.Base.Dict.{Dict, set}
use rosy.Base.Exec.{
  Error, Exec, Result, ok, err, after, lift, finally, foreign, interrupt, ◌>>=◌, ◌>>◌,
}
use rosy.Procman.{System, ProcessManager, popen, exit, wait}

-- The texts of the program.
abbrev pub domain_id_key : Text
domain_id_key =
    b'R' ∷ b'O' ∷ b'S' ∷ b'Y' ∷ b'_' ∷ b'D' ∷ b'O' ∷ b'M' ∷ b'A' ∷ b'I' ∷ b'N' ∷ b'_' ∷ b'I' ∷ b'D'
    ∷ []

abbrev pub name_option : Text
name_option = b'-' ∷ b'-' ∷ b'n' ∷ b'a' ∷ b'm' ∷ b'e' ∷ []

abbrev pub shell_key : Text
shell_key = b's' ∷ b'h' ∷ b'e' ∷ b'l' ∷ b'l' ∷ []

abbrev pub env_key : Text
env_key = b'e' ∷ b'n' ∷ b'v' ∷ []

-- `args` of a `ProcessArgs`, and `command` of a node.
pub data Command : Type 0 where
  line : Text → Command
  words : List Text → Command

-- The first and the last character are double quotes.
abbrev pub ends_quoted : Text → Bool
ends_quoted [] = false
ends_quoted (c ∷ []) = c == b'"'
ends_quoted (_ ∷ c ∷ t) = ends_quoted (c ∷ t)

abbrev pub is_quoted : Text → Bool
is_quoted [] = false
is_quoted (c ∷ t) = (c == b'"') && ends_quoted (c ∷ t)

abbrev pub has_space : Text → Bool
has_space [] = false
has_space (c ∷ t) = (c == b' ') || has_space t

unfoldable pub quote_arg : Text → Text
quote_arg [] = b'"' ∷ b'"' ∷ []
quote_arg (c ∷ t) =
    if has_space (c ∷ t) && not (is_quoted (c ∷ t)) then b'"' ∷ (c ∷ t) ++ b'"' ∷ [] else c ∷ t

unfoldable pub append : Command → Text → Command
unfolding quote_arg
append (line args) arg = line (args ++ b' ' ∷ quote_arg arg)
append (words args) arg = words (args ++ arg ∷ [])

unfoldable pub extend : Command → List Text → Command
unfolding append
extend command [] = command
extend command (arg ∷ args) = extend (append command arg) args

-- The value of a keyword argument of `Popen`.
pub data PopenOption : Type 0 where
  flag : Bool → PopenOption
  environment : Dict Text Text → PopenOption

-- A node of the configuration; an entry that may be missing is an option.
pub record NodeConfig : Type 0 where
  pub disabled : Bool
  pub on_host : Option Text
  pub pre_delay : ℕ
  pub command : Option Command
  pub shell : Option Bool
  pub number : Option ℕ
  pub post_delay : ℕ

pub record Config : Type 0 where
  pub domain_id : Option Text
  pub nodes : Dict Text NodeConfig

-- The system of a process manager, `sleep`, and `Popen`, whose answer may depend on the processes
-- that were started before.
pub record Platform : Type 0 where
  pub system : System
  pub sleep : ℕ → Result (Unit {0})
  pub spawn : List ℕ → Command → Dict Text PopenOption → Result ℕ
  pub environ : Dict Text Text
  pub hostname : Text

abbrev pub Manager : Type 0
Manager = ProcessManager PopenOption

abbrev pub or_default {ℓ} : {A : Type ℓ} → Option A → A → A
or_default none default = default
or_default (some value) default = value

unfoldable pub is_enabled_on_host : Text → NodeConfig → Bool
is_enabled_on_host hostname config =
    holds (Text-discrete (or_default config.on_host hostname) hostname)

unfoldable pub is_enabled : Text → NodeConfig → Bool
unfolding is_enabled_on_host
is_enabled hostname config = not config.disabled && is_enabled_on_host hostname config

unfoldable pub get_node_env : Dict Text Text → Option Text → Dict Text Text
get_node_env environ none = environ
get_node_env environ (some domain_id) = set Text-discrete domain_id_key domain_id environ

abbrev pub is_line : Command → Bool
is_line (line _) = true
is_line (words _) = false

module _ (platform : Platform) where
  -- The loop that starts a node `number` times.
  unfoldable pub start_times : Command → Dict Text PopenOption → ℕ → Exec Manager (Unit {0})
  start_times command kwargs zero pm = (ok tt, pm)
  start_times command kwargs (suc n) pm =
      after (popen (platform.spawn pm.processes command) kwargs pm)
        (λ _. start_times command kwargs n)

  -- `config["command"]`: a missing command raises a `KeyError`.
  abbrev pub command_of : NodeConfig → Result Command
  command_of config = elim config.command [ none ↦ err foreign | some command ↦ ok command ]

  -- `start_node` for a node that is enabled.
  unfoldable pub start_enabled : Text → NodeConfig → Dict Text Text → Exec Manager (Unit {0})
  start_enabled name config env = do
    lift (platform.sleep config.pre_delay)
    command ← lift (command_of config)
    λ pm.
        let command' = extend command (name_option ∷ name ∷ []) in
        let shell = or_default config.shell (is_line command') in
        start_times command' ((shell_key, flag shell) ∷ (env_key, environment env) ∷ [])
          (or_default config.number 1) pm
    lift (platform.sleep config.post_delay)

  unfoldable pub start_node : Text → NodeConfig → Dict Text Text → Exec Manager (Unit {0})
  start_node name config env pm = elim (is_enabled platform.hostname config) [
    | false ↦ (ok tt, pm)
    | true ↦ start_enabled name config env pm
  ]

  -- `node_name in args.exclude`
  abbrev pub excludes : List Text → Text → Bool
  excludes [] name = false
  excludes (x ∷ xs) name = holds (Text-discrete name x) || excludes xs name

  unfoldable pub start_nodes :
      List Text → Dict Text Text → Dict Text NodeConfig → Exec Manager (Unit {0})
  start_nodes exclude env [] pm = (ok tt, pm)
  start_nodes exclude env ((name, config) ∷ nodes) pm = elim (excludes exclude name) [
    | true ↦ start_nodes exclude env nodes pm
    | false ↦ after (start_node name config env pm) (λ _. start_nodes exclude env nodes)
  ]

  -- `except KeyboardInterrupt: pass`, the interrupt that comes while the program waits.
  abbrev pub uninterrupted : Result (Unit {0}) × Manager → Result (Unit {0}) × Manager
  uninterrupted (err interrupt, pm) = (ok tt, pm)
  uninterrupted (r, pm) = (r, pm)

  -- What stands inside `with ProcessManager()`.
  unfoldable pub launch_body : Config → List Text → Exec Manager (Unit {0})
  launch_body config exclude pm =
      after (start_nodes exclude (get_node_env platform.environ config.domain_id) config.nodes pm)
        (λ _ pm'. uninterrupted (wait platform.system none pm'))

  -- `launch_main`, for a configuration that was loaded.
  unfoldable pub launch_main : Config → List Text → Result (Unit {0}) × Manager
  launch_main config exclude =
      let pm : Manager = record { processes = []; options = []; timeout = some 10; calls = [] } in
      finally (launch_body config exclude pm) (exit platform.system)
