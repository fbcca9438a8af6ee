-- ===== src/Cli/Launch/Laws.antt =====
-- However a launch ends, its processes are stopped; a launch without errors starts every node.
use rosy.Base.{
  ℕ, zero, suc, ◌≡◌, sym, refl, ap, ◌∙◌, true, false, Option, none, some, List, [], ◌∷◌, ◌++◌,
  if◌then◌else◌, All,
}
use rosy.Base.Text.{Text}
use rosy.Base.Dict.{Dict}
use rosy.Base.Exec.{Result, ok, err, after}
use rosy.Procman.{popen, add, merged, exit}
use rosy.Procman.Laws.{IsOrderly, stop_calls, stop_all}
use rosy.Cli.Launch.{
  Command, Config, NodeConfig, Platform, PopenOption, Manager, or_default, is_enabled, is_line,
  extend, start_times, start_enabled, start_node, start_nodes, excludes, launch_body, launch_main,
  name_option, shell_key, env_key, flag, environment,
}

-- The manager that a launch begins with.
abbrev pub new_manager : Manager
new_manager = record { processes = []; options = []; timeout = some 10; calls = [] }

module _ (platform : Platform) where
  abbrev pub with_all_stopped : Option ℕ → Manager → Manager
  with_all_stopped timeout pm = record pm {
    processes = [];
    calls = pm.calls ++ stop_calls platform.system timeout pm.processes;
  }

  -- Where signals raise nothing and waits end or time out: whatever the start of the nodes raised,
  -- and whether the wait ended or was interrupted, a launch gives what its body gave and leaves no
  -- process: every process of the manager got `SIGTERM`, and those that did not end were killed.
  pub launch_main-stops :
      (config : Config) (exclude : List Text)
      → IsOrderly platform.system
      → launch_main platform config exclude ≡ (
        (launch_body platform config exclude new_manager).0,
        with_all_stopped
            (launch_body platform config exclude new_manager).1.timeout
            (launch_body platform config exclude new_manager).1,
      )
  unfolding launch_main exit
  launch_main-stops config exclude orderly =
      let (r, pm) = launch_body platform config exclude new_manager in
      rw (stop_all platform.system orderly none pm) refl

  -- `Popen` gives a process whatever it is called with, and `sleep` ends.
  pub record Smooth : Type 0 where
    pub sleeps : (d : ℕ) → platform.sleep d ≡ ok tt
    pub spawns :
        (ps : List ℕ) (c : Command) (options : Dict Text PopenOption)
        → (p : ℕ) × (platform.spawn ps c options ≡ ok p)

  abbrev pub HasCommand : Text × NodeConfig → Type 0
  HasCommand (_, config) = (c : Command) × (config.command ≡ some c)

  -- A process to start: its command and the keyword arguments of `Popen`.
  abbrev pub Request : Type 0
  Request = Command × Dict Text PopenOption

  abbrev pub copies : ℕ → Request → List Request
  copies zero r = []
  copies (suc n) r = r ∷ copies n r

  -- The command of a node with its name, and the arguments that its shell and environment give.
  abbrev pub request_of : Text → NodeConfig → Dict Text Text → Command → Request
  request_of name config env c =
      let command = extend c (name_option ∷ name ∷ []) in
      (
        command,
        (shell_key, flag (or_default config.shell (is_line command)))
            ∷ (env_key, environment env)
            ∷ [],
      )

  -- What a node asks for: its request as often as its `number` says, once where it says nothing.
  abbrev pub requests_of : Text → NodeConfig → Dict Text Text → List Request
  requests_of name config env = elim config.command [
    | none ↦ []
    | some c ↦ copies (or_default config.number 1) (request_of name config env c)
  ]

  -- The requests of the nodes that are not excluded and enabled, in their order.
  abbrev pub requests : List Text → Dict Text Text → Dict Text NodeConfig → List Request
  requests exclude env [] = []
  requests exclude env ((name, config) ∷ nodes) =
      if excludes platform exclude name
      then requests exclude env nodes
      else (if is_enabled platform.hostname config then requests_of name config env else [])
        ++ requests exclude env nodes

  -- The process that `Popen` gives.
  abbrev pub process_of : Result ℕ → ℕ
  process_of (ok p) = p
  process_of (err _) = 0

  -- The processes after one is started for each request, behind those that were there.
  abbrev pub spawn_each : Dict Text PopenOption → List Request → List ℕ → List ℕ
  spawn_each options [] ps = ps
  spawn_each options ((c, kwargs) ∷ rs) ps =
      spawn_each options rs (ps ++ process_of (platform.spawn ps c (merged options kwargs)) ∷ [])

  spawn_each-append :
      (options : Dict Text PopenOption) (rs qs : List Request) (ps : List ℕ)
      → spawn_each options (rs ++ qs) ps ≡ spawn_each options qs (spawn_each options rs ps)
  spawn_each-append options [] qs ps = refl
  spawn_each-append options ((c, kwargs) ∷ rs) qs ps =
      spawn_each-append options rs qs
        (ps ++ process_of (platform.spawn ps c (merged options kwargs)) ∷ [])

  -- The manager with the processes of the requests.
  abbrev pub with_started : List Request → Manager → Manager
  with_started rs pm = record pm { processes = spawn_each pm.options rs pm.processes }

  popen_lem :
      (start : Dict Text PopenOption → Result ℕ) (kwargs : Dict Text PopenOption) (pm : Manager)
      (p : ℕ)
      → start (merged pm.options kwargs) ≡ ok p
      → popen start kwargs pm ≡ (ok p, record pm { processes = pm.processes ++ p ∷ [] })
  unfolding popen add
  popen_lem start kwargs pm p e = rw e refl

  module _ (smooth : Smooth) where
    start_times-eq :
        (c : Command) (kwargs : Dict Text PopenOption) (n : ℕ) (pm : Manager)
        → start_times platform c kwargs n pm ≡ (ok tt, with_started (copies n (c, kwargs)) pm)
    unfolding start_times
    start_times-eq c kwargs zero pm = refl
    start_times-eq c kwargs (suc n) pm =
        let (p, e) = smooth.spawns pm.processes c (merged pm.options kwargs) in
        ap (λ r. after r (λ _. start_times platform c kwargs n))
          (popen_lem (platform.spawn pm.processes c) kwargs pm p e)
        ∙ start_times-eq c kwargs n (record pm { processes = pm.processes ++ p ∷ [] })
        ∙ ap
            (λ q. (
              ok tt,
              record pm {
                processes = spawn_each pm.options (copies n (c, kwargs)) (pm.processes ++ q ∷ []);
              },
            ))
            (sym (ap process_of e))

    start_enabled-eq :
        (name : Text) (config : NodeConfig) (env : Dict Text Text) (pm : Manager)
        → HasCommand (name, config)
        → start_enabled platform name config env pm
          ≡ (ok tt, with_started (requests_of name config env) pm)
    unfolding start_enabled
    start_enabled-eq name config env pm (c, e) =
        let (command, kwargs) = request_of name config env c in
        rw
          (
            smooth.sleeps config.pre_delay,
            e,
            start_times-eq command kwargs (or_default config.number 1) pm,
            smooth.sleeps config.post_delay,
          )
          refl

    start_node-eq :
        (name : Text) (config : NodeConfig) (env : Dict Text Text) (pm : Manager)
        → HasCommand (name, config)
        → start_node platform name config env pm ≡ (
          ok tt,
          with_started
              (if is_enabled platform.hostname config then requests_of name config env else [])
              pm,
        )
    unfolding start_node
    start_node-eq name config env pm h =
        elim (is_enabled platform.hostname config)
          as (λ on.
            (elim on as (λ _. Result (Unit {0}) × Manager) [
              | false ↦ (ok tt, pm)
              | true ↦ start_enabled platform name config env pm
            ])
            ≡ (ok tt, with_started (if on then requests_of name config env else []) pm)) [
              | true ↦ start_enabled-eq name config env pm h
              | false ↦ refl
            ]

    -- Where `Popen` and `sleep` raise nothing and every node has a command: the nodes that are not
    -- excluded, not disabled and for this host are started in the order of the configuration,
    -- without an error, each as often as its number says, or once, with its command, its name and
    -- its keyword arguments; no other process is started.
    pub start_nodes-requests :
        (exclude : List Text) (env : Dict Text Text) (nodes : Dict Text NodeConfig) (pm : Manager)
        → All HasCommand nodes
        → start_nodes platform exclude env nodes pm
          ≡ (ok tt, with_started (requests exclude env nodes) pm)
    unfolding start_nodes
    start_nodes-requests exclude env [] pm h = refl
    start_nodes-requests exclude env ((name, config) ∷ nodes) pm h =
        let rest = start_nodes platform exclude env nodes in
        let mine =
          if is_enabled platform.hostname config then requests_of name config env else [] in
        let later = requests exclude env nodes in
        elim (excludes platform exclude name)
          as (λ out.
            (elim out as (λ _. Result (Unit {0}) × Manager) [
              | true ↦ rest pm
              | false ↦ after (start_node platform name config env pm) (λ _. rest)
            ])
            ≡ (ok tt, with_started (if out then later else mine ++ later) pm)) [
              | true ↦ start_nodes-requests exclude env nodes pm h.1
              | false ↦
                  ap (λ r. after r (λ _. rest)) (start_node-eq name config env pm h.0)
                  ∙ start_nodes-requests exclude env nodes (with_started mine pm) h.1
                  ∙ ap (λ ps. (ok tt, record pm { processes = ps }))
                      (sym (spawn_each-append pm.options mine later pm.processes))
            ]
