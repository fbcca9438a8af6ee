-- ===== src/Cli/Launch/Accounts.antt =====
-- No process that a launch started is left behind.
use rosy.Base.{
  ℕ, ◌≡◌, refl, sym, ap, subst, Option, none, some, List, [], ◌∷◌, ◌++◌, map, All, OneOf, OneOf-map,
  OneOf-append_left, OneOf-append_right, All-OneOf, ◌⊎◌, inl, inr,
}
use rosy.Base.Text.{Text}
use rosy.Base.Exec.{Error, Result, ok, err, interrupt, after, value_error}
use rosy.Procman.{
  Call, terminates, ProcessManager, wait, wait_for, System, called, waits, remove, removed,
}
use rosy.Procman.Laws.{IsOrderly, Ended, removed_head, stop_calls}
use rosy.Cli.Launch.{
  Platform, Config, Manager, get_node_env, start_nodes, launch_body, launch_main, uninterrupted,
}
use rosy.Cli.Launch.Laws.{new_manager, with_all_stopped, launch_main-stops}

Result_cases : (r : Result (Unit {0})) → (r ≡ ok tt) ⊎ ((e : Error) × (r ≡ err e))
Result_cases (ok _) = inl refl
Result_cases (err e) = inr (e, refl)

-- The program waited for the process, and it ended.
abbrev pub Awaited : System → Option ℕ → List Call → ℕ → Type 0
Awaited system t calls p = OneOf (waits p t) calls × Ended system t p

-- What follows keeps a call.
after_keeps :
    {V : Type 0} (c : Call) (r : Result (Unit {0}) × ProcessManager V)
    (rest : ProcessManager V → Result (Unit {0}) × ProcessManager V)
    → ((m : ProcessManager V) → OneOf c m.calls → OneOf c (rest m).1.calls)
    → OneOf c r.1.calls
    → OneOf c (after r (λ _. rest)).1.calls
after_keeps c (ok _, m) rest keeps h = keeps m h
after_keeps c (err e, m) rest keeps h = h

module _ {V : Type 0} (system : System) (t : Option ℕ) where
  removed_calls : (p : ℕ) (m : ProcessManager V) → (removed p m).1.calls ≡ m.calls
  removed_calls p m =
      elim (remove p m.processes)
        as (λ r.
          calls_of (elim r as (λ _. Result (Unit {0}) × ProcessManager V) [
            | none ↦ (err value_error, m)
            | some left ↦ (ok tt, record m { processes = left })
          ])
          ≡ m.calls) [ none ↦ refl | some left ↦ refl ]
    where
      calls_of : Result (Unit {0}) × ProcessManager V → List Call
      calls_of r = r.1.calls

  -- A wait keeps the calls that were made before.
  wait_for_keeps :
      (ps : List ℕ) (m : ProcessManager V) (c : Call)
      → OneOf c m.calls
      → OneOf c (wait_for system t ps m).1.calls
  unfolding wait_for
  wait_for_keeps [] m c h = h
  wait_for_keeps (q ∷ qs) m c h =
      let m' = called (waits q t) m in
      let made : OneOf c m'.calls = OneOf-append_left c m.calls (waits q t ∷ []) h in
      elim (Result_cases (system.waited_on q t)) [
        | inr (e, raised) ↦ rw raised made
        | inl ended ↦ rw ended (
            after_keeps c (removed q m') (wait_for system t qs) (λ n g. wait_for_keeps qs n c g)
              (subst (OneOf c) (sym (removed_calls q m')) made))
      ]

  -- A wait that stops leaves the processes that it did not see end.
  wait_for_leaves :
      (ps : List ℕ) (m : ProcessManager V)
      → m.processes ≡ ps
      → (p : ℕ) → OneOf p ps
      → Awaited system t (wait_for system t ps m).1.calls p
        ⊎ OneOf p (wait_for system t ps m).1.processes
  unfolding wait_for
  wait_for_leaves [] m same p h = absurd h
  wait_for_leaves (q ∷ qs) m same p h = elim (Result_cases (system.waited_on q t)) [
    | inr (e, raised) ↦ inr (rw raised (subst (OneOf p) (sym same) h))
    | inl ended ↦
        let m' : ProcessManager V = record m {
          processes = qs;
          calls = m.calls ++ waits q t ∷ [];
        } in
        elim h [
          | inl is ↦
              rw (ended, removed_head q qs (called (waits q t) m) same)
                (inl (
                  wait_for_keeps qs m' (waits p t) (
                      OneOf-append_right (waits p t) m.calls (waits q t ∷ [])
                        (inl (ap (λ x. waits x t) is))),
                  subst (λ x. Ended system t x) (sym is) ended,
                ))
          | inr later ↦
              rw (ended, removed_head q qs (called (waits q t) m) same)
                (wait_for_leaves qs m' refl p later)
        ]
  ]

module _ (platform : Platform) where
  -- A process of the manager gets `SIGTERM` from the stop.
  stopped_terminates :
      (pm : Manager) (p : ℕ)
      → OneOf p pm.processes
      → OneOf (terminates p) (with_all_stopped platform pm.timeout pm).calls
  stopped_terminates pm p h = OneOf-append_right (terminates p) pm.calls _ (
      OneOf-append_left (terminates p) (map terminates pm.processes) _
        (OneOf-map terminates p pm.processes h))

  -- The launch waited for the process until it ended, or the process got `SIGTERM`.
  abbrev pub Accounted : Manager → ℕ → Type 0
  Accounted pm p = Awaited platform.system none pm.calls p ⊎ OneOf (terminates p) pm.calls

  -- The state after the nodes were started, whether or not that raised.
  abbrev pub begun : Config → List Text → Result (Unit {0}) × Manager
  begun config exclude =
      start_nodes platform exclude (get_node_env platform.environ config.domain_id) config.nodes
        new_manager

  uninterrupted_state : (r : Result (Unit {0}) × Manager) → (uninterrupted platform r).1 ≡ r.1
  uninterrupted_state (ok _, pm) = refl
  uninterrupted_state (err interrupt, pm) = refl
  uninterrupted_state (err _, pm) = refl

  -- The process was awaited, or it is on the list still.
  abbrev Followed : Manager → ℕ → Type 0
  Followed pm p = Awaited platform.system none pm.calls p ⊎ OneOf p pm.processes

  then_wait_leaves :
      (r : Result (Unit {0}) × Manager) (p : ℕ)
      → OneOf p r.1.processes
      → Followed (after r (λ _ pm. uninterrupted platform (wait platform.system none pm))).1 p
  unfolding wait
  then_wait_leaves (err e, pm) p h = inr h
  then_wait_leaves (ok _, pm) p h =
      subst (λ m. Followed m p) (sym (uninterrupted_state (wait platform.system none pm)))
        (wait_for_leaves platform.system none pm.processes pm refl p h)

  body_leaves :
      (config : Config) (exclude : List Text) (p : ℕ)
      → OneOf p (begun config exclude).1.processes
      → Followed (launch_body platform config exclude new_manager).1 p
  unfolding launch_body
  body_leaves config exclude p h = then_wait_leaves (begun config exclude) p h

  -- Where signals raise nothing and the waits of a stop end or time out: however the launch ends,
  -- by an interrupt of its wait too, no process is left on the manager's list, and every process
  -- that the launch has when the nodes were started, or their start raised, is one that the launch
  -- waited for until it ended, or it got a `SIGTERM` before the launch was over.
  pub launch_main-Accounted :
      (config : Config) (exclude : List Text)
      → IsOrderly platform.system
      → ((launch_main platform config exclude).1.processes ≡ [])
        × All (Accounted (launch_main platform config exclude).1) (begun config exclude).1.processes
  launch_main-Accounted config exclude orderly =
      let pm = (launch_body platform config exclude new_manager).1 in
      let stops = ap (λ r. r.1) (launch_main-stops platform config exclude orderly) in
      let later = stop_calls platform.system pm.timeout pm.processes in
      (
        ap (λ m. m.processes) stops,
        All-OneOf (begun config exclude).1.processes (λ p h.
            subst (λ m. Accounted m p) (sym stops)
              (elim (body_leaves config exclude p h) [
                | inl (waited, ended) ↦
                    inl (OneOf-append_left (waits p none) pm.calls later waited, ended)
                | inr left ↦ inr (stopped_terminates pm p left)
              ])),
      )
