-- ===== src/Procman.antt =====
-- ProcessManager of src/rosy/procman.py. A process is an object of the operating system, known by a
-- number; what the system answers to the calls is a parameter.
pub mod Laws
use rosy.Base.{ℕ, Bool, true, false, Option, none, some, List, [], ◌∷◌, ◌++◌, ◌==◌, if◌then◌else◌}
use rosy.Base.Text.{Text, Text-discrete}
use rosy.Base.Dict.{Dict, set}
use rosy.Base.Exec.{
  Error, Exec, Result, ok, err, pure, raise, lift, modify, ◌>>=◌, ◌>>◌, after, timeout_error,
  value_error,
}

-- A call of the program to the operating system. A timeout of None waits for as long as it takes.
pub data Call : Type 0 where
  terminates kills : ℕ → Call
  waits : ℕ → Option ℕ → Call

-- What the calls give: `SIGTERM`, the wait after it, `SIGKILL`, the wait after that, and the wait of
-- the program itself, which a `KeyboardInterrupt` may end.
pub record System : Type 0 where
  pub terminated : ℕ → Result (Unit {0})
  pub waited : ℕ → Option ℕ → Result (Unit {0})
  pub killed : ℕ → Result (Unit {0})
  pub waited_killed : ℕ → Option ℕ → Result (Unit {0})
  pub waited_on : ℕ → Option ℕ → Result (Unit {0})

-- `V` is the type of what options hold. `calls` lists the calls made, the first one first.
pub record ProcessManager (V : Type 0) : Type 0 where
  pub processes : List ℕ
  pub options : Dict Text V
  pub timeout : Option ℕ
  pub calls : List Call

-- `{**options, **kwargs}`
unfoldable pub merged : {V : Type 0} → Dict Text V → Dict Text V → Dict Text V
merged options [] = options
merged options ((key, value) ∷ kwargs) = merged (set Text-discrete key value options) kwargs

-- `processes.remove(process)`: the first that is equal goes; `none` where there is none.
unfoldable pub remove : ℕ → List ℕ → Option (List ℕ)
remove p [] = none
remove p (q ∷ qs) =
    let rest : Option (List ℕ) = elim (remove p qs) [ none ↦ none | some left ↦ some (q ∷ left) ] in
    if p == q then some qs else rest

-- `timeout if timeout is not None else self.timeout`
abbrev pub timeout_or : Option ℕ → Option ℕ → Option ℕ
timeout_or (some t) default = some t
timeout_or none default = default

abbrev pub is_timeout : Error → Bool
is_timeout timeout_error = true
is_timeout _ = false

module _ {V : Type 0} where
  unfoldable pub add : ℕ → Exec (ProcessManager V) ℕ
  add process m = (ok process, record m { processes = m.processes ++ process ∷ [] })

  -- `popen`; `start` is `Popen` for the keyword arguments that it gets.
  unfoldable pub popen : (Dict Text V → Result ℕ) → Dict Text V → Exec (ProcessManager V) ℕ
  unfolding merged add
  popen start kwargs m = after (start (merged m.options kwargs), m) add

  abbrev pub called : Call → ProcessManager V → ProcessManager V
  called call m = record m { calls = m.calls ++ call ∷ [] }

  -- `self.processes.remove(process)`
  abbrev pub removed : ℕ → ProcessManager V → Result (Unit {0}) × ProcessManager V
  removed p m = elim (remove p m.processes) [
    | none ↦ (err value_error, m)
    | some left ↦ (ok tt, record m { processes = left })
  ]

  -- A loop of waits gives the processes that did not end in time. `TimeoutExpired` is caught, any
  -- other exception ends it.
  unfoldable pub wait_each :
      (ℕ → Option ℕ → Result (Unit {0})) → Option ℕ → List ℕ → Exec (ProcessManager V) (List ℕ)
  wait_each answer timeout [] m = (ok [], m)
  wait_each answer timeout (p ∷ ps) m =
      let m' = called (waits p timeout) m in
      elim (answer p timeout) [
        | ok _ ↦ wait_each answer timeout ps m'
        | err e ↦ elim (is_timeout e) [
          | true ↦ after (wait_each answer timeout ps m') (λ late. pure (p ∷ late))
          | false ↦ (err e, m')
        ]
      ]

  module _ (system : System) where
    -- The loop that sends `SIGTERM`; an exception ends it.
    unfoldable pub terminate_each : List ℕ → Exec (ProcessManager V) (Unit {0})
    terminate_each [] m = (ok tt, m)
    terminate_each (p ∷ ps) m =
        after (system.terminated p, called (terminates p) m) (λ _. terminate_each ps)

    unfoldable pub kill_each : List ℕ → Exec (ProcessManager V) (Unit {0})
    kill_each [] m = (ok tt, m)
    kill_each (p ∷ ps) m = after (system.killed p, called (kills p) m) (λ _. kill_each ps)

    -- `stop` for the processes that were taken off the list.
    unfoldable pub stop_each : Option ℕ → List ℕ → Exec (ProcessManager V) (Unit {0})
    unfolding terminate_each wait_each kill_each
    stop_each timeout processes = do
      terminate_each processes
      procs_to_kill ← wait_each system.waited timeout processes
      kill_each procs_to_kill
      failed ← wait_each system.waited_killed timeout procs_to_kill
      pure tt

    -- `stop`; a process that is not managed raises a `ValueError`.
    unfoldable pub stop : Option ℕ → Option ℕ → Exec (ProcessManager V) (Unit {0})
    unfolding stop_each remove
    stop none timeout m =
        stop_each (timeout_or timeout m.timeout) m.processes (record m { processes = [] })
    stop (some p) timeout m = elim (remove p m.processes) [
      | none ↦ (err value_error, m)
      | some left ↦
          stop_each (timeout_or timeout m.timeout) (p ∷ []) (record m { processes = left })
    ]

    -- `__exit__`
    unfoldable pub exit : Exec (ProcessManager V) (Unit {0})
    unfolding stop
    exit = stop none none

    -- The loop of `wait`, over a copy of the list; an exception ends it, a timeout too.
    unfoldable pub wait_for : Option ℕ → List ℕ → Exec (ProcessManager V) (Unit {0})
    unfolding remove
    wait_for timeout [] m = (ok tt, m)
    wait_for timeout (p ∷ ps) m =
        after (after (system.waited_on p timeout, called (waits p timeout) m) (λ _. removed p))
          (λ _. wait_for timeout ps)

    unfoldable pub wait : Option ℕ → Exec (ProcessManager V) (Unit {0})
    unfolding wait_for
    wait timeout m = wait_for timeout m.processes m
