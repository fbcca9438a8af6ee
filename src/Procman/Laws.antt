-- ===== src/Procman/Laws.antt =====
-- Every process is asked to stop, and those that do not are killed.
use rosy.Base.{
  ℕ, ◌≡◌, refl, sym, ap, ◌∙◌, Option, none, some, List, [], ◌∷◌, ◌++◌, map, arith, append_assoc,
  append-nil, ◌⊎◌, inl, inr, All,
}
use rosy.Base.Exec.{Error, Result, ok, err, timeout_error, after, pure}
use rosy.Procman.{
  Call, terminates, waits, kills, System, ProcessManager, called, remove, removed, timeout_or,
  terminate_each, wait_each, kill_each, stop_each, stop, wait_for, wait,
}

-- Signals raise nothing, and a wait of a stop ends or times out.
pub record IsOrderly (system : System) : Type 0 where
  pub signals : (p : ℕ) → system.terminated p ≡ ok tt
  pub kills : (p : ℕ) → system.killed p ≡ ok tt
  pub ends :
      (p : ℕ) (t : Option ℕ) → (system.waited p t ≡ ok tt) ⊎ (system.waited p t ≡ err timeout_error)
  pub ends_killed :
      (p : ℕ) (t : Option ℕ)
      → (system.waited_killed p t ≡ ok tt) ⊎ (system.waited_killed p t ≡ err timeout_error)

-- The processes that do not end in time, of those that are waited for.
abbrev pub late_of : (ℕ → Option ℕ → Result (Unit {0})) → Option ℕ → List ℕ → List ℕ
late_of answer timeout [] = []
late_of answer timeout (p ∷ ps) = elim (answer p timeout) [
  | ok _ ↦ late_of answer timeout ps
  | err _ ↦ p ∷ late_of answer timeout ps
]

-- The calls of a stop, in order.
abbrev pub stop_calls : System → Option ℕ → List ℕ → List Call
stop_calls system timeout ps =
    map terminates ps
    ++ (map (λ p. waits p timeout) ps
        ++ (map kills (late_of system.waited timeout ps)
            ++ map (λ p. waits p timeout) (late_of system.waited timeout ps)))

-- The process ends in time where the program waits for it.
abbrev pub Ended : System → Option ℕ → ℕ → Type 0
Ended system t p = system.waited_on p t ≡ ok tt

remove_head : (p : ℕ) (ps : List ℕ) → remove p (p ∷ ps) ≡ some ps
unfolding remove
remove_head p ps = ground arith

module _ {V : Type 0} where
  abbrev pub with_calls : List Call → ProcessManager V → ProcessManager V
  with_calls calls m = record m { calls = m.calls ++ calls }

  with_calls-cons :
      (c : Call) (cs : List Call) (m : ProcessManager V)
      → with_calls cs (called c m) ≡ with_calls (c ∷ cs) m
  with_calls-cons c cs m = ap (λ l. record m { calls = l }) (append_assoc m.calls (c ∷ []) cs)

  with_calls-append :
      (cs ds : List Call) (m : ProcessManager V)
      → with_calls ds (with_calls cs m) ≡ with_calls (cs ++ ds) m
  with_calls-append cs ds m = ap (λ l. record m { calls = l }) (append_assoc m.calls cs ds)

  with_calls-nil : (m : ProcessManager V) → m ≡ with_calls [] m
  with_calls-nil m = ap (λ l. record m { calls = l }) (sym (append-nil m.calls))

  wait_each_lem :
      (answer : ℕ → Option ℕ → Result (Unit {0})) (t : Option ℕ)
      → ((p : ℕ) → (answer p t ≡ ok tt) ⊎ (answer p t ≡ err timeout_error))
      → (ps : List ℕ) (m : ProcessManager V)
      → wait_each answer t ps m ≡ (ok (late_of answer t ps), with_calls (map (λ p. waits p t) ps) m)
  unfolding wait_each
  wait_each_lem answer t ends [] m = ap (λ n. (ok [], n)) (with_calls-nil m)
  wait_each_lem answer t ends (p ∷ ps) m =
      let rest = wait_each_lem answer t ends ps (called (waits p t) m) in
      let cons = with_calls-cons (waits p t) (map (λ q. waits q t) ps) m in
      elim (ends p) [
        | inl e ↦ rw (e, late_of, wait_each) (rest ∙ ap (λ n. (ok (late_of answer t ps), n)) cons)
        | inr e ↦
            rw (e, late_of, wait_each)
              (ap (λ r. after r (λ late. pure (p ∷ late)))
                (rest ∙ ap (λ n. (ok (late_of answer t ps), n)) cons))
      ]

  module _ (system : System) (orderly : IsOrderly system) where
    terminate_each_lem :
        (ps : List ℕ) (m : ProcessManager V)
        → terminate_each system ps m ≡ (ok tt, with_calls (map terminates ps) m)
    unfolding terminate_each
    terminate_each_lem [] m = ap (λ n. (ok tt, n)) (with_calls-nil m)
    terminate_each_lem (p ∷ ps) m = rw (orderly.signals p) (
        terminate_each_lem ps (called (terminates p) m)
        ∙ ap (λ n. (ok tt, n)) (with_calls-cons (terminates p) (map terminates ps) m))

    kill_each_lem :
        (ps : List ℕ) (m : ProcessManager V)
        → kill_each system ps m ≡ (ok tt, with_calls (map kills ps) m)
    unfolding kill_each
    kill_each_lem [] m = ap (λ n. (ok tt, n)) (with_calls-nil m)
    kill_each_lem (p ∷ ps) m = rw (orderly.kills p) (
        kill_each_lem ps (called (kills p) m)
        ∙ ap (λ n. (ok tt, n)) (with_calls-cons (kills p) (map kills ps) m))

    stop_each_lem :
        (t : Option ℕ) (ps : List ℕ) (m : ProcessManager V)
        → stop_each system t ps m ≡ (ok tt, with_calls (stop_calls system t ps) m)
    unfolding stop_each
    stop_each_lem t ps m =
        let late = late_of system.waited t ps in
        let c1 = map terminates ps in
        let c2 = map (λ p. waits p t) ps in
        let c3 = map kills late in
        let c4 = map (λ p. waits p t) late in
        let m1 = with_calls c1 m in
        let m2 = with_calls c2 m1 in
        let m3 = with_calls c3 m2 in
        rw
          (
            terminate_each_lem ps m,
            wait_each_lem system.waited t (λ p. orderly.ends p t) ps m1,
            kill_each_lem late m2,
            wait_each_lem system.waited_killed t (λ p. orderly.ends_killed p t) late m3,
          )
          (ap (λ n. (ok tt, n))
            (with_calls-append c3 c4 m2
              ∙ with_calls-append c2 (c3 ++ c4) m1
              ∙ with_calls-append c1 (c2 ++ (c3 ++ c4)) m))

    -- Where signals raise nothing and waits end or time out, `stop` forgets every process, raises
    -- nothing, sends `SIGTERM` to all of them in order before it waits for each, and then sends
    -- `SIGKILL` to exactly those that did not end in time, and waits for these.
    pub stop_all :
        (timeout : Option ℕ) (m : ProcessManager V)
        → stop system none timeout m ≡ (
          ok tt,
          record m {
            processes = [];
            calls = m.calls ++ stop_calls system (timeout_or timeout m.timeout) m.processes;
          },
        )
    unfolding stop
    stop_all timeout m =
        stop_each_lem (timeout_or timeout m.timeout) m.processes (record m { processes = [] })

  pub removed_head :
      (p : ℕ) (ps : List ℕ) (m : ProcessManager V)
      → m.processes ≡ p ∷ ps
      → removed p m ≡ (ok tt, record m { processes = ps })
  removed_head p ps m e = rw (ap (remove p) e ∙ remove_head p ps, removed) refl

  module _ (system : System) (t : Option ℕ) where
    -- The state after a wait for the processes `ps`, with `qs` left.
    abbrev waited_for : List ℕ → List ℕ → ProcessManager V → ProcessManager V
    waited_for ps qs m = record m { processes = qs; calls = m.calls ++ map (λ p. waits p t) ps }

    wait_for_lem :
        (ps qs : List ℕ) (m : ProcessManager V)
        → All (Ended system t) ps
        → m.processes ≡ ps ++ qs
        → wait_for system t (ps ++ qs) m ≡ wait_for system t qs (waited_for ps qs m)
    unfolding wait_for
    wait_for_lem [] qs m h e =
        ap (wait_for system t qs)
          ((λ i. record m { processes = e i; calls = sym (append-nil m.calls) i }))
    wait_for_lem (p ∷ ps) qs m h e =
        rw (h.0, removed_head p (ps ++ qs) (called (waits p t) m) e)
          (wait_for_lem ps qs (record m { processes = ps ++ qs; calls = m.calls ++ waits p t ∷ [] })
              h.1 refl
            ∙ ap (λ l. wait_for system t qs (record m { processes = qs; calls = l }))
                (append_assoc m.calls (waits p t ∷ []) (map (λ q. waits q t) ps)))

    -- A wait takes each process that ends off the list, in order; where one does not end in time or
    -- its wait raises, so does `wait`, and that process and those behind it stay on the list.
    pub wait_stops_at :
        (ps qs : List ℕ) (q : ℕ) (e : Error) (m : ProcessManager V)
        → m.processes ≡ ps ++ q ∷ qs
        → All (Ended system t) ps
        → system.waited_on q t ≡ err e
        → wait system t m ≡ (
          err e,
          record m {
            processes = q ∷ qs;
            calls = (m.calls ++ map (λ p. waits p t) ps) ++ waits q t ∷ [];
          },
        )
    unfolding wait wait_for
    wait_stops_at ps qs q e m listed h stuck =
        ap (λ l. wait_for system t l m) listed ∙ wait_for_lem ps (q ∷ qs) m h listed ∙ rw stuck refl

    pub wait_ends :
        (m : ProcessManager V)
        → All (Ended system t) m.processes
        → wait system t m ≡ (
          ok tt,
          record m { processes = []; calls = m.calls ++ map (λ p. waits p t) m.processes },
        )
    unfolding wait wait_for
    wait_ends m h =
        ap (λ l. wait_for system t l m) (sym (append-nil m.processes))
        ∙ wait_for_lem m.processes [] m h (sym (append-nil m.processes))
