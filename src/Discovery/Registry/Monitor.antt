-- ===== src/Discovery/Registry/Monitor.antt =====
-- The monitor task of a node, through what happens meanwhile to the other nodes.
use rosy.Base.{
  ℕ, ◌≡◌, ◌≢◌, refl, sym, ap, ◌∙◌, subst, Bool, true, false, Option, none, some, List, [], ◌∷◌,
  ◌++◌, map, All, arith, inl, inr, Option-cases, Bool-cases,
}
use rosy.Base.Text.{Text, Text-discrete}
use rosy.Base.Dict.{get, without, contains, keys, Distinct}
use rosy.Base.Dict.Laws.{get-set_ne, get-without_ne, get-without_self}
use rosy.Base.Exec.{Result, ok, err}
use rosy.Stream.{Bytes}
use rosy.Mesh.{MeshNodeSpec}
use rosy.Discovery.{
  Discovery, added, removed, updated, stop_monitoring_node, start_monitoring_node, forget_node,
  remove_node, on_service_state_change, learn_node, take_info, check_node,
  check_this_task_is_current_monitor,
}
use rosy.Discovery.Laws.{
  IsMonitored, checks_current, check-IsMonitored, Event, changes, checks, removes, happen,
  happen_all, happen_all-IsMonitored,
}
use rosy.Discovery.Registry.{Round, monitor_node}
use rosy.Discovery.Registry.Learned.{check-learn_node}

-- The name that an event is about.
abbrev pub name_of : Event → Text
name_of (changes cancelled name change) = name
name_of (checks info task name) = name
name_of (removes cancelled name) = name

module _ (name other : Text) (n : other ≢ name) (d : Discovery) where
  start-other :
      (cancelled : Result (Unit {0}))
      → get Text-discrete name (start_monitoring_node cancelled other d).1.node_monitors
        ≡ get Text-discrete name d.node_monitors
  unfolding start_monitoring_node stop_monitoring_node
  start-other cancelled = ground (
    arith,
    n,
    get-set_ne Text-discrete other name d.fresh d.node_monitors (λ e. n (sym e)),
    get-set_ne Text-discrete other name d.fresh (without Text-discrete other d.node_monitors)
        (λ e. n (sym e)),
    get-without_ne Text-discrete other name d.node_monitors (λ e. n (sym e)),
  )

  remove-other :
      (cancelled : Result (Unit {0}))
      → get Text-discrete name (remove_node cancelled other d).1.node_monitors
        ≡ get Text-discrete name d.node_monitors
  unfolding remove_node stop_monitoring_node forget_node
  remove-other cancelled =
      ground (arith, get-without_ne Text-discrete other name d.node_monitors (λ e. n (sym e)))

module _ (same : MeshNodeSpec → MeshNodeSpec → Bool) (decode : Bytes → Result MeshNodeSpec)
    (name : Text) where
  check-monitors :
      (info : Result (Option Bytes)) (task : ℕ) (other : Text) (d : Discovery)
      → (check_node same decode info task other d).1.node_monitors ≡ d.node_monitors
  unfolding check_node check_this_task_is_current_monitor take_info learn_node
  check-monitors info task other d = ground arith

  happen-other :
      (e : Event) (d : Discovery)
      → name_of e ≢ name
      → get Text-discrete name (happen same decode e d).node_monitors
        ≡ get Text-discrete name d.node_monitors
  unfolding happen on_service_state_change
  happen-other (changes cancelled other added) d n = start-other name other n d cancelled
  happen-other (changes cancelled other updated) d n = start-other name other n d cancelled
  happen-other (changes cancelled other removed) d n = remove-other name other n d cancelled
  happen-other (checks info task other) d n =
      ap (get Text-discrete name) (check-monitors info task other d)
  happen-other (removes cancelled other) d n = remove-other name other n d cancelled

  happen_all-other :
      (es : List Event) (d : Discovery)
      → All (λ e. name_of e ≢ name) es
      → get Text-discrete name (happen_all same decode es d).node_monitors
        ≡ get Text-discrete name d.node_monitors
  unfolding happen_all
  happen_all-other [] d h = refl
  happen_all-other (e ∷ es) d h =
      happen_all-other es (happen same decode e d) h.1 ∙ happen-other e d h.0

  -- A round before which the events happen, and what zeroconf has of the name then.
  abbrev pub round : List Event → Option Bytes → Round
  round es found = record { others = happen_all same decode es; info = ok found }

  abbrev pub round_of : List Event × Bytes → Round
  round_of (es, text) = round es (some text)

  -- The events are about other names, and zeroconf has the node.
  abbrev pub Alive : List Event × Bytes → Type 0
  Alive (es, text) =
      All (λ e. name_of e ≢ name) es × (node : MeshNodeSpec) × (decode text ≡ ok node)

  forgotten :
      (d : Discovery)
      → Distinct (keys d.service_name_to_node)
      → get Text-discrete name (remove_node (ok tt) name d).1.service_name_to_node ≡ none
  unfolding remove_node stop_monitoring_node forget_node
  forgotten d u = elim (Bool-cases (contains Text-discrete name d.node_monitors)) [
    | inl c ↦ elim (Option-cases (get Text-discrete name d.service_name_to_node)) [
      | inl e ↦ rw (c, e, forget_node) e
      | inr (v, e) ↦
          rw (c, e, forget_node) (get-without_self Text-discrete name d.service_name_to_node u)
    ]
    | inr c ↦ elim (Option-cases (get Text-discrete name d.service_name_to_node)) [
      | inl e ↦ rw (c, e, forget_node) e
      | inr (v, e) ↦
          rw (c, e, forget_node) (get-without_self Text-discrete name d.service_name_to_node u)
    ]
  ]

  check_gone :
      (task : ℕ) (d : Discovery)
      → get Text-discrete name d.node_monitors ≡ some task
      → check_node same decode (ok none) task name d
        ≡ (ok false, record d { removals = d.removals ++ name ∷ [] })
  unfolding check_node take_info
  check_gone task d m = rw (checks_current name d task task m (ground arith)) refl

  -- The loop goes on where the check gave true.
  abbrev after_check :
      (Discovery → Option (Result (Unit {0})) × Discovery)
      → Result Bool × Discovery
      → Option (Result (Unit {0})) × Discovery
  after_check rest (b, d) = elim b [
    | ok true ↦ rest d
    | ok false ↦ (some (ok tt), d)
    | err e ↦ (some (err e), d)
  ]

  -- In a discovery in which each name has at most one node, and a name with a node has a monitor:
  -- while zeroconf has a monitored node, with a spec that is decoded, its monitor task goes on,
  -- whatever happens to other nodes meanwhile; at the first check that finds no info the task ends,
  -- with the removal of the node due, and after that removal the node is not known.
  pub monitor_forgets :
      (task : ℕ) (rounds : List (List Event × Bytes)) (last : List Event) (d : Discovery)
      → IsMonitored d
      → get Text-discrete name d.node_monitors ≡ some task
      → All Alive rounds
      → All (λ e. name_of e ≢ name) last
      → (d' : Discovery) × (monitor_node same decode task name
            (map round_of rounds ++ round last none ∷ [])
            d
          ≡ (some (ok tt), d'))
        × ((due : List Text) × (d'.removals ≡ due ++ name ∷ []))
        × (get Text-discrete name (remove_node (ok tt) name d').1.service_name_to_node ≡ none)
  unfolding monitor_node
  monitor_forgets task [] last d h m a l =
      let d1 = happen_all same decode last d in
      let gone : Discovery = record d1 { removals = d1.removals ++ name ∷ [] } in
      (
        gone,
        ap (after_check (λ d'. (none, d'))) (check_gone task d1 (happen_all-other last d l ∙ m)),
        (d1.removals, refl),
        forgotten gone (happen_all-IsMonitored same decode last d h).0,
      )
  monitor_forgets task ((es, text) ∷ rounds) last d h m a l =
      let (quiet, node, decoded) = a.0 in
      let d1 = happen_all same decode es d in
      let m1 = happen_all-other es d quiet ∙ m in
      let check = check-learn_node name d1 same decode text node task m1 decoded in
      let d2 = learn_node same name node d1 in
      let h1 = happen_all-IsMonitored same decode es d h in
      let h2 : IsMonitored d2 =
        subst (λ r. IsMonitored r.1) check
          (check-IsMonitored name d1 h1 same decode (ok (some text)) task) in
      let m2 : get Text-discrete name d2.node_monitors ≡ some task =
        ap (λ r. get Text-discrete name r.1.node_monitors) (sym check)
        ∙ ap (get Text-discrete name) (check-monitors (ok (some text)) task name d1)
        ∙ m1 in
      let (d', ends, due, gone) = monitor_forgets task rounds last d2 h2 m2 a.1 l in
      (
        d',
        ap
              (after_check
                (monitor_node same decode task name (map round_of rounds ++ round last none ∷ [])))
              check
            ∙ ends,
        due,
        gone,
      )
