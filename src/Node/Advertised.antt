-- ===== src/Node/Advertised.antt =====
-- What the mesh knows of a node is what the node listens to and provides.
use rosy.Base.{
  ◌≡◌, refl, sym, ap, ◌∙◌, Bool, true, false, none, List, [], ◌∷◌, arith, inl, inr, Option-cases,
  subst,
}
use rosy.Base.Text.{Text, Text-discrete}
use rosy.Base.Dict.{Dict, get, without, keys}
use rosy.Base.Exec.{Exec, Result, ok, pure, ◌>>◌, after}
use rosy.Mesh.{MeshNodeSpec}
use rosy.Node.{
  initd, started, Parts, Node, build_node_spec, register, start, listen, stop_listening,
  add_service, remove_service, set_callback,
}

without_missing :
    {C : Type 0} (k : Text) (d : Dict Text C)
    → get Text-discrete k d ≡ none
    → without Text-discrete k d ≡ d
without_missing k [] e = refl
without_missing k ((j, c) ∷ d) e = ground (arith, e, without_missing k d)

-- What a program does with a node that is started.
pub data Op (TC SC : Type 0) : Type 0 where
  listens : Text → TC → Op TC SC
  stops_listening : Text → Op TC SC
  adds : Text → SC → Op TC SC
  removes : Text → Op TC SC

-- The discovery publishes a spec, of which `published` is what the mesh then has; it raises nothing
-- and does not touch the servers.
pub record Publisher {Data W : Type 0} (parts : Parts Data W) (published : W → MeshNodeSpec)
    : Type 0 where
  pub registers : (spec : MeshNodeSpec) (w : W) → (parts.register_node spec w).0 ≡ ok tt
  pub registered : (spec : MeshNodeSpec) (w : W) → published (parts.register_node spec w).1 ≡ spec
  pub registers_only :
      (spec : MeshNodeSpec) (w : W)
      → parts.connection_specs (parts.register_node spec w).1 ≡ parts.connection_specs w
  pub updates : (spec : MeshNodeSpec) (w : W) → (parts.update_node spec w).0 ≡ ok tt
  pub updated : (spec : MeshNodeSpec) (w : W) → published (parts.update_node spec w).1 ≡ spec
  pub updates_only :
      (spec : MeshNodeSpec) (w : W)
      → parts.connection_specs (parts.update_node spec w).1 ≡ parts.connection_specs w

module _ {Data W TC SC : Type 0} (parts : Parts Data W) where
  unfoldable pub do_op : Op TC SC → Exec (Node TC SC × W) (Unit {0})
  do_op (listens topic callback) = listen parts topic callback
  do_op (stops_listening topic) = stop_listening parts topic
  do_op (adds service handler) = add_service parts service handler
  do_op (removes service) = remove_service parts service

  unfoldable pub do_all : List (Op TC SC) → Exec (Node TC SC × W) (Unit {0})
  unfolding do_op
  do_all [] = pure tt
  do_all (op ∷ ops) = do do_op op; do_all ops

ok_pair : {S : Type 0} (r : Result (Unit {0}) × S) → r.0 ≡ ok tt → r ≡ (ok tt, r.1)
ok_pair (r, s) e = ap (λ x. (x, s)) e

module _ {Data W TC SC : Type 0} (parts : Parts Data W) (published : W → MeshNodeSpec)
    (p : Publisher parts published) where
  -- The mesh has the spec that the node would register now.
  abbrev pub IsAdvertised : Node TC SC × W → Type 0
  IsAdvertised s = published s.1 ≡ build_node_spec parts s.0 s.1

  -- A result without an exception, in such a state.
  abbrev pub Advertises : Result (Unit {0}) × (Node TC SC × W) → Type 0
  Advertises r = (r.0 ≡ ok tt) × IsAdvertised r.1

  register-Advertises :
      (first_time : Bool) (n : Node TC SC) (w : W) → Advertises (register parts first_time (n, w))
  unfolding register build_node_spec
  register-Advertises true n w =
      let spec = build_node_spec parts n w in
      (
        p.registers spec w,
        p.registered spec w
            ∙ ap
                (λ c. record {
                  id = n.id;
                  connection_specs = c;
                  topics = keys n.topic_listener_manager;
                  services = keys n.service_handler_manager;
                })
                (sym (p.registers_only spec w)),
      )
  register-Advertises false n w =
      let spec = build_node_spec parts n w in
      (
        p.updates spec w,
        p.updated spec w
            ∙ ap
                (λ c. record {
                  id = n.id;
                  connection_specs = c;
                  topics = keys n.topic_listener_manager;
                  services = keys n.service_handler_manager;
                })
                (sym (p.updates_only spec w)),
      )

  do_op-Advertises :
      (op : Op TC SC) (n : Node TC SC) (w : W)
      → IsAdvertised (n, w)
      → Advertises (do_op parts op (n, w))
  unfolding do_op listen stop_listening add_service remove_service build_node_spec
  do_op-Advertises (listens topic callback) n w h =
      register-Advertises false
        (record n { topic_listener_manager = set_callback topic callback n.topic_listener_manager })
        w
  do_op-Advertises (stops_listening topic) n w h =
      elim (Option-cases (get Text-discrete topic n.topic_listener_manager)) [
        | inl e ↦
            rw (e, stop_listening)
              (
                refl,
                h
                    ∙ ap
                        (λ (d : Dict Text TC). record {
                          id = n.id;
                          connection_specs = parts.connection_specs w;
                          topics = keys d;
                          services = keys n.service_handler_manager;
                        })
                        (sym (without_missing topic n.topic_listener_manager e)),
              )
        | inr (c, e) ↦
            rw (e, stop_listening)
              (register-Advertises false
                (record n {
                  topic_listener_manager = without Text-discrete topic n.topic_listener_manager;
                })
                w)
      ]
  do_op-Advertises (adds service handler) n w h =
      register-Advertises false
        (record n {
          service_handler_manager = set_callback service handler n.service_handler_manager;
        })
        w
  do_op-Advertises (removes service) n w h =
      elim (Option-cases (get Text-discrete service n.service_handler_manager)) [
        | inl e ↦
            rw (e, remove_service)
              (
                refl,
                h
                    ∙ ap
                        (λ (d : Dict Text SC). record {
                          id = n.id;
                          connection_specs = parts.connection_specs w;
                          topics = keys n.topic_listener_manager;
                          services = keys d;
                        })
                        (sym (without_missing service n.service_handler_manager e)),
              )
        | inr (c, e) ↦
            rw (e, remove_service)
              (register-Advertises false
                (record n {
                  service_handler_manager = without Text-discrete service n.service_handler_manager;
                })
                w)
      ]

  do_all-Advertises :
      (ops : List (Op TC SC)) (n : Node TC SC) (w : W)
      → IsAdvertised (n, w)
      → Advertises (do_all parts ops (n, w))
  unfolding do_all
  do_all-Advertises [] n w h = (refl, h)
  do_all-Advertises (op ∷ ops) n w h =
      let (went, known) = do_op-Advertises op n w h in
      let next = (do_op parts op (n, w)).1 in
      subst (λ r. Advertises (after r (λ _. do_all parts ops)))
        (sym (ok_pair (do_op parts op (n, w)) went)) (do_all-Advertises ops next.0 next.1 known)

  module _ (starts : (w : W) → (parts.discovery_start w).0 ≡ ok tt)
      (serves : (w : W) → (parts.start_servers w).0 ≡ ok tt) where
    start-Advertises : (n : Node TC SC) (w : W) → n.state ≡ initd → Advertises (start parts (n, w))
    unfolding start
    start-Advertises n w e =
        let found = parts.discovery_start w in
        let served = parts.start_servers found.1 in
        rw (e, ok_pair found (starts w), ok_pair served (serves found.1))
          (register-Advertises true (record n { state = started }) served.1)

    -- The discovery and the servers start, and the discovery publishes every spec that it gets. A
    -- node is started, and then the program lets it listen and stop listening to topics, add and
    -- remove services, in any order, also under names that it has or does not have: none of it
    -- raises, and at the end the mesh has the spec that the node has then, with its connection
    -- specs, exactly the topics that it listens to, and exactly the services that it provides.
    pub start-do_all-Advertises :
        (n : Node TC SC) (w : W) (ops : List (Op TC SC))
        → n.state ≡ initd
        → Advertises (after (start parts (n, w)) (λ _. do_all parts ops))
    start-do_all-Advertises n w ops e =
        let (went, known) = start-Advertises n w e in
        let next = (start parts (n, w)).1 in
        subst (λ r. Advertises (after r (λ _. do_all parts ops)))
          (sym (ok_pair (start parts (n, w)) went)) (do_all-Advertises ops next.0 next.1 known)
