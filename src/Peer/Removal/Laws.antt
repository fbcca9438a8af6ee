-- ===== src/Peer/Removal/Laws.antt =====
-- After a change of the topology no node that left has an outbox or a connection.
use rosy.Base.{
  ◌≡◌, refl, ap, ◌∙◌, Bool, true, Option, none, List, [], ◌∷◌, arith, inl, inr, Option-cases, holds,
  if◌then◌else◌,
}
use rosy.Base.Dict.{get, keys, Distinct}
use rosy.Base.Dict.Laws.{get-without, Distinct-without}
use rosy.Base.Exec.{Exec, Result, ok, after, finally, on_first, on_second}
use rosy.Mesh.{NodeId, NodeId-discrete, MeshNodeSpec}
use rosy.Mesh.Topology.{has_id}
use rosy.Topic.Sender.{Outboxes, stop_outbox}
use rosy.Peer.Connection.{ConnectionManager, close_connection}
use rosy.Peer.Connection.Laws.{close_connection_removes}
use rosy.Peer.Removal.{Peers, Endings, clean_up, clean_up_all}

-- Each node is in each dict at most once.
abbrev pub IsTidy : Peers → Type 0
IsTidy p = Distinct (keys p.0) × Distinct (keys p.1.connections)

module _ (stopping : Result (Unit {0})) (node : MeshNodeSpec) (m : Outboxes) where
  stop_outbox_removes :
      (id : NodeId)
      → Distinct (keys m)
      → get NodeId-discrete id (stop_outbox stopping node m).1
        ≡ (if holds (NodeId-discrete id node.id) then none else get NodeId-discrete id m)
  unfolding stop_outbox
  stop_outbox_removes id u = elim (Option-cases (get NodeId-discrete node.id m)) [
    | inl e ↦ ground (arith, e, ap (λ j. get NodeId-discrete j m))
    | inr (o, e) ↦ rw (e, stop_outbox) (get-without NodeId-discrete id node.id m u)
  ]

  stop_outbox-Distinct : Distinct (keys m) → Distinct (keys (stop_outbox stopping node m).1)
  unfolding stop_outbox
  stop_outbox-Distinct u = elim (Option-cases (get NodeId-discrete node.id m)) [
    | inl e ↦ rw (e, stop_outbox) u
    | inr (o, e) ↦ rw (e, stop_outbox) (Distinct-without NodeId-discrete node.id m u)
  ]

close_connection-Distinct :
    (closes : Result (Unit {0})) (id : NodeId) (m : ConnectionManager)
    → Distinct (keys m.connections)
    → Distinct (keys (close_connection closes id m).1.connections)
unfolding close_connection
close_connection-Distinct closes id m u =
    elim (Option-cases (get NodeId-discrete id m.connections)) [
      | inl e ↦ rw (e, close_connection) u
      | inr (o, e) ↦ rw (e, close_connection) (Distinct-without NodeId-discrete id m.connections u)
    ]

finally_state :
    {S : Type 0} (r : Result (Unit {0}) × S) (cleanup : Exec S (Unit {0}))
    → (finally r cleanup).1 ≡ (cleanup r.1).1
finally_state (r, s) cleanup = ground arith

pair_eq : {A B : Type 0} (r : A × B) (a : A) (b : B) → r.0 ≡ a → r.1 ≡ b → r ≡ (a, b)
pair_eq (x, y) a b h k = rw (h, k) refl

-- Removed by the rest of the loop, or by its first round.
unless :
    {A : Type 0} (later now : Bool) (x y : Option A)
    → x ≡ (if now then none else y)
    → (if later then none else x) ≡ (if (if now then true else later) then none else y)
unless later now x y h = ground (arith, h)

module _ (endings : Endings) where
  -- The two dicts after the clean-up of a node.
  abbrev pub cleaned : MeshNodeSpec → Peers → Peers
  cleaned node p = (
    (stop_outbox (endings.stopping node.id) node p.0).1,
    (close_connection (endings.closes node.id) node.id p.1).1,
  )

  pub clean_up_state :
      (node : MeshNodeSpec) (p : Peers) → (clean_up endings node p).1 ≡ cleaned node p
  unfolding clean_up
  clean_up_state node p =
      finally_state (on_first (stop_outbox (endings.stopping node.id) node) p)
        (on_second (close_connection (endings.closes node.id) node.id))

  pub cleaned-IsTidy : (node : MeshNodeSpec) (p : Peers) → IsTidy p → IsTidy (cleaned node p)
  cleaned-IsTidy node p t = (
    stop_outbox-Distinct (endings.stopping node.id) node p.0 t.0,
    close_connection-Distinct (endings.closes node.id) node.id p.1 t.1,
  )

  -- Where each dict has a node at most once, the clean-up of a node leaves neither an outbox nor a
  -- connection of it, also where the stop of the outbox or the close of the connection raises; what
  -- the other nodes have does not change.
  pub clean_up_removes :
      (node : MeshNodeSpec) (p : Peers) (id : NodeId)
      → IsTidy p
      → (get NodeId-discrete id (clean_up endings node p).1.0
          ≡ (if holds (NodeId-discrete id node.id) then none else get NodeId-discrete id p.0))
        × (get NodeId-discrete id (clean_up endings node p).1.1.connections ≡ (
            if holds (NodeId-discrete id node.id)
            then none
            else get NodeId-discrete id p.1.connections))
  clean_up_removes node p id t =
      let e = clean_up_state node p in
      (
        ap (λ q. get NodeId-discrete id q.0) e
            ∙ stop_outbox_removes (endings.stopping node.id) node p.0 id t.0,
        ap (λ q. get NodeId-discrete id q.1.connections) e
            ∙ close_connection_removes (endings.closes node.id) node p.1 id t.1,
      )

  module _ (stops : (id : NodeId) → endings.stopping id ≡ ok tt)
      (closes : (id : NodeId) → endings.closes id ≡ ok tt) where
    clean_up_ok : (node : MeshNodeSpec) (p : Peers) → (clean_up endings node p).0 ≡ ok tt
    unfolding clean_up stop_outbox close_connection
    clean_up_ok node p = ground (arith, stops node.id, closes node.id)

    clean_up_runs :
        (node : MeshNodeSpec) (p : Peers) → clean_up endings node p ≡ (ok tt, cleaned node p)
    clean_up_runs node p =
        pair_eq (clean_up endings node p) (ok tt) (cleaned node p) (clean_up_ok node p)
          (clean_up_state node p)

    clean_up_all_step :
        (node : MeshNodeSpec) (nodes : List MeshNodeSpec) (p : Peers)
        → clean_up_all endings (node ∷ nodes) p ≡ clean_up_all endings nodes (cleaned node p)
    unfolding clean_up_all
    clean_up_all_step node nodes p =
        ap (λ r. after r (λ _. clean_up_all endings nodes)) (clean_up_runs node p)

    -- Where no end raises, the loop over the removed nodes does not raise; it leaves neither an
    -- outbox nor a connection of any of them, and changes nothing of the other nodes.
    pub clean_up_all_removes :
        (nodes : List MeshNodeSpec) (p : Peers) (id : NodeId)
        → IsTidy p
        → ((clean_up_all endings nodes p).0 ≡ ok tt)
          × (get NodeId-discrete id (clean_up_all endings nodes p).1.0
              ≡ (if has_id id nodes then none else get NodeId-discrete id p.0))
          × (get NodeId-discrete id (clean_up_all endings nodes p).1.1.connections
              ≡ (if has_id id nodes then none else get NodeId-discrete id p.1.connections))
    unfolding has_id clean_up_all
    clean_up_all_removes [] p id t = (refl, refl, refl)
    clean_up_all_removes (node ∷ nodes) p id t =
        let e = clean_up_all_step node nodes p in
        let (r, o, c) = clean_up_all_removes nodes (cleaned node p) id (cleaned-IsTidy node p t) in
        (
          ap (λ q. q.0) e ∙ r,
          ap (λ q. get NodeId-discrete id q.1.0) e
              ∙ o
              ∙ unless (has_id id nodes) (holds (NodeId-discrete id node.id))
                  (get NodeId-discrete id (cleaned node p).0) (get NodeId-discrete id p.0)
                  (stop_outbox_removes (endings.stopping node.id) node p.0 id t.0),
          ap (λ q. get NodeId-discrete id q.1.1.connections) e
              ∙ c
              ∙ unless (has_id id nodes) (holds (NodeId-discrete id node.id))
                  (get NodeId-discrete id (cleaned node p).1.connections)
                  (get NodeId-discrete id p.1.connections)
                  (close_connection_removes (endings.closes node.id) node p.1 id t.1),
        )
