-- ===== src/Topic/Sender/Laws.antt =====
-- A message reaches the outbox of every node that it is for.
use rosy.Base.{
  ℕ, ◌+◌, ◌≡◌, refl, sym, ap, ◌∙◌, Bool, true, false, Option, none, some, List, [], ◌∷◌, ◌++◌,
  arith, Option-cases, Bool-cases, inl, inr, holds, if◌then◌else◌,
}
use rosy.Base.Dict.{get, set}
use rosy.Base.Dict.Laws.{get-set}
use rosy.Base.Exec.{ok}
use rosy.Stream.{Bytes}
use rosy.Mesh.{NodeId, NodeId-discrete, MeshNodeSpec}
use rosy.Mesh.Topology.{has_id}
use rosy.Topic.Outbox.{Outbox, Item, new_outbox, full, drop_oldest, send}
use rosy.Topic.Sender.{Outboxes, get_outbox, send_to, send_each}

-- No task of an outbox has ended.
abbrev pub IsAlive : Outboxes → Type 0
IsAlive m = (id : NodeId) (o : Outbox) → get NodeId-discrete id m ≡ some o → o.finished ≡ false

-- The outbox of a node, a new one where there is none.
abbrev pub outbox_for : NodeId → Outboxes → Outbox
outbox_for id m = elim (get NodeId-discrete id m) [ none ↦ new_outbox | some o ↦ o ]

-- The outbox with the entry behind the others; the oldest goes where it is full.
abbrev pub with_entry : ℕ → Bytes → Outbox → Outbox
with_entry now bytes o = record o {
  queue = (if full o then drop_oldest o.queue else o.queue) ++ (now + o.ttl, bytes) ∷ [];
}

-- The second of two writes to a key.
twice :
    {A : Type 0} (b : Bool) (x y z w : Option A)
    → w ≡ (if b then y else z)
    → (if b then x else w) ≡ (if b then x else z)
twice true x y z w h = refl
twice false x y z w h = h

module _ (now : ℕ) (bytes : Bytes) where
  pub sends : (o : Outbox) → o.finished ≡ false → send now bytes o ≡ (ok tt, with_entry now bytes o)
  unfolding send
  sends o h = rw (h) refl

  pub alive_for : (id : NodeId) (m : Outboxes) → IsAlive m → (outbox_for id m).finished ≡ false
  alive_for id m h = elim (Option-cases (get NodeId-discrete id m)) [
    | inl e ↦ rw (e, outbox_for) refl
    | inr (o, e) ↦ rw (e, outbox_for) (h id o e)
  ]

  opens_new :
      (node : MeshNodeSpec) (m : Outboxes)
      → get NodeId-discrete node.id m ≡ none
      → send_to now bytes node m ≡ (
        ok tt,
        set NodeId-discrete node.id
            (with_entry now bytes new_outbox)
            (set NodeId-discrete node.id new_outbox m),
      )
  unfolding send_to get_outbox
  opens_new node m e = rw (e, get_outbox, sends new_outbox refl) refl

  opens_old :
      (node : MeshNodeSpec) (m : Outboxes) (o : Outbox)
      → get NodeId-discrete node.id m ≡ some o
      → o.finished ≡ false
      → send_to now bytes node m ≡ (ok tt, set NodeId-discrete node.id (with_entry now bytes o) m)
  unfolding send_to get_outbox
  opens_old node m o e h = rw (e, get_outbox, sends o h) refl

  -- Sending to one node: its outbox gets the entry, and no other outbox changes.
  pub sends_to :
      (node : MeshNodeSpec) (m : Outboxes) (id : NodeId)
      → IsAlive m
      → ((send_to now bytes node m).0 ≡ ok tt)
        × (get NodeId-discrete id (send_to now bytes node m).1 ≡ (
            if holds (NodeId-discrete id node.id)
            then some (with_entry now bytes (outbox_for node.id m))
            else get NodeId-discrete id m))
  sends_to node m id h = elim (Option-cases (get NodeId-discrete node.id m)) [
    | inl e ↦
        rw (opens_new node m e, e, outbox_for)
          (
            refl,
            get-set NodeId-discrete id node.id (with_entry now bytes new_outbox)
                  (set NodeId-discrete node.id new_outbox m)
                ∙ twice (holds (NodeId-discrete id node.id))
                    (some (with_entry now bytes new_outbox)) (some new_outbox)
                    (get NodeId-discrete id m)
                    (get NodeId-discrete id (set NodeId-discrete node.id new_outbox m))
                    (get-set NodeId-discrete id node.id new_outbox m),
          )
    | inr (o, e) ↦
        rw (opens_old node m o e (h node.id o e), e, outbox_for)
          (refl, get-set NodeId-discrete id node.id (with_entry now bytes o) m)
  ]

  pub sends_to-IsAlive :
      (node : MeshNodeSpec) (m : Outboxes) → IsAlive m → IsAlive (send_to now bytes node m).1
  sends_to-IsAlive node m h id o e =
      elim (NodeId-discrete id node.id)
          as (λ b.
            ((if holds b
                then some (with_entry now bytes (outbox_for node.id m))
                else get NodeId-discrete id m)
              ≡ some o)
            → o.finished ≡ false) [
              | yes p ↦ λ k. alive_entry (outbox_for node.id m) o (alive_for node.id m h) k
              | no p ↦ λ k. h id o k
            ]
        (sym (sends_to node m id h).1 ∙ e)
    where
      alive_entry :
          (q o' : Outbox)
          → q.finished ≡ false
          → some (with_entry now bytes q) ≡ some o'
          → o'.finished ≡ false
      alive_entry q o' a k = sym (ap (λ x. elim x [ none ↦ false | some y ↦ y.finished ]) k) ∙ a

  pub send_each_step :
      (node : MeshNodeSpec) (nodes : List MeshNodeSpec) (m : Outboxes)
      → IsAlive m
      → send_each now bytes (node ∷ nodes) m
        ≡ send_each now bytes nodes (send_to now bytes node m).1
  unfolding send_each
  send_each_step node nodes m h = rw ((sends_to node m node.id h).0) refl

  -- The outboxes of the nodes that a message is not for do not change.
  pub send_each_others :
      (nodes : List MeshNodeSpec) (m : Outboxes) (id : NodeId)
      → IsAlive m
      → has_id id nodes ≡ false
      → get NodeId-discrete id (send_each now bytes nodes m).1 ≡ get NodeId-discrete id m
  unfolding has_id send_each
  send_each_others [] m id h k = refl
  send_each_others (node ∷ nodes) m id h k =
      let m' = (send_to now bytes node m).1 in
      ap (λ r. get NodeId-discrete id r.1) (send_each_step node nodes m h)
      ∙ send_each_others nodes m' id (sends_to-IsAlive node m h) (ground arith)
      ∙ (sends_to node m id h).1
      ∙ ground arith

  -- Where no task of an outbox has ended, every node that the message is sent to has an outbox
  -- afterwards, and its newest entry is the message, with the deadline now + ttl.
  send_each_reaches :
      (nodes : List MeshNodeSpec) (m : Outboxes) (id : NodeId)
      → IsAlive m
      → has_id id nodes ≡ true
      → (o : Outbox) × (get NodeId-discrete id (send_each now bytes nodes m).1 ≡ some o)
        × (older : List Item) × (o.queue ≡ older ++ (now + o.ttl, bytes) ∷ [])
  unfolding has_id
  send_each_reaches [] m id h k = ground arith
  send_each_reaches (node ∷ nodes) m id h k =
      let m' = (send_to now bytes node m).1 in
      let a = sends_to-IsAlive node m h in
      let e = ap (λ r. get NodeId-discrete id r.1) (send_each_step node nodes m h) in
      elim (Bool-cases (has_id id nodes)) [
        | inl y ↦ (let (o, g, older, q) = send_each_reaches nodes m' id a y in (o, e ∙ g, older, q))
        | inr n ↦
            (let o = outbox_for node.id m in
              (
                with_entry now bytes o,
                e ∙ send_each_others nodes m' id a n ∙ (sends_to node m id h).1 ∙ ground arith,
                if full o then drop_oldest o.queue else o.queue,
                refl,
              ))
      ]
