-- ===== src/Discovery/Registry/Learned.antt =====
-- A node that one discovery puts into zeroconf becomes part of the topology of another.
use rosy.Base.{
  ℕ, ◌≡◌, ◌≢◌, ◌⊎◌, refl, sym, ap, ◌∙◌, Bool, true, some, [], ◌∷◌, arith, inl, inr, Option-cases,
  Bool-cases,
}
use rosy.Base.Text.{Text, Text-discrete}
use rosy.Base.Dict.{Dict, get, values, contains}
use rosy.Base.Dict.Laws.{get-set_self}
use rosy.Base.Exec.{Result, ok, err}
use rosy.Stream.{Bytes}
use rosy.Codec.Serializers.{Serializer}
use rosy.Mesh.{MeshNodeSpec}
use rosy.Mesh.Topology.{has_id}
use rosy.Discovery.{
  Discovery, ServiceStateChange, added, removed, updated, topology, stop_monitoring_node,
  start_monitoring_node, on_service_state_change, learn_node, take_info, check_node,
}
use rosy.Discovery.Laws.{checks_current}
use rosy.Discovery.Registry.{
  Gzip, gzip_pickle_codec, Zeroconf, Settings, settings_of, service_name, NodeSpecCodec,
  register_node, update_node, get_service_info,
}
use rosy.Discovery.Registry.Published.{Publishes, register_node-get, update_node-get}

module _ (name : Text) (d : Discovery) where
  started :
      (cancelled : Result (Unit {0}))
      → (start_monitoring_node cancelled name d).0 ≡ ok tt
      → get Text-discrete name (start_monitoring_node cancelled name d).1.node_monitors
        ≡ some d.fresh
  unfolding start_monitoring_node stop_monitoring_node
  started (ok _) e = elim (Bool-cases (contains Text-discrete name d.node_monitors)) [
    | inl c ↦ rw (c, get-set_self) refl
    | inr c ↦ rw (c, get-set_self) refl
  ]
  started (err x) e = ground (arith, e, get-set_self Text-discrete name d.fresh d.node_monitors)

  change_started :
      (cancelled : Result (Unit {0})) (change : ServiceStateChange)
      → change ≢ removed
      → (on_service_state_change cancelled name change d).0 ≡ ok tt
      → get Text-discrete name (on_service_state_change cancelled name change d).1.node_monitors
        ≡ some d.fresh
  unfolding on_service_state_change
  change_started cancelled added n e = started cancelled e
  change_started cancelled updated n e = started cancelled e
  change_started cancelled removed n e = absurd (n refl)

  pub check-learn_node :
      (same : MeshNodeSpec → MeshNodeSpec → Bool) (decode : Bytes → Result MeshNodeSpec)
      (text : Bytes) (node : MeshNodeSpec) (task : ℕ)
      → get Text-discrete name d.node_monitors ≡ some task
      → decode text ≡ ok node
      → check_node same decode (ok (some text)) task name d ≡ (ok true, learn_node same name node d)
  unfolding check_node take_info
  check-learn_node same decode text node task m e =
      rw (checks_current name d task task m (ground arith), e) refl

  module _ (same : MeshNodeSpec → MeshNodeSpec → Bool)
      (exact : (a b : MeshNodeSpec) → same a b ≡ true → a ≡ b) where
    get-learn_node :
        (node : MeshNodeSpec)
        → get Text-discrete name (learn_node same name node d).service_name_to_node ≡ some node
    unfolding learn_node
    get-learn_node node = elim (Option-cases (get Text-discrete name d.service_name_to_node)) [
      | inl e ↦ rw (e) (get-set_self Text-discrete name node d.service_name_to_node)
      | inr (existing, e) ↦ elim (Bool-cases (same node existing)) [
        | inl s ↦ rw (e, s) (e ∙ ap some (sym (exact node existing s)))
        | inr s ↦ rw (e, s) (get-set_self Text-discrete name node d.service_name_to_node)
      ]
    ]

pub has_id-get :
    (name : Text) (nodes : Dict Text MeshNodeSpec) (node : MeshNodeSpec)
    → get Text-discrete name nodes ≡ some node
    → has_id node.id (values nodes) ≡ true
unfolding has_id
has_id-get name [] node e = ground (arith, e)
has_id-get name ((k, v) ∷ nodes) node e = elim (Text-discrete name k) [
  | yes p ↦ ground (arith, e)
  | no p ↦ ground (arith, has_id-get name nodes node, e)
]

module _ {N : Type 0} (zc : Zeroconf N) (law : Publishes zc) (hash_domain_id : Text → Text)
    (domain_id : Text) (str_uuid : ℕ → Text) (pickle : Serializer MeshNodeSpec) (gzip : Gzip)
    (unzips : (b : Bytes) → gzip.decompress (gzip.compress b) ≡ ok b)
    (same : MeshNodeSpec → MeshNodeSpec → Bool)
    (exact : (a b : MeshNodeSpec) → same a b ≡ true → a ≡ b) where
  abbrev codec : NodeSpecCodec
  codec = gzip_pickle_codec pickle gzip

  -- The settings of a node of the domain.
  abbrev of_domain : ℕ → Text → Settings
  of_domain ttl fqdn = settings_of hash_domain_id domain_id codec ttl fqdn str_uuid

  -- The check of the monitor that was made last.
  learned :
      (name : Text) (node : MeshNodeSpec) (text : Bytes) (d : Discovery)
      (cancelled : Result (Unit {0})) (change : ServiceStateChange)
      → codec.decode text ≡ ok node
      → change ≢ removed
      → (on_service_state_change cancelled name change d).0 ≡ ok tt
      → (d' : Discovery) × (check_node same codec.decode
            (ok (some text))
            d.fresh
            name
            (on_service_state_change cancelled name change d).1
          ≡ (ok true, d'))
        × (get Text-discrete name d'.service_name_to_node ≡ some node)
        × (has_id node.id (topology d') ≡ true)
  unfolding topology
  learned name node text d cancelled change decoded n started =
      let d1 = (on_service_state_change cancelled name change d).1 in
      let known = get-learn_node name d1 same exact node in
      (
        learn_node same name node d1,
        check-learn_node name d1 same codec.decode text node d.fresh
            (change_started name d cancelled change n started) decoded,
        known,
        has_id-get name (learn_node same name node d1).service_name_to_node node known,
      )

  -- A node registers or updates its spec, which pickle can write and read, in a zeroconf that
  -- publishes what is registered or updated; gzip gives back what it compressed, and specs that
  -- compare equal are equal. Zeroconf tells another node of the same domain that it is added or
  -- updated there, whose old monitor of the name, if any, stops: the first check of the new monitor
  -- finds exactly that spec, and then the other node has the spec under the name and its topology
  -- has the node's id. Each of the two has a TTL and a host name of its own.
  pub registered_learned :
      (node : MeshNodeSpec) (dumped : Bytes) (ttl ttl' : ℕ) (fqdn fqdn' : Text) (net done : N)
      (d : Discovery) (cancelled : Result (Unit {0})) (change : ServiceStateChange)
      → pickle.dumps node ≡ ok dumped
      → pickle.loads dumped ≡ ok node
      → (register_node zc (of_domain ttl fqdn) node net ≡ (ok tt, done))
        ⊎ (update_node zc (of_domain ttl fqdn) node net ≡ (ok tt, done))
      → change ≢ removed
      → (on_service_state_change cancelled (service_name (of_domain ttl fqdn) node) change d).0
        ≡ ok tt
      → (d' : Discovery) × (check_node same codec.decode
            (get_service_info zc
              (of_domain ttl' fqdn')
              (service_name (of_domain ttl fqdn) node)
              done)
            d.fresh
            (service_name (of_domain ttl fqdn) node)
            (on_service_state_change cancelled (service_name (of_domain ttl fqdn) node) change d).1
          ≡ (ok true, d'))
        × (get Text-discrete (service_name (of_domain ttl fqdn) node) d'.service_name_to_node
            ≡ some node)
        × (has_id node.id (topology d') ≡ true)
  unfolding gzip_pickle_codec get_service_info
  registered_learned node dumped ttl ttl' fqdn fqdn' net done d cancelled change dumps loads e n s =
      let mine = of_domain ttl fqdn in
      let name = service_name mine node in
      let text = gzip.compress dumped in
      let encoded : codec.encode node ≡ ok text =
        ap (λ r. elim r [ ok data_ ↦ ok (gzip.compress data_) | err x ↦ err x ]) dumps in
      let decoded : codec.decode text ≡ ok node =
        ap (λ r. elim r [ ok data_ ↦ pickle.loads data_ | err x ↦ err x ]) (unzips dumped)
        ∙ loads in
      let found : get_service_info zc (of_domain ttl' fqdn') name done ≡ ok (some text) = elim e [
        | inl r ↦ register_node-get zc law node text net done mine encoded r
        | inr u ↦ update_node-get zc law node text net done mine encoded u
      ] in
      let (d', check, known, has) = learned name node text d cancelled change decoded n s in
      (
        d',
        ap
              (λ i.
                check_node same codec.decode i d.fresh name
                  (on_service_state_change cancelled name change d).1)
              found
            ∙ check,
        known,
        has,
      )
