-- ===== src/Discovery/Registry/Published.antt =====
-- What other nodes get from zeroconf once a node is registered or updated there.
use rosy.Base.{◌≡◌, refl, sym, ap, ◌∙◌, some, arith}
use rosy.Base.Exec.{Exec, Result, ok, err, after, lift, ◌>>=◌}
use rosy.Stream.{Bytes}
use rosy.Mesh.{MeshNodeSpec}
use rosy.Discovery.Names.{get_mdns_fqdn}
use rosy.Discovery.Registry.{
  ServiceInfo, Zeroconf, Settings, service_name, build_service_info, register_node, update_node,
  get_service_info,
}

-- What zeroconf promises: after a registration or an update, a request for the service's info gets
-- the properties.
pub record Publishes {N : Type 0} (zc : Zeroconf N) : Type 0 where
  pub registers :
      (info : ServiceInfo) (net sent done : N) (broadcast : Exec N (Unit {0}))
      → zc.async_register_service info net ≡ (ok broadcast, sent)
      → broadcast sent ≡ (ok tt, done)
      → zc.async_get_service_info info.type_ info.name done ≡ ok (some info.properties)
  pub updates :
      (info : ServiceInfo) (net sent done : N) (broadcast : Exec N (Unit {0}))
      → zc.async_update_service info net ≡ (ok broadcast, sent)
      → broadcast sent ≡ (ok tt, done)
      → zc.async_get_service_info info.type_ info.name done ≡ ok (some info.properties)

-- Both awaits went well.
broadcast_of :
    {N : Type 0} (first : Result (Exec N (Unit {0})) × N) (done : N)
    → after first (λ broadcast. broadcast) ≡ (ok tt, done)
    → (broadcast : Exec N (Unit {0})) × (sent : N) × (first ≡ (ok broadcast, sent))
      × (broadcast sent ≡ (ok tt, done))
broadcast_of (ok broadcast, sent) done e = (broadcast, sent, refl, e)
broadcast_of (err x, sent) done e = absurd (ground (arith, ap (λ r. r.0) e))

abbrev info_of : Settings → MeshNodeSpec → Bytes → ServiceInfo
info_of d node text = record {
  type_ = d.service_type;
  name = service_name d node;
  port = 0;
  properties = text;
  server = get_mdns_fqdn d.fqdn;
  host_ttl = d.ttl;
  other_ttl = d.ttl;
}

module _ {N : Type 0} (zc : Zeroconf N) (law : Publishes zc) (node : MeshNodeSpec) (text : Bytes)
    (net done : N) where
  abbrev publish :
      (ServiceInfo → Exec N (Exec N (Unit {0}))) → Result ServiceInfo → Exec N (Unit {0})
  publish call r = do info ← lift r; broadcast ← call info; broadcast

  built_info :
      (d : Settings)
      → d.node_spec_codec.encode node ≡ ok text
      → build_service_info d node ≡ ok (info_of d node text)
  unfolding build_service_info
  built_info d encoded =
      ap (λ r. elim r [ ok properties ↦ ok (info_of d node properties) | err e ↦ err e ]) encoded

  module _ (d : Settings) (encoded : d.node_spec_codec.encode node ≡ ok text) where
    pub register_node-get :
        register_node zc d node net ≡ (ok tt, done)
        → get_service_info zc d (service_name d node) done ≡ ok (some text)
    unfolding register_node get_service_info
    register_node-get e =
        let info : ServiceInfo = info_of d node text in
        let (broadcast, sent, first, second) =
          broadcast_of (zc.async_register_service info net) done
            (sym (ap (λ r. publish zc.async_register_service r net) (built_info d encoded)) ∙ e) in
        law.registers info net sent done broadcast first second

    pub update_node-get :
        update_node zc d node net ≡ (ok tt, done)
        → get_service_info zc d (service_name d node) done ≡ ok (some text)
    unfolding update_node get_service_info
    update_node-get e =
        let info : ServiceInfo = info_of d node text in
        let (broadcast, sent, first, second) =
          broadcast_of (zc.async_update_service info net) done
            (sym (ap (λ r. publish zc.async_update_service r net) (built_info d encoded)) ∙ e) in
        law.updates info net sent done broadcast first second
