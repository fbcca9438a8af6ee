-- ===== src/Tests/Registry.antt =====
-- Registrations and monitor tasks of the discovery at concrete inputs.
use rosy.Base.{
  ◌≡◌, ◌≢◌, refl, sym, ap, ◌∙◌, Bool, true, false, Option, none, some, List, [], ◌∷◌, ◌++◌, map,
  inl, arith, ℕ_discrete, holds,
}
use rosy.Base.Text.{Text, Text-discrete}
use rosy.Base.Dict.{Dict, get, set}
use rosy.Base.Dict.Laws.{get-set_self}
use rosy.Base.Exec.{Exec, Result, ok, err, foreign}
use rosy.Stream.{Bytes}
use rosy.Codec.Serializers.{Serializer}
use rosy.Mesh.{ConnectionSpec, NodeId-discrete, MeshNodeSpec}
use rosy.Mesh.Topology.{has_id}
use rosy.Discovery.{
  Discovery, added, removed, topology, on_service_state_change, check_node, remove_node,
}
use rosy.Discovery.Laws.{IsMonitored, Event, changes}
use rosy.Discovery.Registry.{
  Gzip, gzip_pickle_codec, ServiceInfo, Zeroconf, Settings, settings_of, service_name,
  register_node, get_service_info, new_discovery, monitor_node,
}
use rosy.Discovery.Registry.Published.{Publishes}
use rosy.Discovery.Registry.Learned.{registered_learned}
use rosy.Discovery.Registry.Monitor.{round, round_of, monitor_forgets}

-- A network that keeps the properties by name.
abbrev Net : Type 0
Net = Dict Text Bytes

abbrev publish : ServiceInfo → Exec Net (Exec Net (Unit {0}))
publish info net = (ok (λ n. (ok tt, set Text-discrete info.name info.properties n)), net)

abbrev zeroconf : Zeroconf Net
zeroconf = record {
  async_register_service = publish;
  async_update_service = publish;
  async_get_service_info = λ type_ name net. ok (get Text-discrete name net);
}

published :
    (info : ServiceInfo) (net sent done : Net) (broadcast : Exec Net (Unit {0}))
    → publish info net ≡ (ok broadcast, sent)
    → broadcast sent ≡ (ok tt, done)
    → ◌≡◌ {A = Result (Option Bytes)}
        (ok (get Text-discrete info.name done))
        (ok (some info.properties))
published info net sent done broadcast first second =
    ap (λ n. ok (get Text-discrete info.name n)) (sym (ap (λ r. r.1) second) ∙ sent_to)
    ∙ ap ok (get-set_self Text-discrete info.name info.properties sent)
  where
    run_of : Result (Exec Net (Unit {0})) → Net
    run_of (ok b) = (b sent).1
    run_of (err e) = sent

    sent_to : (broadcast sent).1 ≡ set Text-discrete info.name info.properties sent
    sent_to = sym (ap (λ r. run_of r.0) first)

zeroconf-Publishes : Publishes zeroconf
zeroconf-Publishes = record { registers = published; updates = published }

abbrev node : MeshNodeSpec
node = record {
  id = record { name = b'n' ∷ []; hostname = []; uuid = 7 };
  connection_specs = [];
  topics = (b't' ∷ []) ∷ [];
  services = [];
}

-- Only the one node is written and read.
abbrev pickle : Serializer MeshNodeSpec
pickle = record { dumps = λ _. ok (b'p' ∷ []); loads = λ _. ok node }

abbrev gzip : Gzip
gzip = record {
  compress = λ b. b'z' ∷ b;
  decompress = λ b. elim b [ [] ↦ err foreign | _ ∷ rest ↦ ok rest ];
}

ConnectionSpec-discrete : Discrete ConnectionSpec
unfolding ℕ_discrete Text-discrete
ConnectionSpec-discrete = hlevel (ℕ_discrete, Text-discrete)

MeshNodeSpec-discrete : Discrete MeshNodeSpec
unfolding ℕ_discrete Text-discrete ConnectionSpec-discrete NodeId-discrete
MeshNodeSpec-discrete = hlevel (ℕ_discrete, Text-discrete, NodeId-discrete, ConnectionSpec-discrete)

abbrev same : MeshNodeSpec → MeshNodeSpec → Bool
same a b = holds (MeshNodeSpec-discrete a b)

exact : (a b : MeshNodeSpec) → same a b ≡ true → a ≡ b
exact a b e = ground (arith, e)

abbrev mine : Settings
mine = settings_of (λ _. b'h' ∷ []) [] (gzip_pickle_codec pickle gzip) 30 [] (λ _. b'u' ∷ [])

-- Another host, with another TTL.
abbrev theirs : Settings
theirs =
    settings_of (λ _. b'h' ∷ []) [] (gzip_pickle_codec pickle gzip) 20 (b'a' ∷ []) (λ _. b'u' ∷ [])

abbrev name : Text
name = service_name mine node

abbrev registered : Net
registered = (name, b'z' ∷ b'p' ∷ []) ∷ []

put_into_net : register_node zeroconf mine node [] ≡ (ok tt, registered)
unfolding register_node gzip_pickle_codec
put_into_net = refl

is_added : added ≢ removed
is_added e = ground (arith, e)

monitoring : (on_service_state_change (ok tt) name added new_discovery).0 ≡ ok tt
unfolding on_service_state_change new_discovery
monitoring = refl

registered_learned_example :
    (d' : Discovery) × (check_node same
        (gzip_pickle_codec pickle gzip).decode
        (get_service_info zeroconf theirs name registered)
        (new_discovery).fresh
        name
        (on_service_state_change (ok tt) name added new_discovery).1
      ≡ (ok true, d'))
    × (get Text-discrete name d'.service_name_to_node ≡ some node)
    × (has_id node.id (topology d') ≡ true)
registered_learned_example =
    registered_learned zeroconf zeroconf-Publishes (λ _. b'h' ∷ []) [] (λ _. b'u' ∷ []) pickle gzip
      (λ b. refl) same exact node (b'p' ∷ []) 30 20 [] (b'a' ∷ []) [] registered new_discovery
      (ok tt) added refl refl (inl put_into_net) is_added monitoring

abbrev known : Discovery
known = record {
  service_name_to_node = (name, node) ∷ [];
  node_monitors = (name, 0) ∷ [];
  topology_changed = false;
  fresh = 1;
  removals = [];
}

known-IsMonitored : IsMonitored known
known-IsMonitored = ((tt, tt), λ j h. ground (arith, h))

known_monitor : get Text-discrete name known.node_monitors ≡ some 0
known_monitor = ground arith

abbrev arrives : Event
arrives = changes (ok tt) (b'o' ∷ []) added

other_name : ◌≢◌ {A = Text} (b'o' ∷ []) name
other_name e = ground (arith, e)

monitor_forgets_example :
    (d' : Discovery) × (monitor_node same
        (gzip_pickle_codec pickle gzip).decode
        0
        name
        (map
            (round_of same (gzip_pickle_codec pickle gzip).decode name)
            ((arrives ∷ [], b'z' ∷ b'p' ∷ []) ∷ [])
          ++ round same (gzip_pickle_codec pickle gzip).decode name [] none ∷ [])
        known
      ≡ (some (ok tt), d'))
    × ((due : List Text) × (d'.removals ≡ due ++ name ∷ []))
    × (get Text-discrete name (remove_node (ok tt) name d').1.service_name_to_node ≡ none)
unfolding gzip_pickle_codec Text-discrete
monitor_forgets_example =
    monitor_forgets same (gzip_pickle_codec pickle gzip).decode name 0
      ((arrives ∷ [], b'z' ∷ b'p' ∷ []) ∷ []) [] known known-IsMonitored known_monitor
      ((((other_name, tt), node, refl), tt)) tt
