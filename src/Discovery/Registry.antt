-- ===== src/Discovery/Registry.antt =====
-- src/rosy/discovery/zeroconf.py: how a node is put into zeroconf, and how the monitor task of
-- another node reads it there again and again. Zeroconf, gzip and pickle are parameters.
pub mod Published
pub mod Learned
pub mod Monitor
use rosy.Base.{ℕ, Bool, true, false, Option, none, some, List, [], ◌∷◌, ◌++◌}
use rosy.Base.Text.{Text}
use rosy.Base.Exec.{Exec, Result, ok, err, lift, ◌>>=◌, ◌>>◌}
use rosy.Stream.{Bytes}
use rosy.Codec.Serializers.{Serializer}
use rosy.Mesh.{MeshNodeSpec}
use rosy.Discovery.{Discovery, check_node}
use rosy.Discovery.Names.{get_mdns_fqdn, build_service_type}

-- `NodeSpecCodec`
pub record NodeSpecCodec : Type 0 where
  pub encode : MeshNodeSpec → Result Bytes
  pub decode : Bytes → Result MeshNodeSpec

-- `gzip.compress` at the codec's level, and `gzip.decompress`.
pub record Gzip : Type 0 where
  pub compress : Bytes → Bytes
  pub decompress : Bytes → Result Bytes

-- `GzipPickleNodeSpecCodec`; `pickle` has its `dumps` at the codec's protocol.
unfoldable pub gzip_pickle_codec : Serializer MeshNodeSpec → Gzip → NodeSpecCodec
gzip_pickle_codec pickle gzip = record {
  encode = λ node. elim (pickle.dumps node) [ ok data_ ↦ ok (gzip.compress data_) | err e ↦ err e ];
  decode = λ bytes. elim (gzip.decompress bytes) [ ok data_ ↦ pickle.loads data_ | err e ↦ err e ];
}

-- `ServiceInfo` of zeroconf, with the arguments that the program gives.
pub record ServiceInfo : Type 0 where
  pub type_ : Text
  pub name : Text
  pub port : ℕ
  pub properties : Bytes
  pub server : Text
  pub host_ttl : ℕ
  pub other_ttl : ℕ

-- What the program calls of `Zeroconf`, on the state of the network. The first `await` of a
-- registration gives what the second one waits for; the answer to a request for service info is
-- its `text`.
pub record Zeroconf (N : Type 0) : Type 1 where
  pub async_register_service : ServiceInfo → Exec N (Exec N (Unit {0}))
  pub async_update_service : ServiceInfo → Exec N (Exec N (Unit {0}))
  pub async_get_service_info : Text → Text → N → Result (Option Bytes)

-- The settings of a `ZeroconfNodeDiscovery`, and what `socket.getfqdn()` and `str` of a UUID give.
pub record Settings : Type 0 where
  pub service_type : Text
  pub node_spec_codec : NodeSpecCodec
  pub ttl : ℕ
  pub fqdn : Text
  pub str_uuid : ℕ → Text

-- `__init__`, for the settings without their defaults: no node is known and none is monitored.
unfoldable pub new_discovery : Discovery
new_discovery = record {
  service_name_to_node = [];
  node_monitors = [];
  topology_changed = false;
  fresh = 0;
  removals = [];
}

abbrev pub settings_of : (Text → Text) → Text → NodeSpecCodec → ℕ → Text → (ℕ → Text) → Settings
settings_of hash_domain_id domain_id node_spec_codec ttl fqdn str_uuid = record {
  service_type = build_service_type hash_domain_id domain_id;
  node_spec_codec = node_spec_codec;
  ttl = ttl;
  fqdn = fqdn;
  str_uuid = str_uuid;
}

-- The name of a node's service.
abbrev pub service_name : Settings → MeshNodeSpec → Text
service_name d node = d.str_uuid node.id.uuid ++ b'.' ∷ d.service_type

unfoldable pub build_service_info : Settings → MeshNodeSpec → Result ServiceInfo
build_service_info d node = elim (d.node_spec_codec.encode node) [
  | ok properties ↦ ok (record {
    type_ = d.service_type;
    name = service_name d node;
    port = 0;
    properties = properties;
    server = get_mdns_fqdn d.fqdn;
    host_ttl = d.ttl;
    other_ttl = d.ttl;
  })
  | err e ↦ err e
]

module _ {N : Type 0} (zc : Zeroconf N) (d : Settings) where
  unfoldable pub register_node : MeshNodeSpec → Exec N (Unit {0})
  unfolding build_service_info
  register_node node = do
    info ← lift (build_service_info d node)
    broadcast ← zc.async_register_service info
    broadcast

  unfoldable pub update_node : MeshNodeSpec → Exec N (Unit {0})
  unfolding build_service_info
  update_node node = do
    info ← lift (build_service_info d node)
    broadcast ← zc.async_update_service info
    broadcast

  -- `_get_service_info`, once the lock is free
  unfoldable pub get_service_info : Text → N → Result (Option Bytes)
  get_service_info name net = zc.async_get_service_info d.service_type name net

-- A round of `_monitor_node`: what other tasks did while it slept, and what `_get_service_info`
-- gives then.
pub record Round : Type 0 where
  pub others : Discovery → Discovery
  pub info : Result (Option Bytes)

-- `_monitor_node` over the rounds; `none` where it sleeps after the last of them.
unfoldable pub monitor_node :
    (MeshNodeSpec → MeshNodeSpec → Bool)
    → (Bytes → Result MeshNodeSpec)
    → ℕ
    → Text
    → List Round
    → Discovery
    → Option (Result (Unit {0})) × Discovery
unfolding check_node
monitor_node same decode task name [] d = (none, d)
monitor_node same decode task name (round ∷ rounds) d =
    let (b, d') = check_node same decode round.info task name (round.others d) in
    elim b [
      | ok true ↦ monitor_node same decode task name rounds d'
      | ok false ↦ (some (ok tt), d')
      | err e ↦ (some (err e), d')
    ]
