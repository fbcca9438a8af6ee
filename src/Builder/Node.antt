-- ===== src/Builder/Node.antt =====
-- `build_node`, `build_peer_selector` and `build_servers_manager` of src/rosy/node/builder.py. What
-- the machine gives (the environment, the host name, a new uuid) is a parameter.
pub mod Laws
use rosy.Base.{ℕ, ◌*◌, ◌^◌, Bool, true, false, Option, none, some, List, [], ◌∷◌, ◌++◌}
use rosy.Base.Text.{Text, Text-discrete}
use rosy.Base.Dict.{Dict, get}
use rosy.Base.Exec.{Error, Exec, Result, ok, err}
use rosy.Message.Node.{NodeMessageCodec}
use rosy.Mesh.{NodeId, MeshNodeSpec}
use rosy.LoadBalancing.Balancers.{TopicBalancer, grouping_choose_nodes, node_name_group_key}
use rosy.LoadBalancing.Recent.{LeastRecent, choose_node, choose_nodes}
use rosy.Peer.Selector.{ServiceBalancer}
use rosy.Servers.{build_server_providers}
use rosy.Service.Caller.{Caller}
use rosy.Service.Caller.Reach.{new_caller}
use rosy.Node.{Node, initd, Parts, start}
use rosy.Builder.Codec.{Serializers, DataCodecArg, build_node_message_codec}

abbrev pub domain_id_key : Text
domain_id_key =
    b'R' ∷ b'O' ∷ b'S' ∷ b'Y' ∷ b'_' ∷ b'D' ∷ b'O' ∷ b'M' ∷ b'A' ∷ b'I' ∷ b'N' ∷ b'_' ∷ b'I' ∷ b'D'
    ∷ []

abbrev pub default_domain_id : Text
default_domain_id = b'd' ∷ b'e' ∷ b'f' ∷ b'a' ∷ b'u' ∷ b'l' ∷ b't' ∷ []

abbrev pub lan_suffix : Text
lan_suffix = b'.' ∷ b'l' ∷ b'o' ∷ b'c' ∷ b'a' ∷ b'l' ∷ []

-- The machine.
pub record Machine : Type 0 where
  pub environ : Dict Text Text
  pub hostname : Text
  pub uuid : ℕ

-- `get_domain_id` of utils.py, for its default.
unfoldable pub get_domain_id : Dict Text Text → Text
get_domain_id environ = elim (get Text-discrete domain_id_key environ) [
  | none ↦ default_domain_id
  | some domain_id ↦ domain_id
]

-- `get_lan_hostname` of network.py, for its default.
unfoldable pub get_lan_hostname : Text → Text
get_lan_hostname hostname = hostname ++ lan_suffix

-- `value or default()` for a text that may be None: an empty text counts as none.
abbrev pub text_or : Option Text → Text → Text
text_or none default = default
text_or (some []) default = default
text_or (some (c ∷ t)) default = c ∷ t

-- `balancer or default`
abbrev pub given_or : {A : Type 0} → Option A → A → A
given_or none default = default
given_or (some value) default = value

-- The arguments of `build_node`. `S` is the state of the balancers, which has the default one's.
pub record Settings (Data S : Type 0) : Type 0 where
  pub name : Text
  pub domain_id : Option Text
  pub allow_unix_connections : Bool
  pub allow_tcp_connections : Bool
  pub node_server_host : Option (List Text)
  pub node_client_host : Option Text
  pub data_codec : DataCodecArg Data
  pub topic_load_balancer : Option (TopicBalancer (LeastRecent × S))
  pub service_load_balancer : Option (ServiceBalancer (LeastRecent × S))

-- `TmpUnixServerProvider`, or `TcpServerProvider` with its two hosts.
pub data ServerProvider : Type 0 where
  tmp_unix : ServerProvider
  tcp : Option (List Text) → Text → ServerProvider

pub record PeerSelector (S : Type 0) : Type 0 where
  pub topic_load_balancer : TopicBalancer (LeastRecent × S)
  pub service_load_balancer : ServiceBalancer (LeastRecent × S)

-- The node and its parts.
pub record Built (Data S TC SC : Type 0) : Type 0 where
  pub domain_id : Text
  pub node_message_codec : NodeMessageCodec Data
  pub server_providers : List ServerProvider
  pub peer_selector : PeerSelector S
  pub service_caller : Caller Data
  pub node : Node TC SC

-- The balancer that the other parts of the state do not concern.
abbrev pub on_own :
    {S A : Type 0} → (LeastRecent → A × LeastRecent) → LeastRecent × S → A × (LeastRecent × S)
on_own choose (own, s) = let (chosen, own') = choose own in (chosen, (own', s))

-- `build_peer_selector`: both defaults are on one least-recent balancer.
unfoldable pub build_peer_selector :
    {S : Type 0}
    → Option (TopicBalancer (LeastRecent × S))
    → Option (ServiceBalancer (LeastRecent × S))
    → PeerSelector S
build_peer_selector topic_load_balancer service_load_balancer = record {
  topic_load_balancer =
      given_or topic_load_balancer
        (grouping_choose_nodes node_name_group_key (λ nodes. on_own (choose_nodes nodes)));
  service_load_balancer = given_or service_load_balancer (λ nodes. on_own (choose_node nodes));
}

-- `build_server_providers` as `build_servers_manager` calls it.
unfoldable pub server_providers_of :
    {Data S : Type 0} → Machine → Settings Data S → Result (List ServerProvider)
unfolding build_server_providers get_lan_hostname
server_providers_of machine settings =
    build_server_providers settings.allow_unix_connections settings.allow_tcp_connections tmp_unix (
      tcp settings.node_server_host
        (text_or settings.node_client_host (get_lan_hostname machine.hostname)))

abbrev pub request_id_bytes : ℕ
request_id_bytes = 2

-- `NodeId(name)`
abbrev pub new_node : {TC SC : Type 0} → Machine → Text → Node TC SC
new_node machine name = record {
  id = record { name = name; hostname = machine.hostname; uuid = machine.uuid };
  topology_manager = record { topology = []; topic_nodes_cache = []; service_nodes_cache = [] };
  topic_listener_manager = [];
  service_handler_manager = [];
  state = initd;
}

module _ {Data S TC SC : Type 0} (null : Data) (libs : Serializers Data) (machine : Machine) where
  -- The parts of `build_node`, once those that may raise are there.
  unfoldable pub assemble :
      Settings Data S → NodeMessageCodec Data → List ServerProvider → Built Data S TC SC
  unfolding get_domain_id build_peer_selector
  assemble settings codec providers = record {
    domain_id = text_or settings.domain_id (get_domain_id machine.environ);
    node_message_codec = codec;
    server_providers = providers;
    peer_selector = build_peer_selector settings.topic_load_balancer settings.service_load_balancer;
    service_caller = new_caller (2 ^ (8 * request_id_bytes));
    node = new_node machine settings.name;
  }

  -- `build_node` up to `node.start()`.
  unfoldable pub build_parts : Settings Data S → Result (Built Data S TC SC)
  unfolding server_providers_of assemble
  build_parts settings =
      elim (build_node_message_codec null libs request_id_bytes settings.data_codec) [
        | err e ↦ err e
        | ok codec ↦ elim (server_providers_of machine settings) [
          | err e ↦ err e
          | ok providers ↦ ok (assemble settings codec providers)
        ]
      ]

  -- `build_node`; `parts` gives what the node uses of the parts that were built.
  unfoldable pub build_node :
      {W : Type 0}
      → (Built Data S TC SC → Parts Data W)
      → Bool
      → Settings Data S
      → Exec W (Built Data S TC SC)
  unfolding start
  build_node parts starts settings w = elim (build_parts settings) [
    | err e ↦ (err e, w)
    | ok built ↦ elim starts [
      | false ↦ (ok built, w)
      | true ↦
          let (r, (node, w')) = start (parts built) (built.node, w) in
          let built' : Built Data S TC SC = record built { node = node } in
          elim r [ ok _ ↦ (ok built', w') | err e ↦ (err e, w') ]
    ]
  ]
