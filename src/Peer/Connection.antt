-- ===== src/Peer/Connection.antt =====
-- src/rosy/node/peer/connection.py. A stream connection is an object, known by a number; what the
-- operating system answers to the attempts to connect is a parameter.
pub mod Laws
use rosy.Base.{
  ℕ, Bool, true, false, Option, none, some, List, [], ◌∷◌, holds, if◌then◌else◌, ◌++◌, ◌==◌,
}
use rosy.Base.Text.{Text, Text-discrete}
use rosy.Base.Dict.{Dict, get, set, without}
use rosy.Base.Exec.{
  Error, Result, Exec, ok, err, pure, lift, ◌>>=◌, ◌>>◌, after, connection_error, modify,
}
use rosy.Mesh.{NodeId, NodeId-discrete, MeshNodeSpec, ConnectionSpec, ip, unix}

-- What opening a stream gives: the connection, or an exception.
pub record Network : Type 0 where
  pub open_connection : Text → ℕ → ℕ → Result ℕ
  pub open_unix_connection : Text → Result ℕ

-- `PeerConnectionBuilder._get_connection`; a Unix socket of another host gives None.
unfoldable pub get_spec_connection : Network → Text → ConnectionSpec → Result (Option ℕ)
unfolding Text-discrete
get_spec_connection net host (ip spec_host port family) =
    elim (net.open_connection spec_host port family) [ ok c ↦ ok (some c) | err e ↦ err e ]
get_spec_connection net host (unix path spec_host) =
    if holds (Text-discrete spec_host host)
    then elim (net.open_unix_connection path) [ ok c ↦ ok (some c) | err e ↦ err e ]
    else ok none

-- `build`: a `ConnectionError` or `IOError`, here `connection_error`, goes on to the next spec; any
-- other exception goes through.
unfoldable pub build : Network → Text → List ConnectionSpec → Result ℕ
unfolding get_spec_connection
build net host [] = err connection_error
build net host (spec ∷ specs) =
    let rest = build net host specs in
    elim (get_spec_connection net host spec) [
      | ok (some c) ↦ ok c
      | ok none ↦ rest
      | err connection_error ↦ rest
      | err e ↦ err e
    ]

-- `connections` is the cache; `closing` is what `is_closing()` answers for a connection, and
-- `closed` lists those that `close()` was called on, the last first.
pub record ConnectionManager : Type 0 where
  pub connections : Dict NodeId ℕ
  pub closing : ℕ → Bool
  pub closed : List ℕ

-- `close_connection`: the entry goes before the connection is closed, so it is gone where `close`
-- raises. Closing ignores a `ConnectionError`; `closes` is what `wait_closed()` gives.
unfoldable pub close_connection : Result (Unit {0}) → NodeId → Exec ConnectionManager (Unit {0})
close_connection closes id m = elim (get NodeId-discrete id m.connections) [
  | none ↦ (ok tt, m)
  | some c ↦ (
    elim closes [ ok _ ↦ ok tt | err e ↦ elim e [ connection_error ↦ ok tt | f ↦ err f ] ],
    record m {
      connections = without NodeId-discrete id m.connections;
      closing = λ j. if j == c then true else m.closing j;
      closed = c ∷ m.closed;
    },
  )
]

-- `_get_cached_connection`
unfoldable pub get_cached_connection :
    Result (Unit {0}) → NodeId → Exec ConnectionManager (Option ℕ)
get_cached_connection closes id m = elim (get NodeId-discrete id m.connections) [
  | none ↦ (ok none, m)
  | some c ↦
      if m.closing c
      then after (close_connection closes id m) (λ _. pure none)
      else (ok (some c), m)
]

-- The rest of `get_connection`, where nothing is cached.
unfoldable pub connect : Network → Text → MeshNodeSpec → Exec ConnectionManager ℕ
connect net host node = do
  c ← lift (build net host node.connection_specs)
  modify (λ m. record m { connections = set NodeId-discrete node.id c m.connections })
  pure c

-- `get_connection`, under the lock of the node: no other call for the node runs in between.
unfoldable pub get_connection :
    Network → Text → Result (Unit {0}) → MeshNodeSpec → Exec ConnectionManager ℕ
get_connection net host closes node = do
  cached ← get_cached_connection closes node.id
  elim cached [ some c ↦ pure c | none ↦ connect net host node ]
