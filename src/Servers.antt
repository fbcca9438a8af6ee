-- ===== src/Servers.antt =====
-- src/rosy/node/servers.py: the servers that a node listens on. A server is an object, known by a
-- number; what asyncio answers is a parameter.
pub mod Laws
use rosy.Base.{
  ℕ, Bool, true, false, Option, none, some, List, [], ◌∷◌, ◌++◌, map, leb, if◌then◌else◌,
}
use rosy.Base.Text.{Text}
use rosy.Base.Exec.{
  Error, Exec, Result, ok, err, pure, raise, contained, finally, modify, require, ◌>>=◌, ◌>>◌,
  after, runtime_error, not_implemented, unsupported_provider, interrupt, value_error,
}
use rosy.Mesh.{ConnectionSpec, ip, unix}

-- A server, and where clients reach it.
abbrev pub Started : Type 0
Started = ℕ × List ConnectionSpec

-- A listening socket: its port and its address family.
abbrev pub Socket : Type 0
Socket = ℕ × ℕ

-- The stable sort of the sockets' specs by family, an insertion sort.
unfoldable pub insert_by_family : Socket → List Socket → List Socket
insert_by_family s [] = s ∷ []
insert_by_family s (t ∷ ts) =
    let rest = insert_by_family s ts in if leb s.1 t.1 then s ∷ t ∷ ts else t ∷ rest

unfoldable pub sort_by_family : List Socket → List Socket
unfolding insert_by_family
sort_by_family [] = []
sort_by_family (s ∷ ss) = insert_by_family s (sort_by_family ss)

abbrev pub spec_of : Text → Socket → ConnectionSpec
spec_of client_host (port, family) = ip client_host port family

-- `TcpServerProvider.start_server`; `started` is what `asyncio.start_server` gives.
unfoldable pub start_tcp : Text → Result (ℕ × List Socket) → Result Started
unfolding sort_by_family
start_tcp client_host (ok (server, sockets)) =
    ok (server, map (spec_of client_host) (sort_by_family sockets))
start_tcp client_host (err e) = err e

-- `TmpUnixServerProvider.start_server` for the path of the temporary file; `host` is the default
-- host of a `UnixConnectionSpec`.
unfoldable pub start_unix : Text → Text → Result ℕ → Result Started
start_unix host path (ok server) = ok (server, unix path host ∷ [])
start_unix host path (err not_implemented) = err unsupported_provider
start_unix host path (err e) = err e

-- `_UnixServer.wait_closed`: the socket's file goes, whatever the wait gave. The state is whether
-- the file exists; `unlink(missing_ok=True)`.
unfoldable pub wait_closed : Result (Unit {0}) → Exec Bool (Unit {0})
wait_closed closed exists = finally (closed, exists) (modify (λ _. false))

-- `build_server_providers` of src/rosy/node/builder.py, over what stands for the two providers.
unfoldable pub build_server_providers : {P : Type 0} → Bool → Bool → P → P → Result (List P)
build_server_providers true true unix_provider tcp_provider = ok (unix_provider ∷ tcp_provider ∷ [])
build_server_providers true false unix_provider tcp_provider = ok (unix_provider ∷ [])
build_server_providers false true unix_provider tcp_provider = ok (tcp_provider ∷ [])
build_server_providers false false unix_provider tcp_provider = err value_error

-- `closed` lists the servers that `close()` was called on, in order.
pub record ServersManager : Type 0 where
  pub servers : List ℕ
  pub connection_specs : List ConnectionSpec
  pub closed : List ℕ

abbrev pub is_empty : {A : Type 0} → List A → Bool
is_empty [] = true
is_empty (_ ∷ _) = false

-- The loop of `start_servers`, over what each provider gives; an `UnsupportedProviderError` is
-- logged.
unfoldable pub start_each : List (Result Started) → Exec ServersManager (Unit {0})
start_each [] m = (ok tt, m)
start_each (ok (server, specs) ∷ rest) m = start_each rest (record m {
  servers = m.servers ++ server ∷ [];
  connection_specs = m.connection_specs ++ specs;
})
start_each (err e ∷ rest) m = elim e [ unsupported_provider ↦ start_each rest m | f ↦ (err f, m) ]

unfoldable pub start_servers : List (Result Started) → Exec ServersManager (Unit {0})
unfolding start_each
start_servers provided = do
  λ m. require (is_empty m.connection_specs) runtime_error m
  start_each provided
  λ m. if is_empty m.connection_specs then raise runtime_error m else pure tt m

-- The loop of `stop_servers`; `closing` is what the close of a server and the wait for it give, a
-- timeout included.
unfoldable pub stop_each : (ℕ → Result (Unit {0})) → List ℕ → Exec ServersManager (Unit {0})
stop_each closing [] m = (ok tt, m)
stop_each closing (server ∷ servers) m =
    after (contained (closing server, record m { closed = m.closed ++ server ∷ [] }))
      (λ _. stop_each closing servers)

unfoldable pub stop_servers : (ℕ → Result (Unit {0})) → Exec ServersManager (Unit {0})
unfolding stop_each
stop_servers closing m = stop_each closing m.servers m

-- `_close_on_return`: the state is whether the writer was closed; `waited` is what its
-- `wait_closed()` gives. `except Exception` lets the exceptions of `ALLOWED_EXCEPTIONS` through.
unfoldable pub close_on_return : Result (Unit {0}) → Result (Unit {0}) → Exec Bool (Unit {0})
close_on_return returned waited closed =
    finally (contained (returned, closed)) (do modify (λ _. true); λ s. (waited, s))
