-- ===== src/Servers/Laws.antt =====
-- The servers of a node are started once, and all are closed.
use rosy.Base.{
  ℕ, ◌≡◌, ◌≢◌, refl, ap, if◌then◌else◌, List, [], ◌∷◌, ◌++◌, arith, All, append_assoc, append-nil,
}
use rosy.Base.Exec.{Result, ok, err, interrupt, runtime_error, unsupported_provider, contained}
use rosy.Mesh.{ConnectionSpec}
use rosy.Servers.{
  Started, ServersManager, is_empty, start_each, start_servers, stop_each, stop_servers,
}

-- What a provider gives raises nothing but that the system does not support it.
abbrev pub Supported : Result Started → Type 0
Supported (ok _) = Unit
Supported (err e) = e ≡ unsupported_provider

-- The servers that start, and their specs.
abbrev pub started_servers : List (Result Started) → List ℕ
started_servers [] = []
started_servers (ok s ∷ rest) = s.0 ∷ started_servers rest
started_servers (err _ ∷ rest) = started_servers rest

abbrev pub started_specs : List (Result Started) → List ConnectionSpec
started_specs [] = []
started_specs (ok s ∷ rest) = s.1 ++ started_specs rest
started_specs (err _ ∷ rest) = started_specs rest

abbrev with_started : List ℕ → List ConnectionSpec → ServersManager → ServersManager
with_started servers specs m = record m {
  servers = m.servers ++ servers;
  connection_specs = m.connection_specs ++ specs;
}

start_each_lem :
    (provided : List (Result Started)) (m : ServersManager)
    → All Supported provided
    → start_each provided m
      ≡ (ok tt, with_started (started_servers provided) (started_specs provided) m)
unfolding start_each
start_each_lem [] m h = rw (append-nil m.servers, append-nil m.connection_specs) refl
start_each_lem (ok (server, specs) ∷ rest) m h =
    rw
      (
        ← append_assoc m.servers (server ∷ []) (started_servers rest),
        ← append_assoc m.connection_specs specs (started_specs rest),
      )
      (start_each_lem rest (with_started (server ∷ []) specs m) h.1)
start_each_lem (err e ∷ rest) m h = rw (h.0) (start_each_lem rest m h.1)

-- Servers are started where no server is started before and each provider starts one or is not
-- supported: all that started are kept, and their specs in the order of the providers; where no
-- provider gives a spec, `start_servers` raises.
start_servers_starts :
    (provided : List (Result Started)) (m : ServersManager)
    → m.connection_specs ≡ []
    → All Supported provided
    → start_servers provided m ≡ (
      if is_empty (started_specs provided) then err runtime_error else ok tt,
      with_started (started_servers provided) (started_specs provided) m,
    )
unfolding start_servers
start_servers_starts provided m e h =
    rw
      (
        ap is_empty e,
        start_each_lem provided m h,
        ap (λ c. is_empty (c ++ started_specs provided)) e,
      )
      (ground arith)

contained_ok :
    {S : Type 0} (r : Result (Unit {0})) (s : S) → r ≢ err interrupt → contained (r, s) ≡ (ok tt, s)
contained_ok (ok _) s h = refl
contained_ok (err interrupt) s h = absurd (h refl)
contained_ok (err _) s h = refl

stop_each_lem :
    (closing : ℕ → Result (Unit {0})) (servers : List ℕ) (m : ServersManager)
    → ((server : ℕ) → closing server ≢ err interrupt)
    → stop_each closing servers m ≡ (ok tt, record m { closed = m.closed ++ servers })
unfolding stop_each
stop_each_lem closing [] m h = rw (append-nil m.closed) refl
stop_each_lem closing (server ∷ servers) m h =
    rw
      (
        contained_ok (closing server) (record m { closed = m.closed ++ server ∷ [] }) (h server),
        ← append_assoc m.closed (server ∷ []) servers,
      )
      (stop_each_lem closing servers (record m { closed = m.closed ++ server ∷ [] }) h)

-- `stop_servers` calls `close()` on every server, in order, and raises nothing, unless the close of
-- one raises an exception of `ALLOWED_EXCEPTIONS`.
stop_servers_closes :
    (closing : ℕ → Result (Unit {0})) (m : ServersManager)
    → ((server : ℕ) → closing server ≢ err interrupt)
    → stop_servers closing m ≡ (ok tt, record m { closed = m.closed ++ m.servers })
unfolding stop_servers
stop_servers_closes closing m h = stop_each_lem closing m.servers m h
