-- ===== src/Peer/Connection/Laws.antt =====
-- The connection cache: one connection for each node, reused while it is open.
use rosy.Base.{
  ℕ, ◌≡◌, refl, ap, true, false, none, some, List, [], ◌∷◌, ◌++◌, holds, if◌then◌else◌, arith, ◌⊎◌,
  inl, inr, Option-cases, All, ◌==◌,
}
use rosy.Base.Text.{Text}
use rosy.Base.Dict.{get, set, without, keys, Distinct}
use rosy.Base.Dict.Laws.{get-without}
use rosy.Base.Exec.{Result, ok, err, connection_error}
use rosy.Mesh.{NodeId, NodeId-discrete, MeshNodeSpec, ConnectionSpec}
use rosy.Peer.Connection.{
  Network, get_spec_connection, build, ConnectionManager, close_connection, get_cached_connection,
  connect, get_connection,
}

module _ (net : Network) (host : Text) where
  -- The spec gives no connection, and lets the search go on.
  abbrev pub Skipped : ConnectionSpec → Type 0
  Skipped spec =
      (get_spec_connection net host spec ≡ ok none)
      ⊎ (get_spec_connection net host spec ≡ err connection_error)

  -- The first spec that is not skipped decides.
  pub build-append :
      (skipped specs : List ConnectionSpec)
      → All Skipped skipped
      → build net host (skipped ++ specs) ≡ build net host specs
  unfolding build
  build-append [] specs h = refl
  build-append (s ∷ skipped) specs h = elim h.0 [
    | inl e ↦ rw (e, build) (build-append skipped specs h.1)
    | inr e ↦ rw (e, build) (build-append skipped specs h.1)
  ]

module _ (closes : Result (Unit {0})) (node : MeshNodeSpec) (m : ConnectionManager) where
  cached_open :
      (c : ℕ)
      → get NodeId-discrete node.id m.connections ≡ some c
      → m.closing c ≡ false
      → get_cached_connection closes node.id m ≡ (ok (some c), m)
  unfolding get_cached_connection
  cached_open c h open_c = rw (h, get_cached_connection, open_c) refl

  not_cached :
      get NodeId-discrete node.id m.connections ≡ none
      → get_cached_connection closes node.id m ≡ (ok none, m)
  unfolding get_cached_connection
  not_cached h = rw (h, get_cached_connection) refl

  -- Closing leaves no entry for the node, also where it raises, and no other entry changes.
  pub close_connection_removes :
      (id : NodeId)
      → Distinct (keys m.connections)
      → get NodeId-discrete id (close_connection closes node.id m).1.connections ≡ (
          if holds (NodeId-discrete id node.id) then none else get NodeId-discrete id m.connections)
  unfolding close_connection
  close_connection_removes id u = elim (Option-cases (get NodeId-discrete node.id m.connections)) [
    | inl e ↦ ground (arith, e, ap (λ j. get NodeId-discrete j m.connections))
    | inr (c, e) ↦ rw (e, close_connection) (get-without NodeId-discrete id node.id m.connections u)
  ]

  module _ (net : Network) (host : Text) where
    -- An open cached connection is returned, and nothing changes.
    pub get_connection_cached :
        (c : ℕ)
        → get NodeId-discrete node.id m.connections ≡ some c
        → m.closing c ≡ false
        → get_connection net host closes node m ≡ (ok c, m)
    unfolding get_connection
    get_connection_cached c h open_c = rw (cached_open c h open_c) refl

    -- Without a cached connection a new one is built from the node's specs, and cached; if that
    -- raises, nothing is.
    pub get_connection_new :
        get NodeId-discrete node.id m.connections ≡ none
        → get_connection net host closes node m ≡ elim (build net host node.connection_specs) [
          | ok c ↦ (ok c, record m { connections = set NodeId-discrete node.id c m.connections })
          | err e ↦ (err e, m)
        ]
    unfolding get_connection connect
    get_connection_new h = rw (not_cached h) (ground arith)

  -- The cached connection is dropped where it is closing.
  abbrev dropped : ℕ → ConnectionManager
  dropped c = record m {
    connections = without NodeId-discrete node.id m.connections;
    closing = λ j. if j == c then true else m.closing j;
    closed = c ∷ m.closed;
  }

  closes_stale :
      (c : ℕ)
      → get NodeId-discrete node.id m.connections ≡ some c
      → closes ≡ ok tt
      → close_connection closes node.id m ≡ (ok tt, dropped c)
  unfolding close_connection
  closes_stale c h cl = rw (h, cl, close_connection) refl

  cached_stale :
      (c : ℕ)
      → get NodeId-discrete node.id m.connections ≡ some c
      → m.closing c ≡ true
      → closes ≡ ok tt
      → get_cached_connection closes node.id m ≡ (ok none, dropped c)
  unfolding get_cached_connection
  cached_stale c h stale cl = rw (h, get_cached_connection, stale, closes_stale c h cl) refl

  -- A cached connection that is closing is closed and forgotten, and the new connection takes its
  -- place, where the close does not raise and a new one is built.
  pub get_connection_stale :
      (net : Network) (host : Text) (c d : ℕ)
      → get NodeId-discrete node.id m.connections ≡ some c
      → m.closing c ≡ true
      → closes ≡ ok tt
      → build net host node.connection_specs ≡ ok d
      → get_connection net host closes node m ≡ (
        ok d,
        record (dropped c) {
          connections =
              set NodeId-discrete node.id d (without NodeId-discrete node.id m.connections);
        },
      )
  unfolding get_connection connect
  get_connection_stale net host c d h stale cl b = rw (cached_stale c h stale cl, b) refl
