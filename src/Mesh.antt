-- ===== src/Mesh.antt =====
-- src/rosy/specs.py and src/rosy/node/topology.py: the nodes of the mesh.
pub mod Topology
use rosy.Base.{ℕ, Bool, true, false, List, ℕ_discrete}
use rosy.Base.Text.{Text, Text-discrete}

-- An address family is an integer.
pub data ConnectionSpec : Type 0 where
  ip : Text → ℕ → ℕ → ConnectionSpec
  unix : Text → Text → ConnectionSpec

-- `uuid` is the UUID's integer.
pub record NodeId : Type 0 where
  pub name : Text
  pub hostname : Text
  pub uuid : ℕ

unfoldable pub NodeId-discrete : Discrete NodeId
unfolding ℕ_discrete Text-discrete
NodeId-discrete = hlevel (ℕ_discrete, Text-discrete)

pub record MeshNodeSpec : Type 0 where
  pub id : NodeId
  pub connection_specs : List ConnectionSpec
  pub topics : List Text
  pub services : List Text
