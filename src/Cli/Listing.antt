-- ===== src/Cli/Listing.antt =====
-- The commands that list topics and services, src/rosy/cli/topic/list.py and service/list.py, for
-- the topology that the discovery has.
pub mod Laws
use rosy.Base.{Bool, true, false, List, [], ◌∷◌, ◌++◌, holds, if◌then◌else◌}
use rosy.Base.Text.{Text, Text-discrete}
use rosy.Mesh.{MeshNodeSpec}
use rosy.Mesh.Topology.{MeshTopologySpec}
use rosy.LoadBalancing.Balancers.{text_lt}

-- One more name in the sorted list of a set: a name that is there is not added again.
unfoldable pub insert_name : Text → List Text → List Text
insert_name name [] = name ∷ []
insert_name name (x ∷ xs) =
    let rest = insert_name name xs in
    if holds (Text-discrete name x)
    then x ∷ xs
    else if text_lt name x
    then name ∷ x ∷ xs
    else x ∷ rest

-- `sorted({…})` for the names in the order of the comprehension.
unfoldable pub sorted_set : List Text → List Text
sorted_set [] = []
sorted_set (name ∷ names) = insert_name name (sorted_set names)

-- `for node in topology.nodes for name in names(node)`
abbrev pub names_in : (MeshNodeSpec → List Text) → MeshTopologySpec → List Text
names_in names [] = []
names_in names (node ∷ nodes) = names node ++ names_in names nodes

-- The topics that `list_main` prints, one on a line.
unfoldable pub list_topics : MeshTopologySpec → List Text
unfolding sorted_set
list_topics topology = sorted_set (names_in (λ node. node.topics) topology)

unfoldable pub list_services : MeshTopologySpec → List Text
unfolding sorted_set
list_services topology = sorted_set (names_in (λ node. node.services) topology)
