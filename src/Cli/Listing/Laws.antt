-- ===== src/Cli/Listing/Laws.antt =====
-- A listing is sorted, and has the names that the topology manager finds nodes for.
use rosy.Base.{
  ◌≡◌, refl, ap, ◌∙◌, true, false, List, [], ◌∷◌, ◌++◌, holds, if◌then◌else◌, arith, inl, inr,
  Bool-cases,
}
use rosy.Base.Text.{Text, Text-discrete}
use rosy.Mesh.{MeshNodeSpec}
use rosy.Mesh.Topology.{MeshTopologySpec}
use rosy.Mesh.Topology.Laws.{nodes_with, has_name}
use rosy.LoadBalancing.Balancers.{text_lt}
use rosy.LoadBalancing.Balancers.Laws.{text_lt_total}
use rosy.Node.{is_nonempty}
use rosy.Cli.Listing.{insert_name, sorted_set, names_in, list_topics, list_services}

-- Each name is before the next one, by code points.
abbrev pub Ascending : List Text → Type 0
Ascending [] = Unit
Ascending (x ∷ []) = Unit
Ascending (x ∷ y ∷ names) = (text_lt x y ≡ true) × Ascending (y ∷ names)

-- A name is before the first of a list, if there is one.
abbrev Before : Text → List Text → Type 0
Before x [] = Unit
Before x (y ∷ _) = text_lt x y ≡ true

insert-Before :
    (x name : Text) (names : List Text)
    → text_lt x name ≡ true
    → Before x names
    → Before x (insert_name name names)
unfolding insert_name
insert-Before x name [] h b = h
insert-Before x name (y ∷ names) h b = ground arith

cons-Ascending :
    (x : Text) (names : List Text) → Before x names → Ascending names → Ascending (x ∷ names)
cons-Ascending x [] b h = tt
cons-Ascending x (y ∷ names) b h = (b, h)

tail-Ascending :
    (x : Text) (names : List Text) → Ascending (x ∷ names) → Before x names × Ascending names
tail-Ascending x [] h = (tt, tt)
tail-Ascending x (y ∷ names) h = h

insert-Ascending :
    (name : Text) (names : List Text) → Ascending names → Ascending (insert_name name names)
unfolding insert_name
insert-Ascending name [] h = tt
insert-Ascending name (x ∷ names) h =
    let (before, rest) = tail-Ascending x names h in
    let inserted = insert_name name names in
    elim (Text-discrete name x)
      as (λ d. Ascending (
        if holds d then x ∷ names else if text_lt name x then name ∷ x ∷ names else x ∷ inserted)) [
          | yes _ ↦ h
          | no ne ↦ elim (Bool-cases (text_lt name x)) [
            | inl e ↦ rw e (e, h)
            | inr e ↦ rw e (
                cons-Ascending x inserted
                  (insert-Before x name names (text_lt_total name x ne e) before)
                  (insert-Ascending name names rest))
          ]
        ]

has_name-insert :
    (n name : Text) (names : List Text)
    → has_name n (insert_name name names)
      ≡ (if holds (Text-discrete n name) then true else has_name n names)
unfolding insert_name has_name
has_name-insert n name [] = refl
has_name-insert n name (x ∷ names) = ground (arith, has_name-insert n name names)

has_name-append :
    (n : Text) (xs ys : List Text)
    → has_name n (xs ++ ys) ≡ (if has_name n xs then true else has_name n ys)
unfolding has_name
has_name-append n [] ys = refl
has_name-append n (x ∷ xs) ys = ground (arith, has_name-append n xs ys)

sorted_set-Ascending : (names : List Text) → Ascending (sorted_set names)
unfolding sorted_set
sorted_set-Ascending [] = tt
sorted_set-Ascending (name ∷ names) =
    insert-Ascending name (sorted_set names) (sorted_set-Ascending names)

has_name-sorted_set :
    (n : Text) (names : List Text) → has_name n (sorted_set names) ≡ has_name n names
unfolding sorted_set has_name
has_name-sorted_set n [] = refl
has_name-sorted_set n (name ∷ names) =
    has_name-insert n name (sorted_set names)
    ∙ ap (λ b. if holds (Text-discrete n name) then true else b) (has_name-sorted_set n names)

has_name-names_in :
    (names : MeshNodeSpec → List Text) (n : Text) (topology : MeshTopologySpec)
    → has_name n (names_in names topology) ≡ is_nonempty (nodes_with names n topology)
unfolding nodes_with has_name
has_name-names_in names n [] = refl
has_name-names_in names n (node ∷ nodes) =
    has_name-append n (names node) (names_in names nodes)
    ∙ elim (has_name n (names node))
        as (λ b.
          (if b then true else has_name n (names_in names nodes))
          ≡ is_nonempty (if b then node ∷ nodes_with names n nodes else nodes_with names n nodes)) [
            | true ↦ refl
            | false ↦ has_name-names_in names n nodes
          ]

-- The names ascend strictly, and they are those that some node of the topology has.
abbrev pub Lists : (MeshNodeSpec → List Text) → MeshTopologySpec → List Text → Type 0
Lists names topology listed =
    Ascending listed × ((n : Text) → has_name n listed ≡ is_nonempty (nodes_with names n topology))

sorted_set-Lists :
    (names : MeshNodeSpec → List Text) (topology : MeshTopologySpec)
    → Lists names topology (sorted_set (names_in names topology))
sorted_set-Lists names topology = (
  sorted_set-Ascending (names_in names topology),
  λ n. has_name-sorted_set n (names_in names topology) ∙ has_name-names_in names n topology,
)

-- The topics, and the services, that are listed ascend strictly, so that none is listed twice, and
-- a topic is listed exactly if some node of the topology listens to it, a service exactly if some
-- node provides it.
pub listings_lem :
    (topology : MeshTopologySpec)
    → Lists (λ node. node.topics) topology (list_topics topology)
      × Lists (λ node. node.services) topology (list_services topology)
unfolding list_topics list_services
listings_lem topology = (
  sorted_set-Lists (λ node. node.topics) topology,
  sorted_set-Lists (λ node. node.services) topology,
)
