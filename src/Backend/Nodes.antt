-- ===== src/Backend/Nodes.antt =====
-- The list of threads of the backend (include/papper/detail/core.h).
use papper.Common.{ℕ, ◌≡◌, refl, ap, ◌≢◌, List, [], ◌∷◌, ◌++◌, ==_iff, ==_false}
use papper.Backend.{Node, unlink, remove_and_delete_node}

-- No node of the list has the address.
abbrev pub Absent : ℕ → List Node → Type 0
Absent address [] = Unit {0}
Absent address (n ∷ nodes) = (n.address ≢ address) × Absent address nodes

unlink_lem :
    (before : List Node) (n : Node) (after : List Node)
    → Absent n.address before
    → unlink n.address (before ++ n ∷ after) ≡ before ++ after
unfolding unlink
unlink_lem [] n after absent = rw ((==_iff n.address n.address).1 refl)
unlink_lem (m ∷ before) n after absent =
    rw (==_false m.address n.address absent.0)
      (ap (λ (l : List Node). m ∷ l) (unlink_lem before n after absent.1))

unlink-Absent :
    (address : ℕ) (nodes : List Node) → Absent address nodes → unlink address nodes ≡ nodes
unfolding unlink
unlink-Absent address [] absent = refl
unlink-Absent address (n ∷ nodes) absent =
    rw (==_false n.address address absent.0)
      (ap (λ (l : List Node). n ∷ l) (unlink-Absent address nodes absent.1))

pub Absent-append :
    (address : ℕ) (xs ys : List Node)
    → Absent address xs
    → Absent address ys
    → Absent address (xs ++ ys)
Absent-append address [] ys a b = b
Absent-append address (x ∷ xs) ys a b = (a.0, Absent-append address xs ys a.1 b)

remove-Absent :
    (address : ℕ) (nodes : List Node)
    → Absent address nodes
    → remove_and_delete_node address nodes ≡ nodes
unfolding remove_and_delete_node
remove-Absent address [] absent = refl
remove-Absent address (n ∷ nodes) absent =
    rw (==_false n.address address absent.0)
      (ap (λ (l : List Node). n ∷ l) (unlink-Absent address nodes absent.1))

pub remove-listed :
    (before : List Node) (n : Node) (after : List Node)
    → Absent n.address before
    → remove_and_delete_node n.address (before ++ n ∷ after) ≡ before ++ after
unfolding remove_and_delete_node
remove-listed [] n after absent = rw ((==_iff n.address n.address).1 refl)
remove-listed (m ∷ before) n after absent =
    rw (==_false m.address n.address absent.0)
      (ap (λ (l : List Node). m ∷ l) (unlink_lem before n after absent.1))

-- If one node only has its address: removing it takes out that node, be it the head or not, and keeps
-- all others in their order; and removing it once more leaves the list as it is.
remove_and_delete_node_lem :
    (before : List Node) (n : Node) (after : List Node)
    → Absent n.address before
    → Absent n.address after
    → (remove_and_delete_node n.address (before ++ n ∷ after) ≡ before ++ after)
      × (remove_and_delete_node n.address (before ++ after) ≡ before ++ after)
remove_and_delete_node_lem before n after a b = (
  remove-listed before n after a,
  remove-Absent n.address (before ++ after) (Absent-append n.address before after a b),
)
