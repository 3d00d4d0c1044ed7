-- ===== src/Hierarchy.antt =====
-- mod_dev_tool/project/hierarchy/src/GroupNode.cpp: a group of named nodes. `N` is what a node is; a
-- null pointer is `none`. The map from names to nodes is a list that no name stands in twice.
pub mod Children
mod Tests
use ho_i4_mod_development_to.Base.{
  Bool, true, false, Option, none, some, List, [], ◌∷◌, if◌then◌else◌, is_some,
}
use ho_i4_mod_development_to.Base.Ord.{Text, text_ord}
use ho_i4_mod_development_to.Base.OrdSet
use ho_i4_mod_development_to.Status.{
  Status, success, param_cannot_be_null, key_exists, key_not_found,
}

abbrev pub is_name : Text → Text → Bool
is_name = OrdSet.same ⦃o = text_ord⦄

pub record GroupNode (N : Type 0) : Type 0 where
  pub name : Text
  pub children : List (Text × N)

module _ {N : Type 0} where
  abbrev pub find : Text → List (Text × N) → Option N
  find k [] = none
  find k ((j, n) ∷ m) = if is_name k j then some n else find k m

  abbrev pub drop : Text → List (Text × N) → List (Text × N)
  drop k [] = []
  drop k ((j, n) ∷ m) = if is_name k j then m else (j, n) ∷ drop k m

  unfoldable pub make_group : Text → GroupNode N
  make_group name = record { name = name; children = [] }

  -- `addChild(name, node)`.
  unfoldable pub add_child_as : Text → Option N → GroupNode N → Status × GroupNode N
  add_child_as k none g = (param_cannot_be_null, g)
  add_child_as k (some n) g =
      if is_some (find k g.children)
      then (key_exists, g)
      else (success, record g { children = (k, n) ∷ g.children })

  -- `addChild(node)`; `get_name` is the node's `getName`.
  unfoldable pub add_child_node : (N → Text) → Option N → GroupNode N → Status × GroupNode N
  add_child_node get_name none g = (param_cannot_be_null, g)
  add_child_node get_name (some n) g = add_child_as (get_name n) (some n) g

  unfoldable pub remove_child : Text → GroupNode N → Status × GroupNode N
  remove_child k g =
      if is_some (find k g.children)
      then (success, record g { children = drop k g.children })
      else (key_not_found, g)

  unfoldable pub set_child : Text → Option N → GroupNode N → Status × GroupNode N
  set_child k node g =
      let r = remove_child k g in elim r.0 [ success ↦ add_child_as k node r.1 | _ ↦ r ]
