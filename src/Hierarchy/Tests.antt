-- ===== src/Hierarchy/Tests.antt =====
-- A group that holds one node, which is set to null.
use ho_i4_mod_development_to.Base.{ℕ, ◌≡◌, refl, none, [], ◌∷◌}
use ho_i4_mod_development_to.Status.{param_cannot_be_null}
use ho_i4_mod_development_to.Hierarchy.{GroupNode, set_child, add_child_as, remove_child}
use ho_i4_mod_development_to.Hierarchy.Children.{Outcome, children_lem}

abbrev one_node : GroupNode ℕ
one_node = record { name = b'g' ∷ []; children = (b'a' ∷ [], 7) ∷ [] }

children_example : Outcome (b'a' ∷ []) none one_node
children_example = children_lem (b'a' ∷ []) none one_node (refl, tt)

set_to_null :
    set_child (b'a' ∷ []) none one_node ≡ (param_cannot_be_null, record one_node { children = [] })
unfolding set_child add_child_as remove_child
set_to_null = refl
