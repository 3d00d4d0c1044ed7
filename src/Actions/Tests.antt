-- ===== src/Actions/Tests.antt =====
-- The theorems on actions at a small world: a field that holds a number, and the continents.
use ho_i4_mod_development_to.Base.{
  ℕ, ◌≡◌, refl, true, false, ◌&&◌, not, List, [], ◌∷◌, map, length, ◌+◌, if◌then◌else◌, ◌==◌,
  ==_iff, All,
}
use ho_i4_mod_development_to.Base.Ord.{Text, text_ord}
use ho_i4_mod_development_to.Continents.{
  ContinentSet, add_new_continent, remove_continent, does_continent_exist,
}
use ho_i4_mod_development_to.Actions.{
  IAction, ActionManager, Callback, always, make, do_action, undo_action, redo_action, can_undo,
  can_redo,
}
use ho_i4_mod_development_to.Actions.History.{
  Command, performs, undoes, redoes, step, run, IsReversible,
}
use ho_i4_mod_development_to.Actions.Sessions.{redo-undo, undo-redo, IsLawful}
use ho_i4_mod_development_to.Actions.Rewind.{
  Move, back, forth, moved, Takes, timeline, undo_all, histories, repeat,
}
use ho_i4_mod_development_to.Actions.SetProperty.{
  Field, Eq, set_property, set_property-IsReversible,
}
use ho_i4_mod_development_to.Actions.CreateRemove.{
  create_type, remove_type, create_remove_continent, create_remove_continent-IsReversible,
  create_remove_continent-do_action, HasSortedContinents, create, remove,
}

record World : Type 0 where
  manpower : ℕ
  continents : ContinentSet

abbrev manpower_field : Field World ℕ
manpower_field = record {
  get = λ w. w.manpower;
  put = λ n w. record w { manpower = n };
  get-put = λ n w. refl;
  put-get = λ w. refl;
  put-put = λ m n w. refl;
}

abbrev continents_field : Field World ContinentSet
continents_field = record {
  get = λ w. w.continents;
  put = λ s w. record w { continents = s };
  get-put = λ s w. refl;
  put-get = λ w. refl;
  put-put = λ s t w. refl;
}

abbrev nat_eq : Eq ℕ
nat_eq = record { beq = ◌==◌; beq_iff = ==_iff }

abbrev asia : Text
asia = b'a' ∷ b's' ∷ []

abbrev world : World
world = record { manpower = 5; continents = (b'e' ∷ []) ∷ [] }

abbrev raise : IAction World
raise = set_property manpower_field nat_eq world 7

abbrev add_asia : IAction World
add_asia = create_remove_continent continents_field asia create_type

-- The first answer is yes, the second no.
abbrev first_only : Callback
first_only n = n == 0

abbrev Inv : World → Type 0
Inv = HasSortedContinents continents_field

raise-IsReversible : IsReversible Inv raise
raise-IsReversible = set_property-IsReversible manpower_field nat_eq (λ n w i. i) world 7

add_asia-IsReversible : IsReversible Inv add_asia
add_asia-IsReversible = create_remove_continent-IsReversible continents_field asia create_type

abbrev session : List (Command World)
session = performs raise ∷ performs add_asia ∷ undoes ∷ []

session-IsLawful : All (IsLawful Inv) session
unfolding set_property create_remove_continent
session-IsLawful = ((raise-IsReversible, refl), ((add_asia-IsReversible, refl), (tt, tt)))

session_runs :
    (run (make, world) session).1 ≡ record { manpower = 7; continents = (b'e' ∷ []) ∷ [] }
unfolding run make do_action undo_action set_property create_remove_continent create remove
    add_new_continent remove_continent does_continent_exist
session_runs = refl

redo-undo_example :
    step (step (run (make, world) session) undoes) redoes ≡ run (make, world) session
unfolding can_undo run make do_action undo_action set_property create_remove_continent create remove
    add_new_continent remove_continent does_continent_exist
redo-undo_example = redo-undo Inv world session (tt, tt) session-IsLawful refl

undo-redo_example :
    step (step (run (make, world) session) redoes) undoes ≡ run (make, world) session
unfolding can_redo run make do_action undo_action set_property create_remove_continent create remove
    add_new_continent remove_continent does_continent_exist
undo-redo_example = undo-redo Inv world session (tt, tt) session-IsLawful refl

undo_all_example :
    let s = run (run (make, world) (map performs (raise ∷ add_asia ∷ []))) (repeat 2 undoes) in
    (s.1 ≡ world) × (s.0.actions ≡ [])
unfolding make set_property create_remove_continent create does_continent_exist
undo_all_example =
    undo_all Inv (raise ∷ add_asia ∷ []) make world (tt, tt)
      (record { on_do = λ a w. refl; on_undo = λ a w. refl; on_redo = λ a w. refl })
      (raise-IsReversible, refl, refl, (add_asia-IsReversible, refl, refl, tt))

-- A continent was made, and a field was set and set back.
abbrev between : ActionManager World
between = record make { actions = add_asia ∷ []; undone_actions = raise ∷ [] }

abbrev moves : List Move
moves = back always ∷ forth first_only ∷ forth always ∷ back first_only ∷ []

histories_example :
    let u = undo_action between first_only world in
    let r = redo_action between first_only world in
    let t = moved moves (between, world) in
    Takes u.0 (add_asia ∷ []) (raise ∷ []) u.1.actions u.1.undone_actions
    × Takes r.0 (raise ∷ []) (add_asia ∷ []) r.1.undone_actions r.1.actions
    × (timeline t.manager ≡ raise ∷ add_asia ∷ [])
    × (length t.manager.actions + t.undos ≡ 1 + t.redos)
unfolding make
histories_example = histories between first_only world moves

create_remove_continent-IsReversible_example :
    IsReversible Inv (create_remove_continent continents_field asia remove_type)
create_remove_continent-IsReversible_example =
    create_remove_continent-IsReversible continents_field asia remove_type

-- A creation whose second answer is no fails, and the continent stays.
create_remove_continent-do_action_example :
    let exists = does_continent_exist asia world.continents in
    let c =
      (create_remove_continent continents_field asia create_type).do_action first_only world in
    let r =
      (create_remove_continent continents_field asia remove_type).do_action first_only world in
    (c.0 ≡ (true && (not exists && false)))
    × (c.1 ≡ (
        if true && not exists
        then record world { continents = add_new_continent asia world.continents }
        else world))
    × (r.0 ≡ (true && (exists && false)))
    × (r.1 ≡ (
        if true && exists
        then record world { continents = remove_continent asia world.continents }
        else world))
create_remove_continent-do_action_example =
    create_remove_continent-do_action continents_field asia first_only world
