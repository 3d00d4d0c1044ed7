-- ===== src/Shapes/Finder/Run.antt =====
-- findAllShapes of ShapeFinder: the passes in their order, each of which a stop may end.
use ho_i4_mod_development_to.Base.{
  ℕ, zero, suc, ◌*◌, ◌%◌, ◌^◌, false, Option, none, some, [], if◌then◌else◌,
}
use ho_i4_mod_development_to.Base.Dict
use ho_i4_mod_development_to.Base.Dict.{Dict}
use ho_i4_mod_development_to.Colors.{Color, border_color, reset_unique_color_generator}
use ho_i4_mod_development_to.Project.{ProvinceId, invalid_province}
use ho_i4_mod_development_to.Shapes.{Dimensions}
use ho_i4_mod_development_to.Shapes.Loops.{Loop, more, done, ◌>>=◌}
use ho_i4_mod_development_to.Shapes.Finder.{
  Stage, pass1, output_pass1, pass2, output_pass2, merge_borders, error_check, finished, Outside,
  Finder, touch, poll, do_pass1,
}
use ho_i4_mod_development_to.Shapes.Finder.Second.{Pass2, do_pass2}
use ho_i4_mod_development_to.Shapes.Finder.Borders.{do_merge_borders}
use ho_i4_mod_development_to.Shapes.Finder.Finalize.{do_finalize}

-- No shapes are returned.
abbrev pub give_up : Finder → Finder
give_up s = record s { do_estop = false; shapes = [] }

-- outputStage looks up the colour of each label; the picture it writes is not modelled.
unfoldable pub output_stage : ℕ → (ℕ → ProvinceId) → Dict Color → Dict Color
output_stage zero labels m = m
output_stage (suc n) labels m = touch (labels n) (output_stage n labels m)

module _ (d : Dimensions) (bytes : ℕ → ℕ) (out : Outside) where
  -- `done` is a return from findAllShapes.
  unfoldable pub unless_stopped : Finder → Loop Finder (Option Finder)
  unless_stopped s =
      let polled = poll d bytes out s in
      if polled.do_estop then done (some (give_up polled)) else more polled

  abbrev pub write_stage : Finder → Finder
  write_stage s = record s {
    label_to_color = output_stage (d.w * d.h % 2 ^ 32) s.provinces s.label_to_color;
  }

  abbrev pub at_stage : Stage → Finder → Finder
  at_stage stage s = record s { stage = stage }

  abbrev pub reset_colors : Finder → Finder
  reset_colors s = record s { generator = reset_unique_color_generator out.palette s.generator }

  -- A pass that was stopped leaves the flag for the test after it.
  unfoldable pub first_pass : Finder → Loop Finder (Option Finder)
  first_pass s = elim (do_pass1 d bytes out (at_stage pass1 s)) [
    | more t ↦ unless_stopped t.finder
    | done none ↦ done none
    | done (some t) ↦ unless_stopped t
  ]

  unfoldable pub first_output : Finder → Loop Finder (Option Finder)
  first_output s =
      let t = at_stage output_pass1 s in
      let black = record t {
        label_to_color = Dict.insert invalid_province border_color t.label_to_color;
      } in
      if out.output_stages then unless_stopped (write_stage black) else more t

  -- With the dictionary that the second pass filled.
  unfoldable pub second_pass : Finder → Loop Pass2 (Option Finder)
  second_pass s =
      let after = λ (t : Pass2). unless_stopped t.finder >>= λ f. more (record t { finder = f }) in
      elim (do_pass2 d bytes out (at_stage pass2 (reset_colors s))) [
        | more t ↦ after t
        | done none ↦ done none
        | done (some t) ↦ after t
      ]

  unfoldable pub second_output : Pass2 → Loop Pass2 (Option Finder)
  second_output s =
      let t = at_stage output_pass2 s.finder in
      (if out.output_stages then unless_stopped (write_stage t) else more t)
      >>= unless_stopped
      >>= λ f. more (record s { finder = f })

  -- m_do_estop is tested after the merging, and it stays set.
  unfoldable pub third_pass : Pass2 → Loop Finder (Option Finder)
  third_pass s =
      elim (do_merge_borders d bytes out s.label_to_shapeidx
        (at_stage merge_borders (reset_colors s.finder))) [
          | none ↦ done none
          | some (merged, t) ↦
              let polled = poll d bytes out t in
              if merged
              then (if polled.do_estop
                  then done (some (record polled { shapes = [] }))
                  else more polled)
              else done (some (record t { shapes = [] }))
        ]

  unfoldable pub last_pass : Finder → Finder
  last_pass s = record (do_finalize d bytes out (at_stage error_check s)).1 {
    do_estop = false;
    stage = finished;
  }

  unfoldable pub returned : Loop Finder (Option Finder) → Option Finder
  returned (more s) = some (last_pass s)
  returned (done r) = r

  -- The finder afterwards, whose shapes are what is returned; `none` is a climb that does not end or an
  -- exception of `at`.
  unfoldable pub find_all_shapes : Finder → Option Finder
  find_all_shapes s =
      returned (first_pass s >>= first_output >>= second_pass >>= second_output >>= third_pass)
