-- ===== src/Project/Outlines.antt =====
-- mod_dev_tool/project/src/ProvinceProject.cpp: buildProvinceOutlines, which finds the neighbours of the
-- provinces and draws the pixels where they meet. The warnings are not modelled.
pub mod Meeting
pub mod Steps
pub mod Adjacent
mod Tests
use ho_i4_mod_development_to.Base.{ℕ, ◌+◌, ◌*◌, ◌%◌, ◌^◌, none, some, if◌then◌else◌}
use ho_i4_mod_development_to.Base.Ord.{Ord}
use ho_i4_mod_development_to.Base.Dict
use ho_i4_mod_development_to.Project.{ProvinceId, Province, Project, get_province_for_id}
use ho_i4_mod_development_to.Project.Graphics.{Image, for_columns}
use ho_i4_mod_development_to.Shapes.{Point2d, Dimensions, xy_to_index, calculate_adjacency}
use ho_i4_mod_development_to.Shapes.Loops.{Loop, more}
use ho_i4_mod_development_to.Shapes.Finder.{write}

-- The four writes of a pixel that is drawn, of which each has four bytes.
unfoldable pub draw_outline : Dimensions → Point2d → Image → Image
draw_outline d q m =
    let gindex = xy_to_index (d.w * 4 % 2 ^ 32) (q.x * 4 % 2 ^ 32) q.y in
    write (gindex + 3) 255 (write (gindex + 2) 255 (write (gindex + 1) 255 (write gindex 255 m)))

module _ (o : Ord ProvinceId) (d : Dimensions) (graphics : Image) (labels : ℕ → ProvinceId) where
  -- The project and the pixels of the outlines; a pixel of no province is left out.
  unfoldable pub outline_pixel : Point2d → Project × Image → Loop (Project × Image) Unit
  outline_pixel q (p, outlines) =
      let label = labels (xy_to_index d.w q.x q.y) in
      elim (get_province_for_id label p) [
        | none ↦ more (p, outlines)
        | some prov ↦
            let r = calculate_adjacency o d graphics labels prov.adjacent_provinces q in
            more (
              record p {
                provinces =
                    Dict.update label (λ v. record v { adjacent_provinces = r.1 }) p.provinces;
              },
              if r.0 then draw_outline d q outlines else outlines,
            )
      ]

  -- The loop never returns.
  unfoldable pub build_province_outlines : Project × Image → Loop (Project × Image) Unit
  build_province_outlines s = for_columns outline_pixel d s
