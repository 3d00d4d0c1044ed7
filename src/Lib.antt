-- ===== src/Lib.antt =====
-- Verification library of the HoI4 mod development tool, a desktop program that edits the provinces,
-- the states and the continents of a Hearts of Iron IV mod.
--
-- The parts and how they interact. A project holds provinces, each of which names a state, a continent
-- and a parent, and states, each of which lists provinces; MapProject and StateProject change both
-- sides. A project is imported from an image: the shape finder parts it into shapes, each of which becomes
-- a province, and the colours of the provinces are written out as an image again. The graphical
-- interface selects provinces and states (SelectionManager), where its callback adds the provinces that
-- are merged with one, and changes the project through actions, which ActionManager does, undoes and
-- redoes. New states take their colour from a generator that runs through arrays the build makes.
--
-- The files, each with the code it is about (paths are below mod_dev_tool):
--   Base          Boolean tests on the native numbers, lists, ordered sets (std::set) and dictionaries
--                 (std::map, std::unordered_map), with their lemmas
--   Status        common/inc/StatusCodesDef.h and the results of fallible functions
--   Actions       actions/inc/IAction.h, actions/src/ActionManager.cpp: `do_action`, `undo_action`,
--                 `redo_action` and the listeners; Sessions and Rewind are about series of calls,
--                 SetProperty about actions/inc/SetPropertyAction.h, CreateRemove about
--                 actions/src/CreateRemoveContinentAction.cpp
--   Continents    the set of project/src/IProject.cpp, and `save` and `load` of
--                 project/src/ContinentProject.cpp
--   Colors        common/src/UniqueColorGenerator.cpp and the conversions of common/src/Util.cpp
--   Project       the records of common/inc/Types.h and the lookups of project/src/IProject.cpp
--   Project/States   project/src/StateProject.cpp: `add_new_state`, `remove_state` and the ids
--   Project/Map      project/src/MapProject.cpp: `move_province_to_state`, `validate_data`,
--                 `calculate_coastal_provinces`; below it the invariants of provinces and states
--   Project/Merging  project/src/IProject.cpp: `merge_provinces`, `unmerge_province`; Search is
--                 `get_merged_provinces`, which Ends and Class show to find the provinces of one root
--   Project/Graphics  project/src/ProvinceProject.cpp: `build_graphics_data` and
--                 `get_province_colors_for_export`; Cells is about the loops over the bytes of an image
--   Project/Importing common/src/Util.cpp: `create_provinces_from_shape_list`
--   Project/MapBuilder  province_utils/src/ProvinceMapBuilder.cpp: what the bits of a colour say of a
--                 province, and `create_province_list`
--   Project/Outlines  project/src/ProvinceProject.cpp: `build_province_outlines`; Meeting is about one
--                 pixel, Steps about the pixels so far, Adjacent about the whole map
--   Selection     gui/src/SelectionManager.cpp; Window has the callbacks of gui/src/MainWindow.cpp, Steps
--                 and Reading are about any callbacks that keep a selection of the project, Joined and
--                 Registered about those of the main window
--   Version       common/src/Version.cpp
--   Hierarchy     project/hierarchy/src/GroupNode.cpp: the children of a group
--   Shapes        province_utils/src/ShapeFinder2.cpp: `get_adjacent_pixel`, `calculate_adjacency`, with
--                 the index arithmetic of common/src/Util.cpp; Loops has the loops over the pixels
--   Shapes/Finder    province_utils/src/ShapeFinder2.cpp: the state of ShapeFinder and `pass1`; below it
--                 Second is `pass2` and buildShape, Borders `mergeBorders`, Finalize `finalize`, Run
--                 `findAllShapes`. Roots, Trees and Linking are about the links between labels, Labels,
--                 Using and First about the first pass, Fibres, Adding, Building and Sorting about the
--                 second, Merging and Merged about the third, and Whole, Correct, Quiet, Searching,
--                 Finishes and Corner about all of them together
--
-- How state is written. The project is one record, and each function that changes it takes it and
-- gives it back; a write through a reference is an update under a key. A province's key is a number
-- that stands for its UUID, whose order is a parameter where a set of ids is kept in order. An
-- exception is `none`, a status code an error value. An action is a pair of functions on a world. A
-- 32-bit id is a number with its wrap-around written out.
--
-- Loops are structural recursion, but two climbs and a search, which are on fuel. A climb from a province to its root
-- in a forest whose chains are shorter than `d` ends with the fuel `d`. The climb from a label to its
-- root has one round more than there are links, which is enough because each link goes to a smaller
-- label. The search for merged provinces has a round for each province, its parent and its children, and
-- two more; each is queued at most that often. The loops over an image may return from their body; another thread may stop the search before
-- any of the tests of m_do_estop, which are counted.
--
-- Parameters: the bytes of an image, the UUIDs that the platform makes, the calls of estop, the arrays of
-- colours (Palette), the order of the UUIDs (Ord), the callbacks and listeners of actions, what the
-- main window does to its panes and its drawing, what a new array holds, what `__builtin_ctz` gives for 0.
--
-- Not modelled: the windows and the drawing, logging, the command line, bitmaps and shared buffers,
-- the file formats of provinces, states and maps, the other nodes of the hierarchy. A label is known by
-- its hash, as `operator==` does; two UUIDs with one hash are one label.
pub mod Base
pub mod Status
pub mod Continents
pub mod Colors
pub mod Project
pub mod Actions
pub mod Selection
pub mod Version
pub mod Shapes
pub mod Hierarchy
