-- ===== src/Continents.antt =====
-- mod_dev_tool/project/src/ContinentProject.cpp and the IContinentProject part of IProject.cpp: the
-- set of continent names, and its file of one name to a line.
pub mod File
mod Tests
use ho_i4_mod_development_to.Base.{ℕ, Bool, true, false, List, [], ◌∷◌, ◌++◌, if◌then◌else◌, ◌==◌}
use ho_i4_mod_development_to.Base.Ord.{Text, text_ord}
use ho_i4_mod_development_to.Base.OrdSet
use ho_i4_mod_development_to.Status.{Status, success, no_such_file_or_directory, system_error}

-- `std::set<std::string>`
abbrev pub ContinentSet : Type 0
ContinentSet = List Text

unfoldable pub add_new_continent : Text → ContinentSet → ContinentSet
add_new_continent name s = OrdSet.insert name s

unfoldable pub remove_continent : Text → ContinentSet → ContinentSet
remove_continent name s = OrdSet.erase name s

unfoldable pub does_continent_exist : Text → ContinentSet → Bool
does_continent_exist name s = OrdSet.contains name s

-- What the file system answers for a path: no such file, an error in asking or in opening, or the
-- bytes of the file.
pub data Disk : Type 0 where
  missing : Disk
  unknown unreadable : ℕ → Disk
  content : Text → Disk

-- Each name and a line break.
unfoldable pub save : ContinentSet → Text
save [] = []
save (name ∷ rest) = name ++ 10 ∷ save rest

abbrev pub push : ℕ → List Text → List Text
push c [] = (c ∷ []) ∷ []
push c (line ∷ rest) = (c ∷ line) ∷ rest

-- The lines that a loop of std::getline reads: no empty line after the last line break.
unfoldable pub lines : Text → List Text
lines [] = []
lines (c ∷ text) = let rest = lines text in if c == 10 then [] ∷ rest else push c rest

-- `if(line.empty()) continue; m_continents.insert(line);`
unfoldable pub load_lines : ContinentSet → List Text → ContinentSet
load_lines s [] = s
load_lines s ([] ∷ rest) = load_lines s rest
load_lines s ((c ∷ line) ∷ rest) = load_lines (OrdSet.insert (c ∷ line) s) rest

-- The names are added to those that are there.
unfoldable pub load : Disk → ContinentSet → Status × ContinentSet
load missing s = (no_such_file_or_directory, s)
load (unknown e) s = (system_error e, s)
load (unreadable e) s = (system_error e, s)
load (content text) s = (success, load_lines s (lines text))
