-- ===== src/Continents/Tests.antt =====
-- The continents file at two names.
use ho_i4_mod_development_to.Base.{◌≡◌, refl, [], ◌∷◌, arith}
use ho_i4_mod_development_to.Base.Ord.{text_ord}
use ho_i4_mod_development_to.Status.{success}
use ho_i4_mod_development_to.Continents.{ContinentSet, content, save, load}
use ho_i4_mod_development_to.Continents.File.{load-save}

abbrev two_names : ContinentSet
two_names = (b'a' ∷ b's' ∷ []) ∷ (b'e' ∷ []) ∷ []

save_two : save two_names ≡ b'a' ∷ b's' ∷ 10 ∷ b'e' ∷ 10 ∷ []
unfolding save
save_two = refl

load-save_example : load (content (save two_names)) [] ≡ (success, two_names)
load-save_example = load-save two_names ((refl, tt), (tt, tt)) (ground arith)
