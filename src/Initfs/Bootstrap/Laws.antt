-- ===== src/Initfs/Bootstrap/Laws.antt =====
-- The user's packages.
use void_init.Base.{◌≡◌, ◌≢◌, refl, List, [], ◌∷◌, All, Bytes}
use void_init.Text.Parts.{Lacks, join, split-join}
use void_init.Initfs.Bootstrap.{user_package_list}

-- Names without commas, joined with commas, are read back as they were, no names at all included; the
-- list of one empty name is excepted.
pub user_package_list-join :
    (names : List Bytes)
    → All (Lacks b',') names
    → names ≢ [] ∷ []
    → user_package_list (join names (b',' ∷ [])) ≡ names
unfolding user_package_list join
user_package_list-join [] h ne = refl
user_package_list-join ([] ∷ []) h ne = absurd (ne refl)
user_package_list-join ((c ∷ name) ∷ []) h ne = split-join ((c ∷ name) ∷ []) b',' (cc) h
user_package_list-join ([] ∷ more ∷ names) h ne = split-join ([] ∷ more ∷ names) b',' (cc) h
user_package_list-join ((c ∷ name) ∷ more ∷ names) h ne =
    split-join ((c ∷ name) ∷ more ∷ names) b',' (cc) h
