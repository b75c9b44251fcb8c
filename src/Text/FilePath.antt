-- ===== src/Text/FilePath.antt =====
-- `filepath.Clean`, `Join`, `Dir` and `Base`, on a Unix host.
use mathlib.Core.List.{foldl, reverse}
use void_init.Base.{
  All, ◌≢◌, ◌≡◌, refl, Bool, true, false, not, ◌&&◌, ◌||◌, List, [], ◌∷◌, ◌++◌, arith, ◌==◌, equal,
  codes, if◌then◌else◌, Bytes,
}
use void_init.Text.Search.{has_prefix}
use void_init.Text.Trim.{is_empty}
use void_init.Text.Parts.{split, join}

-- `..` takes the last element back, stays at the root, and is kept where nothing is to take back.
back : Bool → List Bytes → List Bytes
back true [] = []
back false [] = codes ".." ∷ []
back rooted (last ∷ kept) = if equal last (codes "..") then codes ".." ∷ last ∷ kept else kept

-- One element of a path, read behind those that are kept, the last of them first.
visit : Bool → List Bytes → Bytes → List Bytes
visit rooted kept element =
    if is_empty element || equal element (codes ".")
    then kept
    else if equal element (codes "..")
    then back rooted kept
    else element ∷ kept

unfoldable pub clean : Bytes → Bytes
unfolding visit back split join has_prefix codes equal
clean path =
    let rooted = has_prefix path (codes "/") in
    let kept = reverse (foldl (visit rooted) [] (split path b'/')) in
    if rooted
    then b'/' ∷ join kept (codes "/")
    else if is_empty kept
    then codes "."
    else join kept (codes "/")

-- The elements that are empty are left out.
non_empty : List Bytes → List Bytes
non_empty [] = []
non_empty (e ∷ es) = let rest = non_empty es in if is_empty e then rest else e ∷ rest

unfoldable pub join_path : List Bytes → Bytes
unfolding non_empty clean join codes equal
join_path elements =
    let named = non_empty elements in if is_empty named then [] else clean (join named (codes "/"))

-- The path up to its last slash, which it keeps.
unfoldable pub dir_part : Bytes → Bytes
dir_part [] = []
dir_part (c ∷ s) =
    let rest = dir_part s in if is_empty rest && not (c == b'/') then [] else c ∷ rest

unfoldable pub dir : Bytes → Bytes
unfolding dir_part
dir path = clean (dir_part path)

-- What stands behind the last slash.
after_slash : Bytes → Bytes → Bytes
after_slash name [] = name
after_slash name (c ∷ s) = after_slash (if c == b'/' then s else name) s

-- `Base` of a path that does not end in a slash.
unfoldable pub base : Bytes → Bytes
unfolding after_slash
base path = after_slash path path

-- Names with the same directory part are siblings.
pub dir_part-append : (p x : Bytes) → dir_part x ≡ [] → dir_part (p ++ x) ≡ dir_part p
unfolding dir_part
dir_part-append [] x h = h
dir_part-append (c ∷ p) x h = ground (arith, dir_part-append p x h)

join_path_example :
    join_path (codes "/mnt//r/" ∷ codes "var" ∷ codes "../x" ∷ []) ≡ codes "/mnt/r/x"
unfolding join_path
join_path_example = refl

-- A name with no slash has no directory part.
pub dir_part-All : (x : Bytes) → All (λ c. c ≢ b'/') x → dir_part x ≡ []
unfolding dir_part
dir_part-All [] h = refl
dir_part-All (c ∷ x) (ne, h) = ground (arith, dir_part-All x h)
