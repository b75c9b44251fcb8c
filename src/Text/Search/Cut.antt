-- ===== src/Text/Search/Cut.antt =====
-- `strings.Cut` at one byte.
use native.Mathlib.Numerals.{add-one}
use void_init.Base.{ℕ, suc, ◌≡◌, refl, ap, some, [], ◌∷◌, ◌++◌, Bytes, length, take, drop, arith}
use void_init.Text.Parts.{Lacks}
use void_init.Text.Search.{index, cut}

index-Lacks :
    (s rest : Bytes) (b : ℕ) → Lacks b s → index (s ++ b ∷ rest) (b ∷ []) ≡ some (length s)
unfolding index
index-Lacks [] rest b h = ground arith
index-Lacks (c ∷ s) rest b (ne, h) = ground (arith, index-Lacks s rest b h)

take-drop_behind :
    (s : Bytes) (b : ℕ) (rest : Bytes)
    → (take (length s) (s ++ b ∷ rest) ≡ s) × (drop (suc (length s)) (s ++ b ∷ rest) ≡ rest)
take-drop_behind [] b rest = (refl, refl)
take-drop_behind (c ∷ s) b rest =
    let (before, after) = take-drop_behind s b rest in (ap (◌∷◌ c) before, after)

-- A text that lacks the byte is all that stands before it.
pub cut-Lacks : (s rest : Bytes) (b : ℕ) → Lacks b s → cut (s ++ b ∷ rest) (b ∷ []) ≡ some (s, rest)
unfolding cut
cut-Lacks s rest b h =
    let (before, after) = take-drop_behind s b rest in
    rw (index-Lacks s rest b h, add-one) (λ i. some (before i, after i))
