-- ===== src/Text/Space.antt =====
-- `strings.TrimSpace` and `strings.Fields`: white space goes by runes, so each byte is first
-- labelled with whether the rune that it belongs to is white space.
use mathlib.Core.List.{reverse}
use void_init.Base.{ℕ, zero, suc, ◌-◌, Bool, true, false, List, [], ◌∷◌, ◌++◌, map, Bytes}
use void_init.Text.Runes.{decode_rune, is_space}

-- The bytes with their labels, behind `skip` bytes that belong to a rune with the label `space`.
labelled : ℕ → Bool → Bytes → List (ℕ × Bool)
unfolding decode_rune is_space
labelled skip space [] = []
labelled (suc skip) space (b ∷ s) = (b, space) ∷ labelled skip space s
labelled zero space (b ∷ s) =
    let (rune, width) = decode_rune b s in
    (b, is_space rune) ∷ labelled (width - 1) (is_space rune) s

drop_spaces : List (ℕ × Bool) → List (ℕ × Bool)
drop_spaces [] = []
drop_spaces ((b, true) ∷ s) = drop_spaces s
drop_spaces ((b, false) ∷ s) = (b, false) ∷ s

unfoldable pub trim_space : Bytes → Bytes
unfolding labelled drop_spaces
trim_space s = map (λ l. l.0) (reverse (drop_spaces (reverse (drop_spaces (labelled 0 false s)))))

-- A field is kept if it holds a byte.
emit : Bytes → List Bytes → List Bytes
emit [] fields = fields
emit (b ∷ field) fields = (b ∷ field) ∷ fields

-- The fields of the rest of the text, the first of which begins with `field`.
fields_from : Bytes → List (ℕ × Bool) → List Bytes
unfolding emit
fields_from field [] = emit field []
fields_from field ((b, true) ∷ s) = emit field (fields_from [] s)
fields_from field ((b, false) ∷ s) = fields_from (field ++ b ∷ []) s

unfoldable pub fields : Bytes → List Bytes
unfolding labelled fields_from
fields s = fields_from [] (labelled 0 false s)
