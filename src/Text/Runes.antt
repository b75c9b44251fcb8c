-- ===== src/Text/Runes.antt =====
-- The runes of a string, as Go's `range` reads them: UTF-8, with the replacement rune for each byte
-- that is part of no encoding; and the tests of `unicode` that the programs make on them.
pub mod Ascii
use void_init.Base.{
  ℕ, zero, suc, ◌+◌, ◌-◌, ◌*◌, Bool, ◌&&◌, ◌||◌, List, [], ◌∷◌, ◌==◌, ltb, leb, any, if◌then◌else◌,
  Bytes,
}

abbrev pub within : ℕ → ℕ → ℕ → Bool
within lo hi c = leb lo c && leb c hi

-- A byte that continues an encoding.
abbrev is_continuation : ℕ → Bool
is_continuation = within 0x80 0xBF

abbrev invalid : ℕ × ℕ
invalid = (0xFFFD, 1)

-- The second byte that may follow the first byte `a` of three or four.
second_ok : ℕ → ℕ → Bool
second_ok a b =
    if a == 0xE0
    then within 0xA0 0xBF b
    else if a == 0xED
    then within 0x80 0x9F b
    else if a == 0xF0
    then within 0x90 0xBF b
    else if a == 0xF4
    then within 0x80 0x8F b
    else is_continuation b

decode_two : ℕ → Bytes → ℕ × ℕ
decode_two a [] = invalid
decode_two a (b ∷ _) = if is_continuation b then ((a - 0xC0) * 0x40 + (b - 0x80), 2) else invalid

decode_three : ℕ → Bytes → ℕ × ℕ
decode_three a [] = invalid
decode_three a (b ∷ []) = invalid
decode_three a (b ∷ c ∷ _) =
    if second_ok a b && is_continuation c
    then ((a - 0xE0) * 0x1000 + (b - 0x80) * 0x40 + (c - 0x80), 3)
    else invalid

decode_four : ℕ → Bytes → ℕ × ℕ
decode_four a [] = invalid
decode_four a (b ∷ []) = invalid
decode_four a (b ∷ c ∷ []) = invalid
decode_four a (b ∷ c ∷ d ∷ _) =
    if second_ok a b && is_continuation c && is_continuation d
    then ((a - 0xF0) * 0x40000 + (b - 0x80) * 0x1000 + (c - 0x80) * 0x40 + (d - 0x80), 4)
    else invalid

-- `utf8.DecodeRune` of the text `a ∷ s`: the rune and its width.
unfoldable pub decode_rune : ℕ → Bytes → ℕ × ℕ
unfolding decode_two decode_three decode_four second_ok
decode_rune a s =
    if ltb a 0x80
    then (a, 1)
    else if within 0xC2 0xDF a
    then decode_two a s
    else if within 0xE0 0xEF a
    then decode_three a s
    else if within 0xF0 0xF4 a
    then decode_four a s
    else invalid

-- The runes behind `skip` bytes that belong to the last one.
runes_from : ℕ → Bytes → List ℕ
unfolding decode_rune
runes_from skip [] = []
runes_from (suc skip) (b ∷ s) = runes_from skip s
runes_from zero (b ∷ s) = let (rune, width) = decode_rune b s in rune ∷ runes_from (width - 1) s

-- `strings.ContainsFunc`
unfoldable pub contains_func : Bytes → (ℕ → Bool) → Bool
unfolding runes_from
contains_func s p = any p (runes_from 0 s)

-- `unicode.IsSpace`
unfoldable pub is_space : ℕ → Bool
is_space r =
    within 0x9 0xD r
    || r == 0x20
    || r == 0x85
    || r == 0xA0
    || r == 0x1680
    || within 0x2000 0x200A r
    || r == 0x2028
    || r == 0x2029
    || r == 0x202F
    || r == 0x205F
    || r == 0x3000

-- `unicode.IsControl`
unfoldable pub is_control : ℕ → Bool
is_control r = leb r 0x1F || within 0x7F 0x9F r
