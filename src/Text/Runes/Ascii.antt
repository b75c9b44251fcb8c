-- ===== src/Text/Runes/Ascii.antt =====
-- An ASCII byte is always a rune of its own: no decoding hides it.
use void_init.Base.{
  ℕ, zero, suc, ◌-◌, ◌≤◌, ◌<◌, ◌≡◌, ap, sym, ◌∙◌, Bool, true, false, [], ◌∷◌, any, All, arith,
  Bytes,
}
use void_init.Text.Runes.{
  second_ok, decode_two, decode_three, decode_four, decode_rune, runes_from, contains_func,
}

-- The first `k` bytes are not ASCII.
abbrev High : ℕ → Bytes → Type 0
High zero s = Unit
High (suc k) [] = Unit
High (suc k) (c ∷ s) = (0x80 ≤ c) × High k s

decode_two-High : (a : ℕ) (s : Bytes) → High ((decode_two a s).1 - 1) s
unfolding decode_two
decode_two-High a [] = tt
decode_two-High a (b ∷ s) = ground arith

second_ok-High : (a b : ℕ) → second_ok a b ≡ true → 0x80 ≤ b
unfolding second_ok
second_ok-High a b h = ground arith

decode_three-High : (a : ℕ) (s : Bytes) → High ((decode_three a s).1 - 1) s
unfolding decode_three
decode_three-High a [] = tt
decode_three-High a (b ∷ []) = tt
decode_three-High a (b ∷ c ∷ s) = ground (arith, second_ok-High a b)

decode_four-High : (a : ℕ) (s : Bytes) → High ((decode_four a s).1 - 1) s
unfolding decode_four
decode_four-High a [] = tt
decode_four-High a (b ∷ []) = tt
decode_four-High a (b ∷ c ∷ []) = tt
decode_four-High a (b ∷ c ∷ d ∷ s) = ground (arith, second_ok-High a b)

decode_rune-High : (a : ℕ) (s : Bytes) → High ((decode_rune a s).1 - 1) s
unfolding decode_rune
decode_rune-High a s =
    ground (arith, decode_two-High a s, decode_three-High a s, decode_four-High a s)

decode_rune-ascii : (a : ℕ) (s : Bytes) → a < 0x80 → (decode_rune a s).0 ≡ a
unfolding decode_rune
decode_rune-ascii a s h = ground arith

-- No ASCII byte of the text satisfies `p`.
abbrev pub NoAscii : (ℕ → Bool) → Bytes → Type 0
NoAscii p = All (λ b. b < 0x80 → p b ≡ false)

runes_from-NoAscii :
    (p : ℕ → Bool) (skip : ℕ) (s : Bytes)
    → High skip s
    → any p (runes_from skip s) ≡ false
    → NoAscii p s
unfolding runes_from
runes_from-NoAscii p skip [] high h = tt
runes_from-NoAscii p (suc skip) (b ∷ s) (big, high) h =
    ((λ small. absurd (omega arith)), runes_from-NoAscii p skip s high h)
runes_from-NoAscii p zero (b ∷ s) high h = (
  (λ small. ap p (sym (decode_rune-ascii b s small)) ∙ ground arith),
  runes_from-NoAscii p ((decode_rune b s).1 - 1) s (decode_rune-High b s) (ground arith),
)

-- Where no rune of a text satisfies `p`, no ASCII byte of it does.
pub contains_func-NoAscii : (s : Bytes) (p : ℕ → Bool) → contains_func s p ≡ false → NoAscii p s
unfolding contains_func
contains_func-NoAscii s p h = runes_from-NoAscii p 0 s tt h
