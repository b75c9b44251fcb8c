-- ===== src/Text/Trim.antt =====
-- `strings.TrimRight(s, "\n\t ")`: the cutset is ASCII, so it is trimmed byte by byte.
use void_init.Base.{
  ℕ, ◌≡◌, refl, Bool, true, false, ◌&&◌, ◌||◌, List, [], ◌∷◌, ◌++◌, arith, ◌==◌, if◌then◌else◌,
  Bytes,
}

abbrev pub is_empty {ℓ} : {A : Type ℓ} → List A → Bool
is_empty [] = true
is_empty (_ ∷ _) = false

unfoldable pub in_cutset : ℕ → Bool
in_cutset c = c == b'\n' || c == b'\t' || c == b' '

unfoldable pub trim_right : Bytes → Bytes
unfolding in_cutset
trim_right [] = []
trim_right (c ∷ s) =
    let rest = trim_right s in if is_empty rest && in_cutset c then [] else c ∷ rest

-- A text that has nothing to trim keeps what follows it apart.
pub trim_right-append : (a x : Bytes) → trim_right a ≡ a → trim_right (a ++ x) ≡ a ++ trim_right x
unfolding trim_right
trim_right-append [] x h = refl
trim_right-append (c ∷ a) x h = ground (arith, trim_right-append a x)

pub trim_right_idem : (s : Bytes) → trim_right (trim_right s) ≡ trim_right s
unfolding trim_right
trim_right_idem [] = refl
trim_right_idem (c ∷ s) = ground (arith, trim_right_idem s)

pub trim_right-concat :
    (s : Bytes) (c : ℕ) → in_cutset c ≡ true → trim_right (s ++ c ∷ []) ≡ trim_right s
unfolding trim_right
trim_right-concat [] c h = ground arith
trim_right-concat (d ∷ s) c h = ground (arith, trim_right-concat s c h)

is_empty-append : (p m : Bytes) → is_empty m ≡ false → is_empty (p ++ m) ≡ false
is_empty-append [] m h = h
is_empty-append (c ∷ p) m h = refl

-- What ends in a text with nothing to trim has nothing to trim.
pub trim_right-behind :
    (p m : Bytes) → is_empty m ≡ false → trim_right m ≡ m → trim_right (p ++ m) ≡ p ++ m
unfolding trim_right
trim_right-behind [] m ne h = h
trim_right-behind (c ∷ p) m ne h = ground (arith, trim_right-behind p m ne h, is_empty-append p m)
