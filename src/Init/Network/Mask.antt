-- ===== src/Init/Network/Mask.antt =====
-- `net.IPMask.Size`, on which `netmaskToCIDR` of cmd/void-init/network.go stands.
pub mod Laws
use void_init.Base.{
  ℕ, zero, suc, ◌+◌, ◌*◌, ◌%◌, Bool, true, ◌&&◌, Option, none, some, [], ◌∷◌, Bytes, ◌==◌, leb,
  if◌then◌else◌,
}

all_zero : Bytes → Bool
all_zero [] = true
all_zero (v ∷ mask) = v == 0 && all_zero mask

-- `for v&0x80 != 0 { n++; v <<= 1 }` on a byte, `fuel` rounds of it at most: the rounds and what is
-- left of the byte. Eight rounds shift every bit out.
shift_ones : ℕ → ℕ → ℕ × ℕ
shift_ones zero v = (0, v)
shift_ones (suc fuel) v =
    let (n, left) = shift_ones fuel (v * 2 % 256) in if leb 0x80 v then (suc n, left) else (0, v)

-- The ones that the byte starts with, if only zeros follow.
unfoldable pub leading_ones : ℕ → Option ℕ
unfolding shift_ones
leading_ones v = let (n, left) = shift_ones 8 v in if left == 0 then some n else none

-- A byte that is not 0xff ends the ones.
last_ones : ℕ → Option ℕ → Bytes → Option ℕ
last_ones n none mask = none
last_ones n (some k) mask = if all_zero mask then some (n + k) else none

-- `simpleMaskLength`, behind `n` ones; `none` is -1.
unfoldable pub simple_mask_length : ℕ → Bytes → Option ℕ
unfolding last_ones all_zero leading_ones
simple_mask_length n [] = some n
simple_mask_length n (v ∷ mask) =
    let rest = simple_mask_length (n + 8) mask in
    if v == 0xff then rest else last_ones n (leading_ones v) mask
