-- ===== src/Text/Atoi.antt =====
-- `strconv.Atoi` into Go's 64-bit `int`, and `%d` of its result. `%q` is the parameter `quote`.
use void_init.Base.{
  ℕ, zero, suc, ◌+◌, ◌-◌, ◌*◌, ◌^◌, Bool, true, false, ◌&&◌, Option, none, some, [], ◌∷◌, ◌++◌,
  ◌==◌, ltb, leb, if◌then◌else◌, Bytes, codes, Error, other, Result, ok, err,
}
use void_init.Text.Decimal.{decimal}

-- `negsuc n` is -(n + 1).
pub data ℤ : Type 0 where
  pos : ℕ → ℤ
  negsuc : ℕ → ℤ

-- The number that the digits spell, behind `n`; `none` at another byte.
digits_value : ℕ → Bytes → Option ℕ
digits_value n [] = some n
digits_value n (c ∷ s) =
    let rest = digits_value (n * 10 + (c - b'0')) s in
    if leb b'0' c && leb c b'9' then rest else none

-- A number and its sign: `int64` ends one earlier above zero than below.
signed : (syntax range : Error) → Bool → Option ℕ → Result ℤ
signed syntax range negative none = err syntax
signed syntax range false (some n) = if ltb n (2 ^ 63) then ok (pos n) else err range
signed syntax range true (some zero) = ok (pos 0)
signed syntax range true (some (suc n)) = if ltb n (2 ^ 63) then ok (negsuc n) else err range

-- A text of digits holds one at least.
magnitude : Bytes → Option ℕ
magnitude [] = none
magnitude (c ∷ s) = digits_value 0 (c ∷ s)

-- `strconv.ParseUint` in base 10 for 64 bits; `none` is its error.
unfoldable pub parse_uint : Bytes → Option ℕ
unfolding magnitude digits_value
parse_uint s = elim (magnitude s) [ none ↦ none | some n ↦ if ltb n (2 ^ 64) then some n else none ]

module _ (quote : Bytes → Bytes) where
  failure : Bytes → Bytes → Error
  failure s why = other (codes "strconv.Atoi: parsing " ++ quote s ++ codes ": " ++ why)

  unfoldable pub atoi : Bytes → Result ℤ
  unfolding digits_value signed magnitude failure
  atoi s =
      let read =
        signed (failure s (codes "invalid syntax")) (failure s (codes "value out of range")) in
      (elim s [
        | [] ↦ read false none
        | c ∷ t ↦
            if c == b'-'
            then read true (magnitude t)
            else if c == b'+'
            then read false (magnitude t)
            else read false (magnitude (c ∷ t))
      ])

unfoldable pub decimal_ℤ : ℤ → Bytes
decimal_ℤ (pos n) = decimal n
decimal_ℤ (negsuc n) = b'-' ∷ decimal (suc n)
