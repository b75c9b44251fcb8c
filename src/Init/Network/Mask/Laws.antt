-- ===== src/Init/Network/Mask/Laws.antt =====
-- The prefix length of a netmask and the netmask of a prefix length are each other's inverse.
use void_init.Base.{
  ℕ, zero, suc, ◌+◌, ◌*◌, ◌-◌, ◌^◌, ◌<◌, ◌≤◌, ◌≡◌, ◌≢◌, ◌↔◌, ◌⊎◌, inl, inr, refl, ap, sym, ◌∙◌,
  Bool, true, false, ◌&&◌, ◌||◌, Option, none, some, [], ◌∷◌, Bytes, ◌==◌, ltb, equal, equal_iff,
  arith, Option-cases, Bool-cases,
}
use void_init.Init.Network.Mask.{simple_mask_length, leading_ones, all_zero, last_ones}

-- A byte with `k` ones at its start, or 0xff where `k` is larger.
abbrev pub byte_mask : ℕ → ℕ
byte_mask k = 256 - 2 ^ (8 - k)

-- The four bytes of the mask with `n` ones.
abbrev pub mask_of : ℕ → Bytes
mask_of n = byte_mask n ∷ byte_mask (n - 8) ∷ byte_mask (n - 16) ∷ byte_mask (n - 24) ∷ []

-- Every number below `n` passes the test.
below : ℕ → (ℕ → Bool) → Bool
below zero p = true
below (suc n) p = p n && below n p

below-elim : (n : ℕ) (p : ℕ → Bool) (k : ℕ) → below n p ≡ true → k < n → p k ≡ true
unfolding below
below-elim zero p k h lt = absurd (omega (arith, lt))
below-elim (suc n) p k h lt = elim (decide_last k n lt) [
  | inl e ↦ rw e (ground arith)
  | inr before ↦ below-elim n p k (ground arith) before
]
  where
    decide_last : (k n : ℕ) → k < suc n → (k ≡ n) ⊎ (k < n)
    decide_last k n lt = grind arith

is_some : Option ℕ → ℕ → Bool
is_some none n = false
is_some (some m) n = m == n

-- What the loop over one byte gives, as a test that runs.
byte_test : ℕ → Bool
byte_test v = elim (leading_ones v) [
  | none ↦ true
  | some k ↦ (v == 0xff || ltb k 8) && v == byte_mask k
]

byte_tests : below 256 byte_test ≡ true
unfolding below byte_test leading_ones
byte_tests = refl

mask_tests : below 33 (λ n. is_some (simple_mask_length 0 (mask_of n)) n) ≡ true
unfolding below is_some simple_mask_length leading_ones
mask_tests = refl

leading_ones-byte :
    (v k : ℕ) → v < 256 → leading_ones v ≡ some k → v ≢ 0xff → (k < 8) × (v ≡ byte_mask k)
unfolding byte_test
leading_ones-byte v k small h ne = ground (arith, below-elim 256 byte_test v byte_tests small)

-- What one byte of a mask is: all ones, or the last ones of the mask.
abbrev Step : ℕ → ℕ → Bytes → ℕ → Type 0
Step m v mask n =
    ((v ≡ 0xff) × (simple_mask_length (m + 8) mask ≡ some n))
    ⊎ ((k : ℕ) × (k < 8) × (v ≡ byte_mask k) × (all_zero mask ≡ true) × (n ≡ m + k))

simple_mask_length-cons :
    (m v : ℕ) (mask : Bytes) (n : ℕ)
    → v < 256
    → simple_mask_length m (v ∷ mask) ≡ some n
    → Step m v mask n
unfolding simple_mask_length last_ones
simple_mask_length-cons m v mask n small h = elim (Bool-cases (v == 0xff)) [
  | inl full ↦ inl (ground arith, ground arith)
  | inr other ↦ elim (Option-cases (leading_ones v)) [
    | inl e ↦ absurd (ground arith)
    | inr (k, e) ↦
        let (few, byte) = leading_ones-byte v k small e (ground arith) in
        inr (k, few, byte, ground arith, ground arith)
  ]
]

-- The mask whose ones end in the byte `i`, behind its first `k` bits.
shaped : ℕ → ℕ → Bytes
shaped zero k = byte_mask k ∷ 0 ∷ 0 ∷ 0 ∷ []
shaped (suc zero) k = 0xff ∷ byte_mask k ∷ 0 ∷ 0 ∷ []
shaped (suc (suc zero)) k = 0xff ∷ 0xff ∷ byte_mask k ∷ 0 ∷ []
shaped (suc (suc (suc i))) k = 0xff ∷ 0xff ∷ 0xff ∷ byte_mask k ∷ []

shaped_tests : below 4 (λ i. below 8 (λ k. equal (shaped i k) (mask_of (8 * i + k)))) ≡ true
unfolding below shaped equal
shaped_tests = refl

shaped-mask_of : (i k : ℕ) → i < 4 → k < 8 → shaped i k ≡ mask_of (8 * i + k)
shaped-mask_of i k hi hk = (equal_iff (shaped i k) (mask_of (8 * i + k))).0 (
    below-elim 8 (λ j. equal (shaped i j) (mask_of (8 * i + j))) k
      (below-elim 4 (λ j. below 8 (λ l. equal (shaped j l) (mask_of (8 * j + l)))) i shaped_tests
        hi)
      hk)

is_some-eq : (r : Option ℕ) (n : ℕ) → is_some r n ≡ true → r ≡ some n
unfolding is_some
is_some-eq none n h = cc
is_some-eq (some m) n h = ground arith

mask_of-length : (n : ℕ) → n ≤ 32 → simple_mask_length 0 (mask_of n) ≡ some n
mask_of-length n h = is_some-eq _ n (
    below-elim 33 (λ k. is_some (simple_mask_length 0 (mask_of k)) k) n mask_tests
      (omega (arith, h)))

abbrev pub IsByte : ℕ → Type 0
IsByte v = v < 256

abbrev pub IsMask : Bytes → ℕ → Type 0
IsMask mask n = (n ≤ 32) × (mask ≡ mask_of n)

shaped-IsMask :
    {mask : Bytes} {n : ℕ} (i k : ℕ)
    → i < 4
    → k < 8
    → mask ≡ shaped i k
    → n ≡ 8 * i + k
    → IsMask mask n
shaped-IsMask i k hi hk e en =
    (omega (arith, hi, hk, en), e ∙ shaped-mask_of i k hi hk ∙ ap mask_of (sym en))

bytes_eq :
    {a b c d p q r t : ℕ} → a ≡ p → b ≡ q → c ≡ r → d ≡ t → a ∷ b ∷ c ∷ d ∷ [] ≡ p ∷ q ∷ r ∷ t ∷ []
bytes_eq h i j k = cc

full-IsMask :
    {mask : Bytes} {n : ℕ}
    → mask ≡ 0xff ∷ 0xff ∷ 0xff ∷ 0xff ∷ []
    → simple_mask_length 32 [] ≡ some n
    → IsMask mask n
unfolding simple_mask_length
full-IsMask {n} e h =
    let all : n ≡ 32 = ground (arith) in (omega (arith, all), e ∙ ap mask_of (sym all))

-- The ones end in the first byte, the second, the third, the last, or not at all.
length-IsMask :
    (a b c d n : ℕ)
    → IsByte a
    → IsByte b
    → IsByte c
    → IsByte d
    → simple_mask_length 0 (a ∷ b ∷ c ∷ d ∷ []) ≡ some n
    → IsMask (a ∷ b ∷ c ∷ d ∷ []) n
unfolding all_zero shaped
length-IsMask a b c d n ha hb hc hd h = elim (simple_mask_length-cons 0 a (b ∷ c ∷ d ∷ []) n ha h) [
  | inr (k, few, byte, zeros, e) ↦
      shaped-IsMask 0 k (omega arith) few
        (bytes_eq byte (ground arith) (ground arith) (ground arith)) e
  | inl (ea, h1) ↦ elim (simple_mask_length-cons 8 b (c ∷ d ∷ []) n hb h1) [
    | inr (k, few, byte, zeros, e) ↦
        shaped-IsMask 1 k (omega arith) few (bytes_eq ea byte (ground arith) (ground arith)) e
    | inl (eb, h2) ↦ elim (simple_mask_length-cons 16 c (d ∷ []) n hc h2) [
      | inr (k, few, byte, zeros, e) ↦
          shaped-IsMask 2 k (omega arith) few (bytes_eq ea eb byte (ground arith)) e
      | inl (ec, h3) ↦ elim (simple_mask_length-cons 24 d [] n hd h3) [
        | inr (k, few, byte, zeros, e) ↦
            shaped-IsMask 3 k (omega arith) few (bytes_eq ea eb ec byte) e
        | inl (ed, h4) ↦ full-IsMask (bytes_eq ea eb ec ed) h4
      ]
    ]
  ]
]

-- Four bytes have the length `n` as a mask exactly if they are the mask with `n` ones.
pub simple_mask_length_iff :
    (a b c d n : ℕ)
    → IsByte a
    → IsByte b
    → IsByte c
    → IsByte d
    → (simple_mask_length 0 (a ∷ b ∷ c ∷ d ∷ []) ≡ some n) ↔ IsMask (a ∷ b ∷ c ∷ d ∷ []) n
simple_mask_length_iff a b c d n ha hb hc hd = (
  length-IsMask a b c d n ha hb hc hd,
  λ (h : IsMask (a ∷ b ∷ c ∷ d ∷ []) n). ap (simple_mask_length 0) h.1 ∙ mask_of-length n h.0,
)
