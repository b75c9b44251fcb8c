-- ===== src/Text/Search.antt =====
-- `strings.HasPrefix`, `HasSuffix`, `Index`, `Contains` and `Cut`, on bytes.
pub mod Cut
use mathlib.Core.Option
use mathlib.Core.List.{reverse}
use void_init.Base.{
  ℕ, suc, ◌+◌, ◌≤◌, ◌≡◌, refl, ap, sym, Bool, true, false, ◌&&◌, List, [], ◌∷◌, ◌++◌, Option, none,
  some, arith, ◌==◌, if◌then◌else◌, Bool-cases, Bytes, length, take, drop, inl, inr, append_assoc,
  length-append, ◌∙◌, subst, Option-cases,
}

unfoldable pub has_prefix : Bytes → Bytes → Bool
has_prefix s [] = true
has_prefix [] (_ ∷ _) = false
has_prefix (c ∷ s) (b ∷ sub) = c == b && has_prefix s sub

unfoldable pub has_suffix : Bytes → Bytes → Bool
unfolding has_prefix
has_suffix s sub = has_prefix (reverse s) (reverse sub)

-- `strings.Index`, with `none` for -1.
unfoldable pub index : Bytes → Bytes → Option ℕ
unfolding has_prefix
index [] sub = if has_prefix [] sub then some 0 else none
index (c ∷ s) sub = if has_prefix (c ∷ s) sub then some 0 else Option.map suc (index s sub)

-- `strings.Cut`: the text before and behind the first `sep`, or `none` if there is none.
unfoldable pub cut : Bytes → Bytes → Option (Bytes × Bytes)
unfolding index
cut s sep = Option.map (λ i. (take i s, drop (i + length sep) s)) (index s sep)

has_prefix-append : (m x : Bytes) → has_prefix (m ++ x) m ≡ true
unfolding has_prefix
has_prefix-append [] x = refl
has_prefix-append (b ∷ m) x = ground (arith, has_prefix-append m x)

-- A text with the prefix `m` is `m` and a rest.
pub has_prefix-drop : (s m : Bytes) → has_prefix s m ≡ true → s ≡ m ++ drop (length m) s
unfolding has_prefix
has_prefix-drop s [] h = refl
has_prefix-drop [] (b ∷ m) h = ground arith
has_prefix-drop (c ∷ s) (b ∷ m) h = ground (arith, has_prefix-drop s m)

-- Whether `m` is a prefix depends on the first `length m` bytes only.
has_prefix_local :
    (m p x y : Bytes) → length m ≤ length p → has_prefix (p ++ x) m ≡ has_prefix (p ++ y) m
unfolding has_prefix
has_prefix_local [] p x y h = refl
has_prefix_local (b ∷ m) [] x y h = absurd (omega arith)
has_prefix_local (b ∷ m) (c ∷ p) x y h = ground (arith, has_prefix_local m p x y)

-- What `index s m ≡ some i` says: `m` stands behind `before`, of `i` bytes, and wherever `before`
-- and `m` are followed by another rest, the first `m` stands there still.
pub record Found (s m : Bytes) (i : ℕ) : Type 0 where
  pub before : Bytes
  pub rest : Bytes
  pub splits : s ≡ before ++ (m ++ rest)
  pub at : length before ≡ i
  pub first : (x : Bytes) → index (before ++ (m ++ x)) m ≡ some i

index_of_prefix : (s m : Bytes) → has_prefix s m ≡ true → index s m ≡ some 0
unfolding index
index_of_prefix [] m h = rw h
index_of_prefix (c ∷ s) m h = rw h

Found-here : (s m : Bytes) → has_prefix s m ≡ true → Found s m 0
Found-here s m h = record {
  before = [];
  rest = drop (length m) s;
  splits = has_prefix-drop s m h;
  at = refl;
  first = λ x. index_of_prefix (m ++ x) m (has_prefix-append m x);
}

module _ (c : ℕ) {s m : Bytes} {i : ℕ} (no : has_prefix (c ∷ s) m ≡ false) (f : Found s m i) where
  has_prefix-eq-false : (x : Bytes) → has_prefix (c ∷ (f.before ++ (m ++ x))) m ≡ false
  has_prefix-eq-false x =
      let p = c ∷ (f.before ++ m) in
      let fits : length m ≤ length p = omega (arith, length-append f.before m) in
      let local = has_prefix_local m p x f.rest fits in
      ap (λ t. has_prefix (c ∷ t) m) (sym (append_assoc f.before m x))
      ∙ local
      ∙ ap (λ t. has_prefix (c ∷ t) m) (append_assoc f.before m f.rest ∙ sym f.splits)
      ∙ no

  Found-later : Found (c ∷ s) m (suc i)
  unfolding index
  Found-later = record {
    before = c ∷ f.before;
    rest = f.rest;
    splits = ap (◌∷◌ c) f.splits;
    at = ap suc f.at;
    first = λ x. rw (has_prefix-eq-false x, f.first x);
  }

-- A successful search, taken apart.
pub index-Found : (s m : Bytes) {i : ℕ} → index s m ≡ some i → Found s m i
unfolding index
index-Found [] m {i} h = elim (Bool-cases (has_prefix [] m)) [
  | inl here ↦ subst (Found [] m) (ground arith) (Found-here [] m here)
  | inr missing ↦ ground arith
]
index-Found (c ∷ s) m {i} h = elim (Bool-cases (has_prefix (c ∷ s) m)) [
  | inl here ↦ subst (Found (c ∷ s) m) (ground arith) (Found-here (c ∷ s) m here)
  | inr later ↦ elim (Option-cases (index s m)) [
    | inl missing ↦ absurd (ground arith)
    | inr (j, e) ↦ subst (Found (c ∷ s) m) (ground arith) (Found-later c later (index-Found s m e))
  ]
]

module _ {ℓ} {A : Type ℓ} where
  take_all : (p q : List A) → take (length p) (p ++ q) ≡ p
  take_all [] q = refl
  take_all (x ∷ p) q = ap (◌∷◌ x) (take_all p q)

  drop_all : (p q : List A) → drop (length p) (p ++ q) ≡ q
  drop_all [] q = refl
  drop_all (x ∷ p) q = drop_all p q

-- The two slices that the programs take at a match.
module _ {s m : Bytes} {i : ℕ} (f : Found s m i) (x : Bytes) where
  width : i + length m ≡ length (f.before ++ m)
  width = omega (arith, length-append f.before m, f.at)

  pub take-Found : take (i + length m) (f.before ++ (m ++ x)) ≡ f.before ++ m
  take-Found = rw (width, ← append_assoc) (take_all (f.before ++ m) x)

  pub drop-Found : drop (i + length m) (f.before ++ (m ++ x)) ≡ x
  drop-Found = rw (width, ← append_assoc) (drop_all (f.before ++ m) x)
