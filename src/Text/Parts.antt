-- ===== src/Text/Parts.antt =====
-- `strings.Split` at one byte, and `strings.Join`.
use void_init.Base.{
  codes, any, Bool-cases, inl, inr, false, ℕ, ◌≡◌, ◌≢◌, refl, ap, ◌∙◌, List, [], ◌∷◌, ◌++◌,
  append_assoc, arith, ◌==◌, Bytes, All, if◌then◌else◌,
}

-- Puts a byte in front of the first part.
abbrev onto_first : ℕ → List Bytes → List Bytes
onto_first c [] = (c ∷ []) ∷ []
onto_first c (part ∷ parts) = (c ∷ part) ∷ parts

unfoldable pub split : Bytes → ℕ → List Bytes
split [] sep = [] ∷ []
split (c ∷ s) sep = let rest = split s sep in if c == sep then [] ∷ rest else onto_first c rest

unfoldable pub join : List Bytes → Bytes → Bytes
join [] sep = []
join (part ∷ []) sep = part
join (part ∷ more ∷ parts) sep = part ++ (sep ++ join (more ∷ parts) sep)

-- `%v` of a slice of strings
unfoldable pub shown : List Bytes → Bytes
shown items = codes "[" ++ join items (codes " ") ++ codes "]"

-- No byte of the text is `b`.
abbrev pub Lacks : ℕ → Bytes → Type 0
Lacks b = All (λ c. c ≢ b)

-- A test for that.
pub any-Lacks : (b : ℕ) (s : Bytes) → any (λ c. c == b) s ≡ false → Lacks b s
any-Lacks b [] h = tt
any-Lacks b (c ∷ s) h = (ground arith, any-Lacks b s (ground arith))

join-onto_first :
    (c : ℕ) (parts : List Bytes) (sep : Bytes)
    → parts ≢ []
    → join (onto_first c parts) sep ≡ c ∷ join parts sep
unfolding join
join-onto_first c [] sep ne = absurd (ne refl)
join-onto_first c (part ∷ []) sep ne = refl
join-onto_first c (part ∷ more ∷ parts) sep ne = refl

pub split-ne-nil : (s : Bytes) (sep : ℕ) → split s sep ≢ []
unfolding split
split-ne-nil [] sep = ground arith
split-ne-nil (c ∷ s) sep = ground (arith, split-ne-nil s sep)

join-cons :
    (parts : List Bytes) (sep : Bytes) → parts ≢ [] → join ([] ∷ parts) sep ≡ sep ++ join parts sep
unfolding join
join-cons [] sep ne = absurd (ne refl)
join-cons (part ∷ parts) sep ne = refl

-- Joining what was split gives the text back.
pub join-split : (s : Bytes) (sep : ℕ) → join (split s sep) (sep ∷ []) ≡ s
unfolding split
join-split [] sep = unfold join in refl
join-split (c ∷ s) sep =
    let ne = split-ne-nil s sep in
    let cut_here = join-cons (split s sep) (sep ∷ []) ne in
    let longer = join-onto_first c (split s sep) (sep ∷ []) ne in
    ground (arith, cut_here, longer, join-split s sep)

pub split-Lacks : (s : Bytes) (sep : ℕ) → Lacks sep s → split s sep ≡ s ∷ []
unfolding split
split-Lacks [] sep h = refl
split-Lacks (c ∷ s) sep (ne, h) = ground (arith, split-Lacks s sep h)

pub split_at_sep :
    (s rest : Bytes) (sep : ℕ) → Lacks sep s → split (s ++ sep ∷ rest) sep ≡ s ∷ split rest sep
unfolding split
split_at_sep [] rest sep h = ground arith
split_at_sep (c ∷ s) rest sep (ne, h) = ground (arith, split_at_sep s rest sep h)

onto_first-All :
    (c sep : ℕ) (parts : List Bytes)
    → c ≢ sep
    → All (Lacks sep) parts
    → All (Lacks sep) (onto_first c parts)
onto_first-All c sep [] ne h = ((ne, tt), tt)
onto_first-All c sep (part ∷ parts) ne (h, hs) = ((ne, h), hs)

-- No part holds the separator.
pub split-All : (s : Bytes) (sep : ℕ) → All (Lacks sep) (split s sep)
unfolding split
split-All [] sep = (tt, tt)
split-All (c ∷ s) sep = elim (Bool-cases (c == sep)) [
  | inl e ↦ rw e (tt, split-All s sep)
  | inr e ↦ rw e (onto_first-All c sep (split s sep) (ground arith) (split-All s sep))
]

onto_first-append :
    (c : ℕ) (parts more : List Bytes)
    → parts ≢ []
    → onto_first c (parts ++ more) ≡ onto_first c parts ++ more
onto_first-append c [] more ne = absurd (ne refl)
onto_first-append c (part ∷ parts) more ne = refl

-- What stands behind a separator is split on its own.
pub split-append :
    (s rest : Bytes) (sep : ℕ) → split (s ++ sep ∷ rest) sep ≡ split s sep ++ split rest sep
unfolding split
split-append [] rest sep = ground arith
split-append (c ∷ s) rest sep = ground (
  arith,
  split-append s rest sep,
  onto_first-append c (split s sep) (split rest sep) (split-ne-nil s sep),
)

-- Splitting a join gives the parts back, if there is a part and none holds the separator.
pub split-join :
    (parts : List Bytes) (sep : ℕ)
    → parts ≢ []
    → All (Lacks sep) parts
    → split (join parts (sep ∷ [])) sep ≡ parts
unfolding join
split-join [] sep ne h = absurd (ne refl)
split-join (part ∷ []) sep ne (h, _) = split-Lacks part sep h
split-join (part ∷ more ∷ parts) sep ne (h, hs) =
    split_at_sep part (join (more ∷ parts) (sep ∷ [])) sep h
    ∙ ap (◌∷◌ part) (split-join (more ∷ parts) sep (cc) hs)

-- What stands behind a join and a separator is split on its own.
pub split-join_sep :
    (parts : List Bytes) (rest : Bytes) (sep : ℕ)
    → parts ≢ []
    → All (Lacks sep) parts
    → split (join parts (sep ∷ []) ++ sep ∷ rest) sep ≡ parts ++ split rest sep
unfolding join
split-join_sep [] rest sep ne h = absurd (ne refl)
split-join_sep (part ∷ []) rest sep ne (h, _) = split_at_sep part rest sep h
split-join_sep (part ∷ more ∷ parts) rest sep ne (h, hs) =
    let tail = join (more ∷ parts) (sep ∷ []) in
    ap (λ s. split s sep) (append_assoc part (sep ∷ tail) (sep ∷ rest))
    ∙ split_at_sep part (tail ++ sep ∷ rest) sep h
    ∙ ap (◌∷◌ part) (split-join_sep (more ∷ parts) rest sep (cc) hs)
