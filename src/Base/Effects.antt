-- ===== src/Base/Effects.antt =====
-- Go's `error` values and functions that change the host and may fail. What was done before a
-- failure stays done, so the state comes back beside the error too.
pub mod Laws
use mathlib.Core.Bool.{Bool, true, false}
use mathlib.Core.List.{List, [], ◌∷◌, ◌++◌}
use void_init.Base.Lists.{Bytes, codes}

-- `not_exist` and `other` are errors of the operating system, with their text: `os.IsNotExist`
-- holds of the first. `text` is `errors.New` or an `Errorf` with no `%w`; `wrap` is an `Errorf`
-- whose `%w` stands between two texts.
pub data Error : Type 0 where
  not_exist : Bytes → Error
  other : Bytes → Error
  text : Bytes → Error
  wrap : Bytes → Error → Bytes → Error

-- `err.Error()`
unfoldable pub message : Error → Bytes
message (not_exist m) = m
message (other m) = m
message (text m) = m
message (wrap before e after) = before ++ (message e ++ after)

-- `os.IsNotExist`, which does not look through `fmt.Errorf`.
abbrev pub is_not_exist : Error → Bool
is_not_exist (not_exist _) = true
is_not_exist _ = false

-- `fmt.Errorf("<before>: %w", err)`
abbrev pub in_context : Bytes → Error → Error
in_context before e = wrap (before ++ codes ": ") e []

pub data Result {ℓ} (A : Type ℓ) : Type ℓ where
  ok : A → Result A
  err : Error → Result A

abbrev pub Exec {ℓ} : Type ℓ → Type ℓ → Type ℓ
Exec S A = S → Result A × S

abbrev pub map_error {ℓ} : {A : Type ℓ} → (Error → Error) → Result A → Result A
map_error f (ok a) = ok a
map_error f (err e) = err (f e)

module _ {ℓ} {S A : Type ℓ} where
  abbrev pub pure : A → Exec S A
  pure a s = (ok a, s)

  abbrev pub raise : Error → Exec S A
  raise e s = (err e, s)

  abbrev pub lift : Result A → Exec S A
  lift r s = (r, s)

  -- A call that reads the host and does not change it.
  abbrev pub query : (S → Result A) → Exec S A
  query f s = (f s, s)

  -- `if err != nil { return fmt.Errorf("<before>: %w", err) }`
  unfoldable pub wrapping : Bytes → Exec S A → Exec S A
  wrapping before m s = let (r, t) = m s in (map_error (in_context before) r, t)

module _ {ℓ} {S A B : Type ℓ} where
  abbrev pub continue : Result A → (A → Exec S B) → Exec S B
  continue (ok a) f s = f a s
  continue (err e) f s = (err e, s)

  infixl 10 ◌>>=◌ ◌>>◌
  unfoldable pub ◌>>=◌ : Exec S A → (A → Exec S B) → Exec S B
  ◌>>=◌ m f s = let (r, t) = m s in continue r f t

  abbrev pub ◌>>◌ : Exec S A → Exec S B → Exec S B
  m >> n = m >>= λ _. n

module _ {ℓ κ} {A : Type ℓ} {B : Type κ} where
  abbrev pub and_then : Result A → (A → Result B) → Result B
  and_then (ok a) f = f a
  and_then (err e) f = err e

-- `for _, a := range items { if err := f(a); err != nil { return err } }`
module _ {A S : Type 0} (f : A → Exec S (Unit {0})) where
  unfoldable pub for_each : List A → Exec S (Unit {0})
  for_each [] = pure tt
  for_each (a ∷ items) = f a >> for_each items

-- `if test { … }`, where the code goes on behind it.
abbrev pub when : {S : Type 0} → Bool → Exec S (Unit {0}) → Exec S (Unit {0})
when true m s = m s
when false m s = (ok tt, s)
