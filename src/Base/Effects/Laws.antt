-- ===== src/Base/Effects/Laws.antt =====
-- A successful run, taken apart at a bind.
use mathlib.Core.Path.{◌≡◌, refl, ap, sym, ◌∙◌, subst}
use mathlib.Core.Bool.{Bool}
use mathlib.Core.List.{List, [], ◌∷◌}
use void_init.Base.Lists.{Bytes, filter}
use void_init.Base.Tests.{Bool-cases, if◌then◌else◌}
use mathlib.Core.Logic.{◌⊎◌, inl, inr}
use void_init.Base.Effects.{
  Error, Result, ok, err, Exec, map_error, wrapping, in_context, continue, ◌>>=◌, ◌>>◌, pure, lift,
  query, for_each,
}

module _ {ℓ} {S A B : Type ℓ} where
  continue-eq-ok :
      (r : Result A) (u : S) (f : A → Exec S B) {b : B} {t : S}
      → continue r f u ≡ (ok b, t)
      → (a : A) × (r ≡ ok a) × (f a u ≡ (ok b, t))
  continue-eq-ok (ok a) u f h = (a, refl, h)
  continue-eq-ok (err e) u f h = cc

  pub bind-eq-ok :
      (m : Exec S A) (f : A → Exec S B) (s : S) {b : B} {t : S}
      → (m >>= f) s ≡ (ok b, t)
      → (a : A) × (u : S) × (m s ≡ (ok a, u)) × (f a u ≡ (ok b, t))
  unfolding ◌>>=◌
  bind-eq-ok m f s h =
      let (a, e, later) = continue-eq-ok (m s).0 (m s).1 f h in
      (a, (m s).1, λ i. (e i, (m s).1), later)

module _ {ℓ} {S A B C : Type ℓ} where
  continue_assoc :
      (r : Result A) (u : S) (n : Exec S B) (k : Exec S C)
      → continue r (λ _. n >> k) u ≡ (continue r (λ _. n) >> k) u
  unfolding ◌>>=◌
  continue_assoc (ok a) u n k = refl
  continue_assoc (err e) u n k = refl

  pub then_assoc :
      (m : Exec S A) (n : Exec S B) (k : Exec S C) (s : S) → (m >> (n >> k)) s ≡ (m >> n >> k) s
  unfolding ◌>>=◌
  then_assoc m n k s = continue_assoc (m s).0 (m s).1 n k

map_error-eq-ok {ℓ} :
    {A : Type ℓ} (f : Error → Error) (r : Result A) {a : A} → map_error f r ≡ ok a → r ≡ ok a
map_error-eq-ok f (ok a) h = h
map_error-eq-ok f (err e) h = cc

pub Result-cases {ℓ} :
    {A : Type ℓ} (r : Result A) → ((a : A) × (r ≡ ok a)) ⊎ ((e : Error) × (r ≡ err e))
Result-cases (ok a) = inl (a, refl)
Result-cases (err e) = inr (e, refl)

module _ {ℓ} {S A : Type ℓ} where
  pub wrapping-eq-ok :
      (before : Bytes) (m : Exec S A) (s : S) {a : A} {t : S}
      → wrapping before m s ≡ (ok a, t)
      → m s ≡ (ok a, t)
  unfolding wrapping
  wrapping-eq-ok before m s h =
      λ i. (map_error-eq-ok (in_context before) (m s).0 (λ j. (h j).0) i, (h i).1)

abbrev value_or {ℓ} : {A : Type ℓ} → A → Result A → A
value_or a (ok b) = b
value_or a (err _) = a

-- What holds of a returned value and its state holds of the value and the state read off the result.
pub pure_elim {ℓ κ} :
    {S A : Type ℓ} (P : A → S → Type κ) {a b : A} {s t : S}
    → ◌≡◌ {A = Result A × S} (ok a, s) (ok b, t)
    → P a s
    → P b t
pure_elim P {a} h p = subst (λ (r : Result _ × _). P (value_or a r.0) r.1) h p

-- A loop that passes over some of its items.
module _ {S A : Type 0} (p : A → Bool) (f g : A → Exec S (Unit {0})) where
  continue-ap :
      (r : Result (Unit {0})) (u : S) (m n : Exec S (Unit {0}))
      → ((s : S) → m s ≡ n s)
      → continue r (λ _. m) u ≡ continue r (λ _. n) u
  continue-ap (ok _) u m n h = h u
  continue-ap (err e) u m n h = refl

  pub for_each-filter :
      ((a : A) (s : S) → f a s ≡ (if p a then g a else pure tt) s)
      → (items : List A) (s : S) → for_each f items s ≡ for_each g (filter p items) s
  unfolding for_each filter ◌>>=◌
  for_each-filter h [] s = refl
  for_each-filter h (a ∷ items) s = elim (Bool-cases (p a)) [
    | inl taken ↦
        ap (λ r. continue r.0 (λ _. for_each f items) r.1)
          (h a s ∙ ap (λ b. (if b then g a else pure tt) s) taken)
        ∙ continue-ap (g a s).0 (g a s).1 (for_each f items) (for_each g (filter p items))
            (for_each-filter h items)
        ∙ ap (λ b. for_each g (if b then a ∷ filter p items else filter p items) s) (sym taken)
    | inr skipped ↦
        ap (λ r. continue r.0 (λ _. for_each f items) r.1)
          (h a s ∙ ap (λ b. (if b then g a else pure tt) s) skipped)
        ∙ for_each-filter h items s
        ∙ ap (λ b. for_each g (if b then a ∷ filter p items else filter p items) s) (sym skipped)
  ]

pub ok-injective {ℓ} : {A : Type ℓ} {a b : A} → ok a ≡ ok b → a ≡ b
ok-injective {a} h = ap (value_or a) h

-- A read that succeeds leaves the state.
pub query-eq-ok {ℓ} :
    {S A : Type ℓ} (before : Bytes) (f : S → Result A) (s : S) {a : A} {t : S}
    → wrapping before (query f) s ≡ (ok a, t)
    → (f s ≡ ok a) × (s ≡ t)
query-eq-ok before f s h =
    let e = wrapping-eq-ok before (query f) s h in (ap (λ r. r.0) e, ap (λ r. r.1) e)

-- What holds behind every run, whether it succeeds or fails, by way of what holds in between.
module _ {ℓ κ} {S A B : Type ℓ} (P : S → Type κ) (Q : Result B → S → Type κ) where
  continue-post :
      (r : Result A) (u : S) (f : A → Exec S B)
      → P u
      → ((e : Error) (t : S) → P t → Q (err e) t)
      → ((a : A) (t : S) → P t → Q (f a t).0 (f a t).1)
      → Q (continue r f u).0 (continue r f u).1
  continue-post (ok a) u f p failed later = later a u p
  continue-post (err e) u f p failed later = failed e u p

  pub bind-post :
      (m : Exec S A) (f : A → Exec S B) (s : S)
      → P (m s).1
      → ((e : Error) (t : S) → P t → Q (err e) t)
      → ((a : A) (t : S) → P t → Q (f a t).0 (f a t).1)
      → Q ((m >>= f) s).0 ((m >>= f) s).1
  unfolding ◌>>=◌
  bind-post m f s p failed later = continue-post (m s).0 (m s).1 f p failed later

pub lift-eq-ok {ℓ} :
    {S A : Type ℓ} (before : Bytes) (r : Result A) (s : S) {a : A} {t : S}
    → wrapping before (lift r) s ≡ (ok a, t)
    → (r ≡ ok a) × (s ≡ t)
lift-eq-ok before r s h =
    let e = wrapping-eq-ok before (lift r) s h in (ap (λ r. r.0) e, ap (λ r. r.1) e)
