-- ===== src/Initfs/Cleanup/Pushes.antt =====
-- What an action leaves on the stack, also where it fails half way.
use void_init.Base.{
  ◌≡◌, refl, ap, sym, ◌∙◌, List, [], ◌++◌, append_assoc, append-nil, Result, ok, err, Exec, ◌>>=◌,
  continue,
}
use void_init.Initfs.Cleanup.{Session, on_host}

abbrev pub IsPrefix : {A : Type 0} → List A → List A → Type 0
IsPrefix {A} xs ys = (rest : List A) × (xs ++ rest ≡ ys)

module _ {S : Type 0} where
  -- One run of an action registered `fns` if it succeeded, and a part of them, from the first on, if
  -- it failed.
  abbrev pub Left : {A : Type 0} → List (S → S) → List (S → S) → Result A × Session S → Type 0
  Left before fns (ok a, w) = w.fns ≡ before ++ fns
  Left before fns (err e, w) = (part : List (S → S)) × IsPrefix part fns × (w.fns ≡ before ++ part)

  -- Every run of the action does.
  pub record Pushes {A : Type 0} (m : Exec (Session S) A) (fns : List (S → S)) : Type 0 where
    pub left : (w : Session S) → Left w.fns fns (m w)

  of_host :
      {A : Type 0} (fns : List (S → S)) (r : Result A) (h : S)
      → Left fns [] (r, record { host = h; fns = fns })
  of_host fns (ok a) h = sym (append-nil fns)
  of_host fns (err e) h = ([], ([], refl), sym (append-nil fns))

  -- A call on the host alone.
  pub on_host-Pushes : {A : Type 0} (m : Exec S A) → Pushes (on_host m) []
  unfolding on_host
  on_host-Pushes m = record { left = λ w. of_host w.fns (m w.host).0 (m w.host).1 }

  later :
      {B : Type 0} (before fns more middle : List (S → S)) (r : Result B) (w : Session S)
      → middle ≡ before ++ fns
      → Left middle more (r, w)
      → Left before (fns ++ more) (r, w)
  later before fns more middle (ok b) w e h =
      h ∙ ap (λ l. l ++ more) e ∙ append_assoc before fns more
  later before fns more middle (err x) w e (part, (rest, p), q) = (
    fns ++ part,
    (rest, append_assoc fns part rest ∙ ap (λ l. fns ++ l) p),
    q ∙ ap (λ l. l ++ part) e ∙ append_assoc before fns part,
  )

  module _ {A B : Type 0} (f : A → Exec (Session S) B) (fns more : List (S → S)) where
    continue-Left :
        (after : (a : A) → Pushes (f a) more) (before : List (S → S)) (r : Result A) (w : Session S)
        → Left before fns (r, w)
        → Left before (fns ++ more) (continue r f w)
    continue-Left after before (ok a) w h =
        later before fns more w.fns (f a w).0 (f a w).1 h ((after a).left w)
    continue-Left after before (err e) w (part, (rest, p), q) =
        (part, (rest ++ more, sym (append_assoc part rest more) ∙ ap (λ l. l ++ more) p), q)

    -- One action behind another.
    pub bind-Pushes :
        (m : Exec (Session S) A)
        → Pushes m fns
        → ((a : A) → Pushes (f a) more)
        → Pushes (m >>= f) (fns ++ more)
    unfolding ◌>>=◌
    bind-Pushes m h after = record {
      left = λ w. continue-Left after w.fns (m w).0 (m w).1 (h.left w);
    }

  -- A call on the host, and what follows it.
  pub host_then-Pushes :
      {A B : Type 0} (m : Exec S A) (f : A → Exec (Session S) B) (fns : List (S → S))
      → ((a : A) → Pushes (f a) fns)
      → Pushes (on_host m >>= f) fns
  host_then-Pushes m f fns after = bind-Pushes f [] fns (on_host m) (on_host-Pushes m) after
