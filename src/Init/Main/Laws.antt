-- ===== src/Init/Main/Laws.antt =====
-- What a run has to pass before it changes the machine.
use void_init.Base.{
  ◌≡◌, ◌⊎◌, inl, inr, ap, subst, false, Bool-cases, ◌==◌, Bytes, codes, Error, message, Result, ok,
  err, continue, ◌>>=◌, arith,
}
use void_init.Base.Effects.Laws.{Result-cases}
use void_init.Os.{Os, log_info, log_error}
use void_init.Init.Cloudinit.{find_user_data}
use void_init.Init.Main.{
  Libraries, must_be_root, read_user_data, accept, configure, steps, finish, main,
}
use void_init.Init.UserData.{UserData, validate, parse_user_data}
use void_init.Init.UserData.Safety.{IsSafe, validate-IsSafe}

parse_user_data-validate :
    (quote : Bytes → Bytes) (unmarshal : Bytes → Result UserData) (input : Bytes) (u : UserData)
    → parse_user_data quote unmarshal input ≡ ok u
    → validate quote u ≡ ok tt
unfolding parse_user_data
parse_user_data-validate quote unmarshal input u h = elim (Result-cases (unmarshal input)) [
  | inr (e, bad) ↦ absurd (ground arith)
  | inl (v, read) ↦ elim (Result-cases (validate quote v)) [
    | inr (e, bad) ↦ absurd (ground arith)
    | inl (_, good) ↦ subst (λ w. validate quote w ≡ ok tt) (ground arith) good
  ]
]

module _ (O : Os) (L : Libraries) where
  -- The state behind the first line of the log.
  abbrev pub started : O.State → O.State
  started s = (log_info O (codes "starting") s).1

  root-cases : (s : O.State) → (O.geteuid s ≡ 0) ⊎ ((O.geteuid s == 0) ≡ false)
  root-cases s = elim (Bool-cases (O.geteuid s == 0)) [ inl e ↦ inl (ground arith) | inr e ↦ inr e ]

  read_user_data-validate :
      (s t : O.State) (u : UserData) → read_user_data O L s ≡ (ok u, t) → validate O.quote u ≡ ok tt
  unfolding read_user_data ◌>>=◌
  read_user_data-validate s t u h = elim (Result-cases (find_user_data O s).0) [
    | inr (e, missing) ↦ absurd (ground arith)
    | inl (input, found) ↦
        parse_user_data-validate O.quote L.unmarshal_user_data input u (ground arith)
  ]

  -- What is accepted comes from root, and is safe.
  accept-IsSafe :
      (s t : O.State) (u : UserData)
      → accept O L s ≡ (ok u, t)
      → (O.geteuid (started s) ≡ 0) × IsSafe u
  unfolding accept must_be_root ◌>>=◌
  accept-IsSafe s t u h = elim (root-cases (started s)) [
    | inr other ↦ absurd (ground arith)
    | inl root ↦
        (root, validate-IsSafe O.quote u (read_user_data-validate (started s) t u (ground arith)))
  ]

  main-ended :
      (s t : O.State) (r : Result UserData)
      → accept O L s ≡ (r, t)
      → main O L s ≡ finish O L (continue r (configure O L) t)
  unfolding main steps ◌>>=◌
  main-ended s t r h = ap (λ p. finish O L (continue p.0 (configure O L) p.1)) h

  -- A run either fails up to the check of the user data, and ends with status 1 and the error in the
  -- log; or it is root's, the user data are safe to splice, and it ends as applying them does.
  pub main-Checked :
      (s : O.State)
      → ((e : Error) × (t : O.State) × (accept O L s ≡ (err e, t))
          × (main O L s ≡ (1, (log_error O (message e) t).1)))
        ⊎ ((u : UserData) × (t : O.State) × (accept O L s ≡ (ok u, t))
            × (O.geteuid (started s) ≡ 0)
            × IsSafe u
            × (main O L s ≡ finish O L (configure O L u t)))
  main-Checked s = elim (Result-cases (accept O L s).0) [
    | inr (e, refused) ↦
        let same = ap (λ r. (r, (accept O L s).1)) refused in
        inl (e, (accept O L s).1, same, main-ended s _ (err e) same)
    | inl (u, accepted) ↦
        let same = ap (λ r. (r, (accept O L s).1)) accepted in
        let (root, safe) = accept-IsSafe s _ u same in
        inr (u, (accept O L s).1, same, root, safe, main-ended s _ (ok u) same)
  ]
