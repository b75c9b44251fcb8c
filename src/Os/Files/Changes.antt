-- ===== src/Os/Files/Changes.antt =====
-- The files of a host after a list of files was put into it, and loops that put one file after the
-- other.
use void_init.Base.{
  ℕ, ◌≡◌, ◌≢◌, refl, ap, sym, ◌∙◌, subst, false, Bool-cases, inl, inr, Option, some, List, [], ◌∷◌,
  ◌++◌, map, All, All-map, Bytes, equal, equal_iff, ok, Exec, for_each, if◌then◌else◌, arith,
}
use void_init.Base.Effects.Laws.{bind-eq-ok}
use void_init.Os.{Os, log_info}
use void_init.Os.Files.{File, FileLaws}
use void_init.Os.Files.Store.{Frame, Unchanged}

abbrev pub Entries : Type 0
Entries = List (Bytes × File)

-- What a loop puts for one of its items.
abbrev pub entry_of {ℓ} : {A : Type ℓ} (dst content : A → Bytes) → ℕ → A → Bytes × File
entry_of dst content perm a = (dst a, record { content = content a; mode = perm })

-- Files, and over them the entries of a list: the last one of a path is the one that is there.
unfoldable pub overlaid : Entries → (Bytes → Option File) → Bytes → Option File
overlaid [] files q = files q
overlaid ((p, f) ∷ entries) files q =
    overlaid entries (λ r. if equal p r then some f else files r) q

overlaid-ap :
    (entries : Entries) (files others : Bytes → Option File) (q : Bytes)
    → files q ≡ others q
    → overlaid entries files q ≡ overlaid entries others q
unfolding overlaid
overlaid-ap [] files others q h = h
overlaid-ap ((p, f) ∷ entries) files others q h =
    overlaid-ap entries _ _ q (ap (λ x. if equal p q then some f else x) h)

overlaid-append :
    (front back : Entries) (files : Bytes → Option File) (q : Bytes)
    → overlaid (front ++ back) files q ≡ overlaid back (overlaid front files) q
unfolding overlaid
overlaid-append [] back files q = refl
overlaid-append ((p, f) ∷ front) back files q = overlaid-append front back _ q

-- A path that is in no entry keeps its file.
pub overlaid-other :
    (entries : Entries) (files : Bytes → Option File) (q : Bytes)
    → All (λ e. q ≢ e.0) entries
    → overlaid entries files q ≡ files q
unfolding overlaid
overlaid-other [] files q _ = refl
overlaid-other ((p, f) ∷ entries) files q (ne, others) =
    overlaid-other entries _ q others ∙ ground (arith, equal_iff p q)

pub overlaid-one :
    (p : Bytes) (f : File) (files : Bytes → Option File) → overlaid ((p, f) ∷ []) files p ≡ some f
unfolding overlaid
overlaid-one p f files = ap (λ b. if b then some f else files p) ((equal_iff p p).1 refl)

module _ {O : Os} (L : FileLaws O) where
  -- The files of `t` are those of `s`, and the entries over them, but for the logger's.
  abbrev pub Puts : Entries → O.State → O.State → Type 0
  Puts entries s t = (q : Bytes) → L.is_log q ≡ false → L.file t q ≡ overlaid entries (L.file s) q

  pub Puts-one :
      (p : Bytes) (f : File) (s t : O.State)
      → L.file t p ≡ some f
      → Frame L p s t
      → Puts ((p, f) ∷ []) s t
  unfolding overlaid
  Puts-one p f s t there frame q not_log = elim (Bool-cases (equal p q)) [
    | inl here ↦
        subst (λ r. L.file t r ≡ some f) ((equal_iff p q).0 here) there
        ∙ ap (λ b. if b then some f else L.file s q) (sym here)
    | inr other ↦
        frame q (λ e. absurd (ground (arith, equal_iff p q))) not_log
        ∙ ap (λ b. if b then some f else L.file s q) (sym other)
  ]

  pub Puts-append :
      (front back : Entries) (s a t : O.State)
      → Puts front s a
      → Puts back a t
      → Puts (front ++ back) s t
  Puts-append front back s a t first second q not_log =
      second q not_log
      ∙ overlaid-ap back (L.file a) (overlaid front (L.file s)) q (first q not_log)
      ∙ sym (overlaid-append front back (L.file s) q)

  -- What is put behind a step that leaves the files as a function has them, but for the logger's.
  abbrev pub Has : (Bytes → Option File) → O.State → Type 0
  Has files t = (q : Bytes) → L.is_log q ≡ false → L.file t q ≡ files q

  pub Puts-behind :
      (entries : Entries) (files : Bytes → Option File) (a t : O.State)
      → Has files a
      → Puts entries a t
      → Has (overlaid entries files) t
  Puts-behind entries files a t same put q n =
      put q n ∙ overlaid-ap entries (L.file a) files q (same q n)

  -- A step that leaves the files as they are.
  pub Puts-before :
      (entries : Entries) (s a t : O.State) → Puts entries s a → Unchanged L a t → Puts entries s t
  Puts-before entries s a t put same q n = same q n ∙ put q n

  pub log-Unchanged :
      (m : Bytes) (s : O.State) {x : Unit {0}} {t : O.State}
      → log_info O m s ≡ (ok x, t)
      → Unchanged L s t
  log-Unchanged m s h q n = ap (λ r. L.file r.1 q) (sym h) ∙ L.log-frame _ m s q n

  -- A file that is in no entry is there behind them.
  pub Puts-kept :
      (entries : Entries) (s t : O.State) (q : Bytes) {f : Option File}
      → Puts entries s t
      → L.is_log q ≡ false
      → All (λ e. q ≢ e.0) entries
      → L.file s q ≡ f
      → L.file t q ≡ f
  Puts-kept entries s t q put not_log others h =
      put q not_log ∙ overlaid-other entries (L.file s) q others ∙ h

  module _ {A : Type 0} (src dst content : A → Bytes) where
    -- What a loop over items needs of one of them: its source is a file with known bytes, which is
    -- not the logger's and which no item overwrites.
    abbrev pub Source : List A → (Bytes → Option File) → A → Type 0
    Source items files a =
        ((k : ℕ) × (files (src a) ≡ some (record { content = content a; mode = k })))
        × (L.is_log (src a) ≡ false)
        × All (λ b. src a ≢ dst b) items

    Source-rest :
        (perm : ℕ) (a b : A) (items : List A) (s t : O.State)
        → Puts (entry_of dst content perm a ∷ []) s t
        → Source (a ∷ items) (L.file s) b
        → Source items (L.file t) b
    Source-rest perm a b items s t put ((k, there), not_log, (ne, others)) = (
      (k, Puts-kept (entry_of dst content perm a ∷ []) s t (src b) put not_log (ne, tt) there),
      not_log,
      others,
    )

    pub Sources-Has :
        (items : List A) (files : Bytes → Option File) (t : O.State)
        → Has files t
        → All (Source items files) items
        → All (Source items (L.file t)) items
    Sources-Has items files t same h =
        All-map items (λ b s. ((s.0.0, same (src b) s.1 ∙ s.0.1), s.1, s.2)) h

    -- One round of such a loop: where it succeeds, it puts the entry of its item.
    abbrev pub PutsOne : ℕ → (A → Exec O.State (Unit {0})) → A → Type 0
    PutsOne perm step a =
        (s t : O.State) (k : ℕ)
        → src a ≢ dst a
        → L.file s (src a) ≡ some (record { content = content a; mode = k })
        → step a s ≡ (ok tt, t)
        → Puts (entry_of dst content perm a ∷ []) s t

    pub for_each-Puts :
        (perm : ℕ) (step : A → Exec O.State (Unit {0})) (items : List A) (s : O.State) {t : O.State}
        → All (PutsOne perm step) items
        → All (Source items (L.file s)) items
        → for_each step items s ≡ (ok tt, t)
        → Puts (map (entry_of dst content perm) items) s t
    unfolding for_each overlaid
    for_each-Puts perm step [] s {t} one h run = λ q n. ap (λ r. L.file r.1 q) (sym run)
    for_each-Puts perm step (a ∷ items) s {t} (one, ones)
          (((k, there), not_log, (ne, others)), more) run =
        let (_, b, first, rest) = bind-eq-ok (step a) _ s run in
        let put = one s b k ne there first in
        Puts-append (entry_of dst content perm a ∷ []) (map (entry_of dst content perm) items) s b t
          put
          (for_each-Puts perm step items b ones
            (All-map items (λ x h. Source-rest perm a x items s b put h) more) rest)
