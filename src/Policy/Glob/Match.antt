-- ===== src/Policy/Glob/Match.antt =====
-- src/policy/policy.ts: what the expression of a glob accepts_path.
use agent_pipeline_v.Base.{
  ℕ, ◌≡◌, ◌⊎◌, inl, inr, refl, ap, sym, subst, Bool, true, ◌&&◌, List, [], ◌∷◌, ◌++◌, Text, arith,
  all, is_empty, ◌==◌, Bool-cases,
}
use agent_pipeline_v.Policy.Glob.{
  Part, directories, anything, run, one, literal, is_dot, no_slash, many, some_directory,
  accepts_path, met_by,
}

-- What a list of parts means: the text falls into a text for each of them, in order.
abbrev pub Means : List Part → Text → Type 0
Means [] s = s ≡ []
Means (directories ∷ ps) s =
    Means ps s
    ⊎ ((front : Text) × (rest : Text) × (s ≡ front ++ (b'/' ∷ rest))
        × (all is_dot front ≡ true)
        × Means ps rest)
Means (anything ∷ ps) s =
    (front : Text) × (rest : Text) × (s ≡ front ++ rest) × (all is_dot front ≡ true) × Means ps rest
Means (run ∷ ps) s =
    (front : Text) × (rest : Text) × (s ≡ front ++ rest)
    × (all no_slash front ≡ true)
    × Means ps rest
Means (one ∷ ps) s = (c : ℕ) × (rest : Text) × (s ≡ c ∷ rest) × (no_slash c ≡ true) × Means ps rest
Means (literal c ∷ ps) s = (rest : Text) × (s ≡ c ∷ rest) × Means ps rest

module _ (p : ℕ → Bool) (k : Text → Bool) where
  many-parts :
      (s : Text)
      → many p k s ≡ true
      → (front : Text) × (rest : Text) × (s ≡ front ++ rest)
        × (all p front ≡ true)
        × (k rest ≡ true)
  unfolding many all
  many-parts [] h = ([], [], refl, refl, h)
  many-parts (c ∷ s) h = elim (Bool-cases (k (c ∷ s))) [
    | inl e ↦ ([], c ∷ s, refl, refl, e)
    | inr n ↦
        (let (front, rest, e, a, r) = many-parts s (ground arith) in
          (c ∷ front, rest, ap (λ x. c ∷ x) e, ground arith, r))
  ]

  many-of_parts :
      (front rest : Text) → all p front ≡ true → k rest ≡ true → many p k (front ++ rest) ≡ true
  unfolding many all
  many-of_parts [] [] a r = r
  many-of_parts [] (c ∷ rest) a r = ground arith
  many-of_parts (c ∷ front) rest a r = ground (arith, many-of_parts front rest)

module _ (k : Text → Bool) where
  some_directory-parts :
      (s : Text)
      → some_directory k s ≡ true
      → (front : Text) × (rest : Text) × (s ≡ front ++ (b'/' ∷ rest))
        × (all is_dot front ≡ true)
        × (k rest ≡ true)
  unfolding some_directory all
  some_directory-parts [] h = absurd (ground arith)
  some_directory-parts (c ∷ s) h = elim (Bool-cases (c == b'/' && k s)) [
    | inl e ↦
        (let slash : c ≡ b'/' = ground arith in ([], s, ap (λ x. x ∷ s) slash, refl, ground arith))
    | inr n ↦
        (let (front, rest, e, a, r) = some_directory-parts s (ground arith) in
          (c ∷ front, rest, ap (λ x. c ∷ x) e, ground arith, r))
  ]

  some_directory-of_parts :
      (front rest : Text)
      → all is_dot front ≡ true
      → k rest ≡ true
      → some_directory k (front ++ (b'/' ∷ rest)) ≡ true
  unfolding some_directory all
  some_directory-of_parts [] rest a r = rw r refl
  some_directory-of_parts (c ∷ front) rest a r = ground (arith, some_directory-of_parts front rest)

pub accepts_path-Means : (ps : List Part) (s : Text) → accepts_path ps s ≡ true → Means ps s
unfolding accepts_path
accepts_path-Means [] [] h = refl
accepts_path-Means [] (c ∷ s) h = absurd (ground arith)
accepts_path-Means (directories ∷ ps) s h = elim (Bool-cases (accepts_path ps s)) [
  | inl e ↦ inl (accepts_path-Means ps s e)
  | inr n ↦
      (let (front, rest, e, a, r) = some_directory-parts (accepts_path ps) s (ground arith) in
        inr (front, rest, e, a, accepts_path-Means ps rest r))
]
accepts_path-Means (anything ∷ ps) s h =
    let (front, rest, e, a, r) = many-parts is_dot (accepts_path ps) s h in
    (front, rest, e, a, accepts_path-Means ps rest r)
accepts_path-Means (run ∷ ps) s h =
    let (front, rest, e, a, r) = many-parts no_slash (accepts_path ps) s h in
    (front, rest, e, a, accepts_path-Means ps rest r)
accepts_path-Means (one ∷ ps) [] h = absurd (ground arith)
accepts_path-Means (one ∷ ps) (c ∷ s) h =
    (c, s, refl, ground arith, accepts_path-Means ps s (ground arith))
accepts_path-Means (literal c ∷ ps) [] h = absurd (ground arith)
accepts_path-Means (literal c ∷ ps) (d ∷ s) h =
    let same : d ≡ c = ground arith in
    (s, ap (λ x. x ∷ s) same, accepts_path-Means ps s (ground arith))

pub Means-accepts_path : (ps : List Part) (s : Text) → Means ps s → accepts_path ps s ≡ true
unfolding accepts_path
Means-accepts_path [] s h = subst (λ x. is_empty x ≡ true) (sym h) refl
Means-accepts_path (directories ∷ ps) s (inl h) = ground (arith, Means-accepts_path ps s h)
Means-accepts_path (directories ∷ ps) s (inr (front, rest, e, a, h)) =
    let found =
      some_directory-of_parts (accepts_path ps) front rest a (Means-accepts_path ps rest h) in
    let here : some_directory (accepts_path ps) s ≡ true =
      subst (λ x. some_directory (accepts_path ps) x ≡ true) (sym e) found in
    ground arith
Means-accepts_path (anything ∷ ps) s (front, rest, e, a, h) =
    subst (λ x. many is_dot (accepts_path ps) x ≡ true) (sym e)
      (many-of_parts is_dot (accepts_path ps) front rest a (Means-accepts_path ps rest h))
Means-accepts_path (run ∷ ps) s (front, rest, e, a, h) =
    subst (λ x. many no_slash (accepts_path ps) x ≡ true) (sym e)
      (many-of_parts no_slash (accepts_path ps) front rest a (Means-accepts_path ps rest h))
Means-accepts_path (one ∷ ps) s (c, rest, e, n, h) =
    let kept = Means-accepts_path ps rest h in
    subst (λ x. met_by no_slash (accepts_path ps) x ≡ true) (sym e) (rw kept (rw n refl))
Means-accepts_path (literal c ∷ ps) s (rest, e, h) =
    let kept = Means-accepts_path ps rest h in
    let same : c == c ≡ true = ground arith in
    subst (λ x. met_by (λ d. d == c) (accepts_path ps) x ≡ true) (sym e) (rw kept (rw same refl))
