-- ===== src/Policy/Glob/Meets.antt =====
-- src/policy/policy.ts: what the globs of `matches` mean, from their own text.
use agent_pipeline_v.Base.{
  ℕ, ◌≡◌, ◌↔◌, inl, inr, refl, sym, subst, Bool, true, false, ◌&&◌, ◌||◌, [], ◌∷◌, ◌++◌, Text,
  arith, all, ok, ◌==◌, Bool-cases,
}
use agent_pipeline_v.Policy.Glob.{
  Part, directories, anything, run, one, literal, is_dot, no_slash, compile, glob, matches,
  supports, single,
}
use agent_pipeline_v.Policy.Glob.Match.{Means, accepts_path-Means, Means-accepts_path}

abbrev pub starts : ℕ → Text → Bool
starts d [] = false
starts d (c ∷ s) = c == d

-- The path `s` falls into texts for the signs of the pattern, in order: a character for itself, one
-- character but a slash for `?`, characters but slashes for a `*` alone, characters but line breaks for
-- `**`, and for `**/` nothing or such characters and a slash.
pub data Meets : Text → Text → Type 0 where
  ends : Meets [] []
  same :
      {c : ℕ} {pattern s : Text}
      → c == b'*' || c == b'?' ≡ false
      → Meets pattern s
      → Meets (c ∷ pattern) (c ∷ s)
  question :
      {c : ℕ} {pattern s : Text}
      → no_slash c ≡ true
      → Meets pattern s
      → Meets (b'?' ∷ pattern) (c ∷ s)
  star :
      {pattern s : Text} (front rest : Text)
      → starts b'*' pattern ≡ false
      → s ≡ front ++ rest
      → all no_slash front ≡ true
      → Meets pattern rest
      → Meets (b'*' ∷ pattern) s
  stars :
      {pattern s : Text} (front rest : Text)
      → starts b'/' pattern ≡ false
      → s ≡ front ++ rest
      → all is_dot front ≡ true
      → Meets pattern rest
      → Meets (b'*' ∷ b'*' ∷ pattern) s
  here : {pattern s : Text} → Meets pattern s → Meets (b'*' ∷ b'*' ∷ b'/' ∷ pattern) s
  below :
      {pattern s : Text} (front rest : Text)
      → s ≡ front ++ (b'/' ∷ rest)
      → all is_dot front ≡ true
      → Meets pattern rest
      → Meets (b'*' ∷ b'*' ∷ b'/' ∷ pattern) s

single_literal : (c : ℕ) → c == b'*' || c == b'?' ≡ false → single c ≡ literal c
single_literal c h = ground arith

single_run : (c : ℕ) → (c == b'*') ≡ true → single c ≡ run
single_run c h = rw h refl

single_one : (c : ℕ) → (c == b'*') ≡ false → (c == b'?') ≡ true → single c ≡ one
single_one c n h = rw (n, h) refl

equal : (c d : ℕ) → (c == d) ≡ true → c ≡ d
equal c d h = ground arith

compile-single :
    (c : ℕ) (s : Text) → c == b'*' && starts b'*' s ≡ false → compile (c ∷ s) ≡ single c ∷ compile s
unfolding compile
compile-single c [] h = refl
compile-single c (d ∷ []) h = rw h refl
compile-single c (d ∷ e ∷ s) h = rw h refl

compile-stars :
    (s : Text) → starts b'/' s ≡ false → compile (b'*' ∷ b'*' ∷ s) ≡ anything ∷ compile s
unfolding compile
compile-stars [] h = refl
compile-stars (e ∷ s) h = rw h refl

Meets-Means : {pattern s : Text} → Meets pattern s → Means (compile pattern) s
unfolding compile
Meets-Means ends = refl
Meets-Means (same {c} {pattern} {s} h k) =
    subst (λ ps. Means ps (c ∷ s)) (sym (compile-single c pattern (ground arith)))
      (subst (λ p. Means (p ∷ compile pattern) (c ∷ s)) (sym (single_literal c h))
        (s, refl, Meets-Means k))
Meets-Means (question {c} {pattern} {s} h k) =
    subst (λ ps. Means ps (c ∷ s)) (sym (compile-single b'?' pattern refl))
      (c, s, refl, h, Meets-Means k)
Meets-Means (star {pattern} {s} front rest n e a k) =
    subst (λ ps. Means ps s) (sym (compile-single b'*' pattern n))
      (front, rest, e, a, Meets-Means k)
Meets-Means (stars {pattern} {s} front rest n e a k) =
    subst (λ ps. Means ps s) (sym (compile-stars pattern n)) (front, rest, e, a, Meets-Means k)
Meets-Means (here k) = inl (Meets-Means k)
Meets-Means (below front rest e a k) = inr (front, rest, e, a, Meets-Means k)

-- The sign `c`, where it is no `**`.
of_single :
    (c : ℕ) (pattern s : Text)
    → c == b'*' && starts b'*' pattern ≡ false
    → ((r : Text) → Means (compile pattern) r → Meets pattern r)
    → Means (compile (c ∷ pattern)) s
    → Meets (c ∷ pattern) s
of_single c pattern s n k m =
    let sign : Means (single c ∷ compile pattern) s =
      subst (λ ps. Means ps s) (compile-single c pattern n) m in
    let to : (p : Part) → single c ≡ p → Means (p ∷ compile pattern) s =
      λ p e. subst (λ x. Means (x ∷ compile pattern) s) e sign in
    elim (Bool-cases (c == b'*')) [
      | inl h ↦
          subst (λ x. Meets (x ∷ pattern) s) (sym (equal c b'*' h))
            (let (front, rest, e, a, r) = to run (single_run c h) in
              star front rest (ground arith) e a (k rest r))
      | inr h ↦ elim (Bool-cases (c == b'?')) [
        | inl q ↦
            subst (λ x. Meets (x ∷ pattern) s) (sym (equal c b'?' q))
              (let (d, rest, e, a, r) = to one (single_one c h q) in
                subst (Meets (b'?' ∷ pattern)) (sym e) (question a (k rest r)))
        | inr q ↦
            (let (rest, e, r) = to (literal c) (single_literal c (ground arith)) in
              subst (Meets (c ∷ pattern)) (sym e) (same (ground arith) (k rest r)))
      ]
    ]

-- Two stars.
of_stars :
    (c d : ℕ) (pattern s : Text)
    → c == b'*' && d == b'*' ≡ true
    → (Means (compile (b'*' ∷ b'*' ∷ pattern)) s → Meets (b'*' ∷ b'*' ∷ pattern) s)
    → Means (compile (c ∷ d ∷ pattern)) s
    → Meets (c ∷ d ∷ pattern) s
of_stars c d pattern s h k =
    subst (λ x. Means (compile (x ∷ d ∷ pattern)) s → Meets (x ∷ d ∷ pattern) s)
      (sym (equal c b'*' (ground arith)))
      (subst (λ x. Means (compile (b'*' ∷ x ∷ pattern)) s → Meets (b'*' ∷ x ∷ pattern) s)
        (sym (equal d b'*' (ground arith))) k)

of_anything :
    (pattern s : Text)
    → starts b'/' pattern ≡ false
    → ((r : Text) → Means (compile pattern) r → Meets pattern r)
    → Means (compile (b'*' ∷ b'*' ∷ pattern)) s
    → Meets (b'*' ∷ b'*' ∷ pattern) s
of_anything pattern s n k m =
    let (front, rest, e, a, r) = subst (λ ps. Means ps s) (compile-stars pattern n) m in
    stars front rest n e a (k rest r)

of_directories :
    (pattern s : Text)
    → ((r : Text) → Means (compile pattern) r → Meets pattern r)
    → Means (directories ∷ compile pattern) s
    → Meets (b'*' ∷ b'*' ∷ b'/' ∷ pattern) s
of_directories pattern s k (inl m) = here (k s m)
of_directories pattern s k (inr (front, rest, e, a, r)) = below front rest e a (k rest r)

Means-Meets : (pattern s : Text) → Means (compile pattern) s → Meets pattern s
unfolding compile
Means-Meets [] s m = subst (Meets []) (sym m) ends
Means-Meets (c ∷ []) s m = of_single c [] s (ground arith) (λ r. Means-Meets [] r) m
Means-Meets (c ∷ d ∷ []) s m = elim (Bool-cases (c == b'*' && d == b'*')) [
  | inl h ↦ of_stars c d [] s h (of_anything [] s refl (λ r. Means-Meets [] r)) m
  | inr n ↦ of_single c (d ∷ []) s n (λ r. Means-Meets (d ∷ []) r) m
]
Means-Meets (c ∷ d ∷ e ∷ pattern) s m = elim (Bool-cases (c == b'*' && d == b'*')) [
  | inl h ↦
      of_stars c d (e ∷ pattern) s h
        (elim (Bool-cases (e == b'/')) [
          | inl g ↦
              subst
                (λ x.
                  Means (compile (b'*' ∷ b'*' ∷ x ∷ pattern)) s
                  → Meets (b'*' ∷ b'*' ∷ x ∷ pattern) s)
                (sym (equal e b'/' g)) (of_directories pattern s (λ r. Means-Meets pattern r))
          | inr g ↦ of_anything (e ∷ pattern) s g (λ r. Means-Meets (e ∷ pattern) r)
        ])
        m
  | inr n ↦ of_single c (d ∷ e ∷ pattern) s n (λ r. Means-Meets (d ∷ e ∷ pattern) r) m
]

-- A path matches a supported glob exactly when it falls into texts for the signs of the glob, in order:
-- a character for itself, one character but a slash for `?`, characters but slashes for a `*` alone,
-- characters but line breaks for `**`, and for `**/` nothing or such characters and a slash.
pub matches_iff :
    (path pattern : Text)
    → supports pattern ≡ true
    → (matches path pattern ≡ ok true) ↔ Meets pattern path
unfolding matches glob
matches_iff path pattern h = (
  λ e. Means-Meets pattern path (accepts_path-Means (compile pattern) path (ground arith)),
  λ m. ground (arith, Means-accepts_path (compile pattern) path (Meets-Means m)),
)
