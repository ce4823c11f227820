-- ===== src/Db/Tokenizer/Pieces.antt =====
-- src/db/tokenizer.ts: what the loops of `tokenize` go over is a prefix of the text they are given.
use agent_pipeline_v.Base.{
  ℕ, zero, suc, ◌+◌, ◌≡◌, ◌≤◌, refl, ap, subst, ◌∙◌, Bool, true, false, ◌&&◌, Option, none, some,
  [], ◌∷◌, ◌++◌, arith, Text, starts_with, length, if_both, if_cases, ◌==◌, Bool-cases, inl, inr,
}
use agent_pipeline_v.Db.Tokenizer.Scan.{
  Piece, extend, first, drop, span, quoted, escaped, line_end, prepend, tag_end, is_tag_part,
  is_tag_start, dollar_tag, up_to_mark,
}
use agent_pipeline_v.Db.Tokenizer.Token.{count_lines}
use agent_pipeline_v.Db.Tokenizer.Shapes.{newlines, Doubled, Escaped, is_line_end, Lacks}

pub newlines-append : (s t : Text) → newlines (s ++ t) ≡ newlines s + newlines t
newlines-append [] t = omega arith
newlines-append (c ∷ s) t = omega (arith, newlines-append s t)

pub count_lines-newlines : (line : ℕ) (s : Text) → count_lines line s ≡ line + newlines s
unfolding count_lines
count_lines-newlines line [] = omega arith
count_lines-newlines line (c ∷ s) =
    ground (arith, count_lines-newlines line s, count_lines-newlines (suc line) s)

abbrev pub IsPrefix : Text → Text → Type 0
IsPrefix t s = s ≡ t ++ drop (length t) s

pub span-IsPrefix : (p : ℕ → Bool) (s : Text) → IsPrefix (span p s) s
unfolding span drop
span-IsPrefix p [] = refl
span-IsPrefix p (c ∷ s) = elim (Bool-cases (p c)) [
  | inl h ↦ rw h (ap (λ r. c ∷ r) (span-IsPrefix p s))
  | inr h ↦ rw h refl
]

pub first-IsPrefix : (n : ℕ) (t s : Text) → IsPrefix t (first n s) → IsPrefix t s
unfolding first drop
first-IsPrefix n [] s h = refl
first-IsPrefix zero (c ∷ t) s h = ground arith
first-IsPrefix (suc n) (c ∷ t) [] h = ground arith
first-IsPrefix (suc n) (c ∷ t) (d ∷ s) h = ground (arith, first-IsPrefix n t s)

pub append-IsPrefix :
    (t r s : Text) → IsPrefix t s → IsPrefix r (drop (length t) s) → IsPrefix (t ++ r) s
unfolding drop
append-IsPrefix [] r s h k = k
append-IsPrefix (c ∷ t) r [] h k = ground arith
append-IsPrefix (c ∷ t) r (d ∷ s) h k = ground (arith, append-IsPrefix t r s)

pub starts_with-IsPrefix : (t s : Text) → starts_with t s ≡ true → IsPrefix t s
unfolding starts_with drop
starts_with-IsPrefix [] s h = refl
starts_with-IsPrefix (c ∷ t) [] h = ground arith
starts_with-IsPrefix (c ∷ t) (d ∷ s) h = ground (arith, starts_with-IsPrefix t s)

pub newlines-span : (p : ℕ → Bool) (s : Text) → p b'\n' ≡ false → newlines (span p s) ≡ 0
unfolding span
newlines-span p [] h = refl
newlines-span p (c ∷ s) h = elim (Bool-cases (c == b'\n')) [
  | inl e ↦ (let same : p c ≡ false = subst (λ x. p x ≡ false) (ground arith) h in rw same refl)
  | inr n ↦ if_both (λ t. newlines t ≡ 0) (p c) (ground (arith, newlines-span p s h)) refl
]

-- The rest of the line.
pub line_end-parts :
    (s : Text)
    → (t : Text) × (s ≡ t ++ line_end s) × (newlines t ≡ 0) × (is_line_end (line_end s) ≡ true)
unfolding line_end
line_end-parts [] = ([], refl, refl, refl)
line_end-parts (c ∷ s) = elim (Bool-cases (c == b'\n')) [
  | inl h ↦ rw h ([], refl, refl, h)
  | inr h ↦
      rw h (let (t, e, n, l) = line_end-parts s in (c ∷ t, ap (λ r. c ∷ r) e, ground arith, l))
]

-- The text of a piece, then its rest; with no piece, what the text is.
abbrev pub Parts : (Text → Type 0) → Text → Option Piece → Type 0
Parts Open s none = Open s
Parts Open s (some p) = s ≡ p.text ++ p.rest

pub append_assoc : (t r s : Text) → t ++ (r ++ s) ≡ (t ++ r) ++ s
append_assoc [] r s = refl
append_assoc (c ∷ t) r s = ap (λ z. c ∷ z) (append_assoc t r s)

extend-Parts :
    (Open : Text → Type 0) (value t s : Text) (o : Option Piece)
    → (Open s → Open (t ++ s))
    → Parts Open s o
    → Parts Open (t ++ s) (extend value t o)
extend-Parts Open value t s none k h = k h
extend-Parts Open value t s (some p) k h = ap (λ r. t ++ r) h ∙ append_assoc t p.text p.rest

pub quoted-Parts : (q : ℕ) (s : Text) → Parts (Doubled q) s (quoted q s)
unfolding quoted
quoted-Parts q [] = Doubled.nil
quoted-Parts q (c ∷ []) =
    if_cases (Parts (Doubled q) (c ∷ [])) (c == q) (λ h. refl) (λ n. Doubled.other n Doubled.nil)
quoted-Parts q (c ∷ d ∷ s) =
    let P = Parts (Doubled q) (c ∷ d ∷ s) in
    if_cases P (c == q && d == q)
      (λ h.
        extend-Parts (Doubled q) (q ∷ []) (c ∷ d ∷ []) s (quoted q s) (Doubled.pair h)
          (quoted-Parts q s))
      (λ m.
        if_cases P (c == q) (λ h. refl)
          (λ n.
            extend-Parts (Doubled q) (c ∷ []) (c ∷ []) (d ∷ s) (quoted q (d ∷ s)) (Doubled.other n)
              (quoted-Parts q (d ∷ s))))

pub escaped-Parts : (s : Text) → Parts Escaped s (escaped s)
unfolding escaped
escaped-Parts [] = Escaped.nil
escaped-Parts (c ∷ []) =
    if_cases (Parts Escaped (c ∷ [])) (c == b'\'') (λ h. refl)
      (λ n. elim (Bool-cases (c == b'\\')) [
        | inl b ↦ Escaped.backslash b
        | inr m ↦ Escaped.other n m Escaped.nil
      ])
escaped-Parts (c ∷ d ∷ s) =
    let P = Parts Escaped (c ∷ d ∷ s) in
    if_cases P (c == b'\\')
      (λ h.
        extend-Parts Escaped (d ∷ []) (c ∷ d ∷ []) s (escaped s) (Escaped.after h)
          (escaped-Parts s))
      (λ b.
        if_cases P (c == b'\'' && d == b'\'')
          (λ h.
            extend-Parts Escaped (c ∷ []) (c ∷ d ∷ []) s (escaped s) (Escaped.pair h)
              (escaped-Parts s))
          (λ m.
            if_cases P (c == b'\'') (λ h. refl)
              (λ n.
                extend-Parts Escaped (c ∷ []) (c ∷ []) (d ∷ s) (escaped (d ∷ s)) (Escaped.other n b)
                  (escaped-Parts (d ∷ s)))))

abbrev pub Around : Text → Text → Option (Text × Text) → Type 0
Around mark s none = Lacks mark s
Around mark s (some p) = s ≡ p.0 ++ (mark ++ p.1)

later_Around :
    (mark : Text) (c : ℕ) (s : Text) (o : Option (Text × Text))
    → starts_with mark (c ∷ s) ≡ false
    → Around mark s o
    → Around mark (c ∷ s) (elim o [ none ↦ none | some p ↦ some (c ∷ p.0, p.1) ])
later_Around mark c s none n h = (n, h)
later_Around mark c s (some p) n h = ap (λ r. c ∷ r) h

drop_nil : (n : ℕ) → drop n [] ≡ []
unfolding drop
drop_nil zero = refl
drop_nil (suc n) = refl

pub up_to_mark-Around : (mark s : Text) → Around mark s (up_to_mark mark s)
unfolding up_to_mark
up_to_mark-Around mark [] =
    if_cases (Around mark []) (starts_with mark [])
      (λ h. starts_with-IsPrefix mark [] h ∙ ap (λ r. mark ++ r) (drop_nil (length mark))) (λ h. h)
up_to_mark-Around mark (c ∷ s) =
    if_cases (Around mark (c ∷ s)) (starts_with mark (c ∷ s))
      (λ h. starts_with-IsPrefix mark (c ∷ s) h)
      (λ h. later_Around mark c s (up_to_mark mark s) h (up_to_mark-Around mark s))

-- The text found is a prefix, and not empty.
abbrev pub Finds : Text → Option Text → Type 0
Finds s none = Unit
Finds s (some t) = (1 ≤ length t) × IsPrefix t s

prepend-Finds : (c : ℕ) (s : Text) (o : Option Text) → Finds s o → Finds (c ∷ s) (prepend c o)
unfolding drop
prepend-Finds c s none h = tt
prepend-Finds c s (some t) h = (omega arith, ap (λ r. c ∷ r) h.1)

tag_end-Finds : (s : Text) → Finds s (tag_end s)
unfolding tag_end drop
tag_end-Finds [] = tt
tag_end-Finds (c ∷ s) =
    if_both (Finds (c ∷ s)) (c == b'$') (omega arith, refl)
      (if_both (Finds (c ∷ s)) (is_tag_part c) (prepend-Finds c s (tag_end s) (tag_end-Finds s)) tt)

pub dollar_tag-Finds : (s : Text) → Finds (b'$' ∷ s) (dollar_tag s)
unfolding dollar_tag drop
dollar_tag-Finds [] = tt
dollar_tag-Finds (c ∷ s) =
    if_both (Finds (b'$' ∷ c ∷ s)) (c == b'$') (omega arith, refl)
      (if_both (Finds (b'$' ∷ c ∷ s)) (is_tag_start c)
        (prepend-Finds b'$' (c ∷ s) (tag_end (c ∷ s)) (tag_end-Finds (c ∷ s))) tt)
