-- ===== src/Db/Tokenizer/Sound/Tokens.antt =====
-- src/db/tokenizer.ts: each kind of token, and the choice of `tokenize` between them.
use agent_pipeline_v.Base.{
  ℕ, ◌≡◌, ◌≤◌, refl, ap, subst, true, false, ◌&&◌, ◌||◌, not, [], ◌∷◌, ◌++◌, arith, Text, is_empty,
  any, length, ◌==◌, if_both, if_cases, Bool-cases, inl, inr,
}
use agent_pipeline_v.Db.Tokenizer.Scan.{is_digit, first, drop, span}
use agent_pipeline_v.Db.Tokenizer.Token.{
  TokenKind, word, number, punct, op, Unicode, is_word_part, is_word_start, is_operator,
  is_punctuation, word_pass, exponent, number_text, number_pass, sign, fraction, operator_span,
  operator_pass, symbol_pass, plain_pass,
}
use agent_pipeline_v.Db.Tokenizer.Shapes.{newlines}
use agent_pipeline_v.Db.Tokenizer.Pieces.{
  newlines-append, IsPrefix, span-IsPrefix, first-IsPrefix, append-IsPrefix, newlines-span,
}
use agent_pipeline_v.Db.Tokenizer.Sound.{IsUnicode, Sound, take_token-Sound}

word_pass-Sound :
    (u : Unicode) (line c : ℕ) (s : Text)
    → IsUnicode u
    → (c == b'\n') ≡ false
    → Sound line (c ∷ s) (word_pass u line c s)
unfolding word_pass drop is_word_part
word_pass-Sound u line c s i n =
    let t = span (is_word_part u) s in
    let no : is_word_part u b'\n' ≡ false = ground (arith, i.no_letter, i.no_numeral) in
    take_token-Sound word (u.lower (c ∷ t)) (c ∷ t) line (c ∷ s)
      (ap (λ r. c ∷ r) (span-IsPrefix (is_word_part u) s))
      (ground (arith, newlines-span (is_word_part u) s no)) (omega arith)

symbol_pass-Sound :
    (kind : TokenKind) (line c : ℕ) (s : Text)
    → (c == b'\n') ≡ false
    → Sound line (c ∷ s) (symbol_pass kind line c s)
unfolding symbol_pass
symbol_pass-Sound kind line c s n = record {
  text = c ∷ [];
  parts = refl;
  lines = ground arith;
  moves = omega arith;
  token = (refl, refl);
}

operator_span-IsPrefix : (s : Text) → IsPrefix (operator_span s) s
unfolding operator_span drop
operator_span-IsPrefix [] = refl
operator_span-IsPrefix (c ∷ s) =
    if_both (λ t. IsPrefix t (c ∷ s)) (is_operator c && not _)
      (ap (λ r. c ∷ r) (operator_span-IsPrefix s)) refl

operator_on_line : (c : ℕ) → is_operator c ≡ true → (c == b'\n') ≡ false
unfolding is_operator any
operator_on_line c h = elim (Bool-cases (c == b'\n')) [
  | inl e ↦
      (let here : c ≡ b'\n' = ground arith in
        let k : is_operator b'\n' ≡ true = subst (λ x. is_operator x ≡ true) here h in
        absurd (ground arith))
  | inr n ↦ n
]

newlines-operator_span : (s : Text) → newlines (operator_span s) ≡ 0
unfolding operator_span
newlines-operator_span [] = refl
newlines-operator_span (c ∷ s) =
    if_cases (λ t. newlines t ≡ 0) (is_operator c && not _)
      (λ h. ground (arith, operator_on_line c, newlines-operator_span s)) (λ h. refl)

operator_pass-Sound :
    (line c : ℕ) (s : Text) → (c == b'\n') ≡ false → Sound line (c ∷ s) (operator_pass line c s)
unfolding operator_pass drop
operator_pass-Sound line c s n =
    let t = c ∷ operator_span s in
    take_token-Sound op t t line (c ∷ s) (ap (λ r. c ∷ r) (operator_span-IsPrefix s))
      (ground (arith, newlines-operator_span s)) (omega arith)

sign-IsPrefix : (s : Text) → IsPrefix (sign s) s
unfolding sign first drop
sign-IsPrefix [] = refl
sign-IsPrefix (c ∷ s) = if_both (λ t. IsPrefix t (c ∷ s)) (c == b'+' || c == b'-') refl refl

newlines-sign : (s : Text) → newlines (sign s) ≡ 0
unfolding sign first
newlines-sign [] = refl
newlines-sign (c ∷ s) = ground arith

exponent-IsPrefix : (s : Text) → IsPrefix (exponent s) s
unfolding exponent drop
exponent-IsPrefix [] = refl
exponent-IsPrefix (e ∷ s) =
    let digits = span is_digit (drop (length (sign s)) s) in
    if_both (λ t. IsPrefix t (e ∷ s)) ((e == b'e' || e == b'E') && not (is_empty digits))
      (ap (λ r. e ∷ r)
        (append-IsPrefix (sign s) digits s (sign-IsPrefix s)
          (span-IsPrefix is_digit (drop (length (sign s)) s))))
      refl

pub newlines-digits : (s : Text) → newlines (span is_digit s) ≡ 0
newlines-digits s = newlines-span is_digit s refl

newlines-exponent : (s : Text) → newlines (exponent s) ≡ 0
unfolding exponent
newlines-exponent [] = refl
newlines-exponent (e ∷ s) =
    let digits = span is_digit (drop (length (sign s)) s) in
    if_cases (λ t. newlines t ≡ 0) ((e == b'e' || e == b'E') && not (is_empty digits))
      (λ h. ground (
        arith,
        newlines-append (sign s) digits,
        newlines-sign s,
        newlines-digits (drop (length (sign s)) s),
      ))
      (λ h. refl)

fraction-IsPrefix : (s : Text) → IsPrefix (fraction s) s
unfolding fraction drop
fraction-IsPrefix [] = refl
fraction-IsPrefix (c ∷ s) =
    if_both (λ t. IsPrefix t (c ∷ s)) (c == b'.') (ap (λ r. c ∷ r) (span-IsPrefix is_digit s)) refl

newlines-fraction : (s : Text) → newlines (fraction s) ≡ 0
unfolding fraction
newlines-fraction [] = refl
newlines-fraction (c ∷ s) =
    if_cases (λ t. newlines t ≡ 0) (c == b'.') (λ h. ground (arith, newlines-digits s)) (λ h. refl)

number_text-IsPrefix : (s : Text) → IsPrefix (number_text s) s
unfolding number_text
number_text-IsPrefix s =
    let whole = span is_digit s in
    let after = drop (length whole) s in
    append-IsPrefix whole _ s (span-IsPrefix is_digit s) (
      append-IsPrefix (fraction after) _ after (fraction-IsPrefix after)
        (exponent-IsPrefix (drop (length (fraction after)) after)))

newlines-number_text : (s : Text) → newlines (number_text s) ≡ 0
unfolding number_text
newlines-number_text s =
    let whole = span is_digit s in
    let after = drop (length whole) s in
    let power = exponent (drop (length (fraction after)) after) in
    ground (
      arith,
      newlines-append whole (fraction after ++ power),
      newlines-append (fraction after) power,
      newlines-digits s,
      newlines-fraction after,
      newlines-exponent (drop (length (fraction after)) after),
    )

number_text-moves :
    (c : ℕ) (s : Text) → is_digit c || c == b'.' ≡ true → 1 ≤ length (number_text (c ∷ s))
unfolding number_text span drop fraction
number_text-moves c s h = elim (Bool-cases (is_digit c)) [
  | inl d ↦ rw d (omega arith)
  | inr n ↦ (let point : (c == b'.') ≡ true = ground arith in rw n (rw point (omega arith)))
]

number_pass-Sound :
    (line c : ℕ) (s : Text)
    → is_digit c || c == b'.' ≡ true
    → Sound line (c ∷ s) (number_pass line (c ∷ s))
unfolding number_pass first
number_pass-Sound line c s h =
    let t = number_text (c ∷ first 63 s) in
    take_token-Sound number t t line (c ∷ s)
      (first-IsPrefix 64 t (c ∷ s) (number_text-IsPrefix (c ∷ first 63 s)))
      (newlines-number_text (c ∷ first 63 s)) (number_text-moves c (first 63 s) h)

pub plain_pass-Sound :
    (u : Unicode) (line c : ℕ) (s : Text)
    → IsUnicode u
    → (c == b'\n') ≡ false
    → Sound line (c ∷ s) (plain_pass u line c s)
unfolding plain_pass
plain_pass-Sound u line c s i n =
    let P = Sound line (c ∷ s) in
    if_both P (is_word_start u c) (word_pass-Sound u line c s i n) (
      if_cases P (is_digit c || (c == b'.' && any is_digit (first 1 s)))
        (λ h. number_pass-Sound line c s (ground arith))
        (λ h. if_both P (is_punctuation c) (symbol_pass-Sound punct line c s n) (
          if_both P (is_operator c) (operator_pass-Sound line c s n)
            (symbol_pass-Sound op line c s n))))
