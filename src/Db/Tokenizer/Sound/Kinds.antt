-- ===== src/Db/Tokenizer/Sound/Kinds.antt =====
-- src/db/tokenizer.ts: how the tokens that a pass of `tokenize` pushes are written, by their kind.
use agent_pipeline_v.Base.{
  ℕ, ◌≡◌, ◌≤◌, refl, sym, Bool, true, ◌&&◌, ◌||◌, not, Option, none, some, [], ◌∷◌, ◌++◌, arith,
  Text, ok, err, is_space, is_empty, all, any, length, inl, inr, ◌==◌, if_both, if_cases, subst,
}
use agent_pipeline_v.Db.Tokenizer.Scan.{
  Piece, extend, is_digit, head_is, first, drop, span, quoted, escaped, comment, dollar_tag,
}
use agent_pipeline_v.Db.Tokenizer.Token.{
  qident, string, open_string, open_identifier, SqlSyntaxError, TokenKind, Unicode, Passed, pass,
  quoted_pass, escaped_pass, string_pass, identifier_pass, comment_pass, skipped_pass, space_pass,
  dash_pass, body_pass, closed_pass, parameter, dollar_case, dollar_pass, plain_pass, word_pass,
  number_pass, number_text, sign, exponent, fraction, operator_span, operator_pass, symbol_pass,
  is_word_start, is_word_part, is_operator, is_punctuation,
}
use agent_pipeline_v.Db.Tokenizer.Pieces.{Finds, dollar_tag-Finds}
use agent_pipeline_v.Db.Tokenizer.Shapes.{Quoted, EscapeQuoted, IsWritten, is_number_unit}

-- The token that a pass pushes is written as its kind says.
abbrev pub PushesWritten : Unicode → Passed → Type 0
PushesWritten u (err e) = Unit
PushesWritten u (ok p) = elim p.pushed [ none ↦ Unit | some t ↦ IsWritten u t.kind t.value t.text ]

abbrev PieceIs : (Text → Text → Type 0) → Option Piece → Type 0
PieceIs Written none = Unit
PieceIs Written (some p) = Written p.value p.text

extend-PieceIs :
    (Written : Text → Text → Type 0) (value text : Text) (o : Option Piece)
    → ((v s : Text) → Written v s → Written (value ++ v) (text ++ s))
    → PieceIs Written o
    → PieceIs Written (extend value text o)
extend-PieceIs Written value text none k h = tt
extend-PieceIs Written value text (some p) k h = k p.value p.text h

quoted-PieceIs : (q : ℕ) (s : Text) → PieceIs (Quoted q) (quoted q s)
unfolding quoted
quoted-PieceIs q [] = tt
quoted-PieceIs q (c ∷ []) = if_cases (PieceIs (Quoted q)) (c == q) (λ h. Quoted.end h) (λ n. tt)
quoted-PieceIs q (c ∷ d ∷ s) =
    let P = PieceIs (Quoted q) in
    if_cases P (c == q && d == q)
      (λ h.
        extend-PieceIs (Quoted q) (q ∷ []) (c ∷ d ∷ []) (quoted q s) (λ v r k. Quoted.pair h k)
          (quoted-PieceIs q s))
      (λ m.
        if_cases P (c == q) (λ h. Quoted.end h)
          (λ n.
            extend-PieceIs (Quoted q) (c ∷ []) (c ∷ []) (quoted q (d ∷ s))
              (λ v r k. Quoted.other n k) (quoted-PieceIs q (d ∷ s))))

escaped-PieceIs : (s : Text) → PieceIs EscapeQuoted (escaped s)
unfolding escaped
escaped-PieceIs [] = tt
escaped-PieceIs (c ∷ []) =
    if_cases (PieceIs EscapeQuoted) (c == b'\'') (λ h. EscapeQuoted.end h) (λ n. tt)
escaped-PieceIs (c ∷ d ∷ s) =
    let P = PieceIs EscapeQuoted in
    if_cases P (c == b'\\')
      (λ h.
        extend-PieceIs EscapeQuoted (d ∷ []) (c ∷ d ∷ []) (escaped s)
          (λ v r k. EscapeQuoted.after h k) (escaped-PieceIs s))
      (λ b.
        if_cases P (c == b'\'' && d == b'\'')
          (λ h.
            extend-PieceIs EscapeQuoted (c ∷ []) (c ∷ d ∷ []) (escaped s)
              (λ v r k. EscapeQuoted.pair h k) (escaped-PieceIs s))
          (λ m.
            if_cases P (c == b'\'') (λ h. EscapeQuoted.end h)
              (λ n.
                extend-PieceIs EscapeQuoted (c ∷ []) (c ∷ []) (escaped (d ∷ s))
                  (λ v r k. EscapeQuoted.other n b k) (escaped-PieceIs (d ∷ s)))))

quoted_pass-PushesWritten :
    (u : Unicode) (Written : Text → Text → Type 0) (kind : TokenKind) (e : SqlSyntaxError)
    (start : Text) (line : ℕ) (o : Option Piece)
    → ((v s : Text) → Written v s → IsWritten u kind v (start ++ s))
    → PieceIs Written o
    → PushesWritten u (quoted_pass kind e start line o)
quoted_pass-PushesWritten u Written kind e start line none k h = tt
quoted_pass-PushesWritten u Written kind e start line (some p) k h = k p.value p.text h

all-append : (p : ℕ → Bool) (s t : Text) → all p s ≡ true → all p t ≡ true → all p (s ++ t) ≡ true
unfolding all
all-append p [] t h k = k
all-append p (c ∷ s) t h k = ground (arith, all-append p s t)

all-span :
    (p q : ℕ → Bool) (s : Text) → ((c : ℕ) → p c ≡ true → q c ≡ true) → all q (span p s) ≡ true
unfolding all span
all-span p q [] k = refl
all-span p q (c ∷ s) k =
    if_cases (λ t. all q t ≡ true) (p c) (λ h. ground (arith, k c h, all-span p q s k)) (λ n. refl)

skipped_pass-PushesWritten :
    (u : Unicode) (line : ℕ) (o : Option (ℕ × Text)) → PushesWritten u (skipped_pass line o)
skipped_pass-PushesWritten u line none = tt
skipped_pass-PushesWritten u line (some p) = tt

closed_pass-PushesWritten :
    (u : Unicode) (mark : Text) (line : ℕ) (o : Option (Text × Text))
    → 1 ≤ length mark
    → PushesWritten u (closed_pass mark line o)
closed_pass-PushesWritten u mark line none m = tt
closed_pass-PushesWritten u mark line (some p) m = inr (inr (mark, refl, m))

word_pass-PushesWritten :
    (u : Unicode) (line c : ℕ) (s : Text)
    → is_word_start u c ≡ true
    → PushesWritten u (word_pass u line c s)
unfolding word_pass is_word_start is_word_part all
word_pass-PushesWritten u line c s h =
    let rest =
      all-span (is_word_part u) (λ x. is_word_part u x || is_digit x) s (λ x k. ground arith) in
    (ground arith, inl refl)

sign-is_number_unit : (s : Text) → all is_number_unit (sign s) ≡ true
unfolding sign first all
sign-is_number_unit [] = refl
sign-is_number_unit (c ∷ s) = ground arith

digits-is_number_unit : (s : Text) → all is_number_unit (span is_digit s) ≡ true
digits-is_number_unit s = all-span is_digit is_number_unit s (λ c h. ground arith)

exponent-is_number_unit : (s : Text) → all is_number_unit (exponent s) ≡ true
unfolding exponent all
exponent-is_number_unit [] = refl
exponent-is_number_unit (e ∷ s) =
    let after = drop (length (sign s)) s in
    if_cases (λ t. all is_number_unit t ≡ true)
      ((e == b'e' || e == b'E') && not (is_empty (span is_digit after)))
      (λ h. ground (
        arith,
        all-append is_number_unit (sign s) (span is_digit after),
        sign-is_number_unit s,
        digits-is_number_unit after,
      ))
      (λ n. refl)

fraction-is_number_unit : (s : Text) → all is_number_unit (fraction s) ≡ true
unfolding fraction all
fraction-is_number_unit [] = refl
fraction-is_number_unit (c ∷ s) =
    if_cases (λ t. all is_number_unit t ≡ true) (c == b'.')
      (λ h. ground (arith, digits-is_number_unit s)) (λ n. refl)

number_text-is_number_unit : (s : Text) → all is_number_unit (number_text s) ≡ true
unfolding number_text
number_text-is_number_unit s =
    let whole = span is_digit s in
    let after = drop (length whole) s in
    let power = exponent (drop (length (fraction after)) after) in
    all-append is_number_unit whole (fraction after ++ power) (digits-is_number_unit s) (
      all-append is_number_unit (fraction after) power (fraction-is_number_unit after)
        (exponent-is_number_unit (drop (length (fraction after)) after)))

number_pass-PushesWritten :
    (u : Unicode) (line : ℕ) (s : Text) → PushesWritten u (number_pass line s)
unfolding number_pass
number_pass-PushesWritten u line s = (number_text-is_number_unit (first 64 s), refl)

operator_span-is_operator : (s : Text) → all is_operator (operator_span s) ≡ true
unfolding operator_span all
operator_span-is_operator [] = refl
operator_span-is_operator (c ∷ s) =
    if_cases (λ t. all is_operator t ≡ true) (is_operator c && not _)
      (λ h. ground (arith, operator_span-is_operator s)) (λ n. refl)

operator_pass-PushesWritten :
    (u : Unicode) (line c : ℕ) (s : Text)
    → is_operator c ≡ true
    → PushesWritten u (operator_pass line c s)
unfolding operator_pass all
operator_pass-PushesWritten u line c s h = (inl (ground (arith, operator_span-is_operator s)), refl)

plain_pass-PushesWritten :
    (u : Unicode) (line c : ℕ) (s : Text) → PushesWritten u (plain_pass u line c s)
unfolding plain_pass symbol_pass all
plain_pass-PushesWritten u line c s =
    let P = PushesWritten u in
    if_cases P (is_word_start u c) (λ h. word_pass-PushesWritten u line c s h)
      (λ n.
        if_both P (is_digit c || (c == b'.' && any is_digit (first 1 s)))
          (number_pass-PushesWritten u line (c ∷ s))
          (if_cases P (is_punctuation c) (λ h. (ground arith, refl, refl))
            (λ m.
              if_cases P (is_operator c) (λ h. operator_pass-PushesWritten u line c s h)
                (λ k. (inr refl, refl)))))

abbrev OfWord : Unicode → Option Text → Type 0
OfWord u none = Unit
OfWord u (some t) = all (λ c. is_word_part u c || is_digit c) t ≡ true

dollar_case-PushesWritten :
    (u : Unicode) (line : ℕ) (s : Text) (found text : Option Text)
    → Finds (b'$' ∷ first 63 s) found
    → OfWord u text
    → PushesWritten u (dollar_case u line b'$' s found text)
unfolding body_pass
dollar_case-PushesWritten u line s (some mark) text f g =
    closed_pass-PushesWritten u mark line _ f.0
dollar_case-PushesWritten u line s none (some text) f g = (g, inr refl)
dollar_case-PushesWritten u line s none none f g = plain_pass-PushesWritten u line b'$' s

parameter-word : (u : Unicode) (s : Text) → OfWord u (parameter s)
unfolding parameter all is_word_part
parameter-word u s =
    let digits = span is_digit (first 11 s) in
    let rest =
      all-span is_digit (λ c. is_word_part u c || is_digit c) (first 11 s) (λ c k. ground arith) in
    if_both (OfWord u) (is_empty digits) tt (ground arith)

at_dollar : (c : ℕ) → (c == b'$') ≡ true → c ≡ b'$'
at_dollar c h = ground arith

pub pass-PushesWritten : (u : Unicode) (line c : ℕ) (s : Text) → PushesWritten u (pass u line c s)
unfolding pass escaped_pass comment_pass space_pass dash_pass string_pass identifier_pass
    dollar_pass
pass-PushesWritten u line c s =
    let P = PushesWritten u in
    if_both P (c == b'\n') tt (
      if_both P (is_space c) tt (
        if_both P (c == b'-' && head_is b'-' s) tt (
          if_both P (c == b'/' && head_is b'*' s)
            (skipped_pass-PushesWritten u line (comment 0 line (c ∷ s)))
            (if_cases P ((c == b'E' || c == b'e') && head_is b'\'' s)
              (λ h.
                quoted_pass-PushesWritten u EscapeQuoted string (open_string line) (c ∷ b'\'' ∷ [])
                  line (escaped (drop 1 s)) (λ v r k. inr (inl (c, r, refl, ground arith, k)))
                  (escaped-PieceIs (drop 1 s)))
              (λ n.
                if_both P (c == b'\'')
                  (quoted_pass-PushesWritten u (Quoted b'\'') string (open_string line) (b'\'' ∷ [])
                    line (quoted b'\'' s) (λ v r k. inl (r, refl, k)) (quoted-PieceIs b'\'' s))
                  (if_both P (c == b'"')
                    (quoted_pass-PushesWritten u (Quoted b'"') qident (open_identifier line)
                      (b'"' ∷ []) line (quoted b'"' s) (λ v r k. (r, refl, k))
                      (quoted-PieceIs b'"' s))
                    (if_cases P (c == b'$')
                      (λ h.
                        subst
                          (λ x. P (dollar_case u line x s (dollar_tag (first 63 s)) (parameter s)))
                          (sym (at_dollar c h))
                          (dollar_case-PushesWritten u line s (dollar_tag (first 63 s))
                            (parameter s) (dollar_tag-Finds (first 63 s)) (parameter-word u s)))
                      (λ m. plain_pass-PushesWritten u line c s))))))))
