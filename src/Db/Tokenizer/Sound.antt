-- ===== src/Db/Tokenizer/Sound.antt =====
-- src/db/tokenizer.ts: what one pass of the loop of `tokenize` does, whichever token it meets.
pub mod Tokens
pub mod Passes
pub mod Kinds
pub mod Loop
use agent_pipeline_v.Base.{
  ℕ, zero, suc, ◌+◌, ◌≡◌, ◌≤◌, refl, ap, sym, subst, ◌∙◌, Bool, true, false, ◌&&◌, ◌||◌, not,
  Option, none, some, List, [], ◌∷◌, ◌++◌, arith, Text, Result, ok, err, is_space, is_empty, any,
  length, length-append, leb, ◌==◌, if◌then◌else◌, if_both, if_cases, Bool-cases, Option-cases, inl,
  inr,
}
use agent_pipeline_v.Db.Tokenizer.Scan.{
  Piece, is_digit, head_is, first, drop, span, quoted, escaped, comment, line_end, dollar_tag,
  up_to_mark,
}
use agent_pipeline_v.Db.Tokenizer.Token.{
  Token, TokenKind, word, qident, string, number, punct, op, SqlSyntaxError, open_comment,
  open_string, open_identifier, open_body, out_of_fuel, Unicode, Pass, Passed, count_lines,
  is_word_part, is_word_start, is_operator, is_punctuation, space_pass, dash_pass, comment_pass,
  escaped_pass, string_pass, identifier_pass, take_token, body_pass, parameter, word_pass, exponent,
  number_text, number_pass, operator_span, operator_pass, symbol_pass, plain_pass, dollar_pass,
  pass, quoted_pass, skipped_pass, closed_pass, dollar_case,
}
use agent_pipeline_v.Db.Tokenizer.Shapes.{newlines, IsGap, Unclosed, opens_dashes}
use agent_pipeline_v.Db.Tokenizer.Comments.{Skips, comment-Skips, Comment-moves}
use agent_pipeline_v.Db.Tokenizer.Pieces.{
  count_lines-newlines, newlines-append, IsPrefix, span-IsPrefix, first-IsPrefix, append-IsPrefix,
  newlines-span, line_end-parts, Parts, quoted-Parts, escaped-Parts, Around, up_to_mark-Around,
  append_assoc, Finds, dollar_tag-Finds,
}

-- The runtime's tables take a line feed for no letter and no number.
pub record IsUnicode (u : Unicode) : Type 0 where
  pub no_letter : u.letter b'\n' ≡ false
  pub no_numeral : u.numeral b'\n' ≡ false

-- White space, or the opening of a comment.
abbrev pub opens_gap : Text → Bool
opens_gap [] = false
opens_gap (c ∷ s) = is_space c || (c == b'-' && head_is b'-' s) || (c == b'/' && head_is b'*' s)

-- A token pushed has the text that was gone over, and its line; nothing else than a gap gives none.
abbrev pub IsToken : ℕ → Text → Text → Option Token → Type 0
IsToken line rest text none = IsGap rest text
IsToken line rest text (some t) = (t.text ≡ text) × (t.line ≡ line)

pub record Follows (line : ℕ) (s : Text) (p : Pass) : Type 0 where
  pub text : Text
  pub parts : s ≡ text ++ p.rest
  pub lines : p.line ≡ line + newlines text
  pub moves : 1 ≤ length text
  pub token : IsToken line p.rest text p.pushed

abbrev pub line_of : SqlSyntaxError → Option ℕ
line_of (open_comment l) = some l
line_of (open_string l) = some l
line_of (open_identifier l) = some l
line_of (open_body mark l) = some l
line_of out_of_fuel = none

-- The pass goes over a text at the head of `s`, or fails with the line at which it starts, on a text
-- that is not closed.
abbrev pub Sound : ℕ → Text → Passed → Type 0
Sound line s (ok p) = Follows line s p
Sound line s (err e) = (line_of e ≡ some line) × Unclosed e s

pub space_pass-Sound :
    (line to : ℕ) (c : ℕ) (s : Text)
    → is_space c ≡ true
    → to ≡ line + newlines (c ∷ [])
    → Sound line (c ∷ s) (space_pass to s)
unfolding space_pass
space_pass-Sound line to c s g h = record {
  text = c ∷ [];
  parts = refl;
  lines = h;
  moves = omega arith;
  token = IsGap.space g;
}

pub dash_pass-Sound :
    (line c : ℕ) (s : Text)
    → opens_dashes (c ∷ s) ≡ true
    → Sound line (c ∷ s) (dash_pass line (c ∷ s))
unfolding dash_pass line_end
dash_pass-Sound line c [] h = absurd (ground arith)
dash_pass-Sound line c (d ∷ s) h =
    let (t, e, n, l) = line_end-parts s in
    let P : Text → Type 0 =
      λ r. Follows line (c ∷ d ∷ s) (record { pushed = none; line = line; rest = r }) in
    if_cases P (c == b'\n') (λ k. absurd (ground arith))
      (λ k.
        if_cases P (d == b'\n') (λ k. absurd (ground arith))
          (λ k. record {
            text = c ∷ d ∷ t;
            parts = ap (λ r. c ∷ d ∷ r) e;
            lines = ground arith;
            moves = omega arith;
            token = IsGap.dashes (ground arith) (ground arith) l;
          }))

pub skipped_pass-Sound :
    (line : ℕ) (s : Text) (o : Option (ℕ × Text))
    → Skips 0 line s o
    → Sound line s (skipped_pass line o)
skipped_pass-Sound line s none k = (refl, k)
skipped_pass-Sound line s (some p) k = record {
  text = k.text;
  parts = k.parts;
  lines = k.lines;
  moves = Comment-moves k.shape;
  token = IsGap.comment k.shape;
}

-- What is gone over after a mark is the piece that was found.
pub quoted_pass-Sound :
    (Open : Text → Type 0) (kind : TokenKind) (e : SqlSyntaxError) (c : ℕ) (mark : Text) (line : ℕ)
    (s : Text) (o : Option Piece)
    → line_of e ≡ some line
    → (Open s → Unclosed e (c ∷ (mark ++ s)))
    → Parts Open s o
    → Sound line (c ∷ (mark ++ s)) (quoted_pass kind e (c ∷ mark) line o)
quoted_pass-Sound Open kind e c mark line s none h u k = (h, u k)
quoted_pass-Sound Open kind e c mark line s (some p) h u k = record {
  text = c ∷ (mark ++ p.text);
  parts = ap (λ r. c ∷ (mark ++ r)) k ∙ append_assoc (c ∷ mark) p.text p.rest;
  lines = count_lines-newlines line (c ∷ (mark ++ p.text));
  moves = omega arith;
  token = (refl, refl);
}

-- A token that is a prefix with no line feed in it.
pub take_token-Sound :
    (kind : TokenKind) (value text : Text) (line : ℕ) (s : Text)
    → IsPrefix text s
    → newlines text ≡ 0
    → 1 ≤ length text
    → Sound line s (take_token kind value text line s)
take_token-Sound kind value text line s h n m = record {
  text = text;
  parts = h;
  lines = omega arith;
  moves = m;
  token = (refl, refl);
}

pub closed_pass-Sound :
    (mark : Text) (line : ℕ) (s : Text) (o : Option (Text × Text))
    → 1 ≤ length mark
    → IsPrefix mark s
    → Around mark (drop (length mark) s) o
    → Sound line s (closed_pass mark line o)
closed_pass-Sound mark line s none m h k = (refl, (drop (length mark) s, h, m, k))
closed_pass-Sound mark line s (some p) m h k = record {
  text = mark ++ p.0 ++ mark;
  parts =
      h
      ∙ ap (λ r. mark ++ r) k
      ∙ append_assoc mark p.0 (mark ++ p.1)
      ∙ append_assoc (mark ++ p.0) mark p.1;
  lines = count_lines-newlines line (mark ++ p.0 ++ mark);
  moves = ground (arith, length-append (mark ++ p.0) mark);
  token = (refl, refl);
}
