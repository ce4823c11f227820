-- ===== src/Db/Tokenizer/Sound/Loop.antt =====
-- src/db/tokenizer.ts: the loop of `tokenize`.
use agent_pipeline_v.Base.{
  ℕ, zero, suc, Bool-cases, inl, inr, false, ◌+◌, ◌≡◌, ◌≤◌, ap, sym, subst, ◌∙◌, true, Option, none,
  some, List, [], ◌∷◌, ◌++◌, arith, Text, Result, ok, err, ◌>>=◌, length, length-append,
}
use agent_pipeline_v.Db.Tokenizer.Token.{
  Token, SqlSyntaxError, Unicode, Pass, pass, push, tokenize_on, tokenize,
}
use agent_pipeline_v.Db.Tokenizer.Shapes.{newlines, IsGap, Unclosed, IsWritten}
use agent_pipeline_v.Db.Tokenizer.Sound.Kinds.{PushesWritten, pass-PushesWritten}
use agent_pipeline_v.Db.Tokenizer.Sound.{IsUnicode, opens_gap, Follows, line_of, Sound}
use agent_pipeline_v.Db.Tokenizer.Sound.Passes.{PushesNone, pass-PushesNone, pass-Sound}

-- From `line` and the text `s` the tokens are read up to the line `to` and the text `rest`: one after the
-- other, each at the head of what is left, at no white space and no comment, written as
-- its kind says, and with the line that is reached, white space and comments between them.
pub data Reads (u : Unicode) : ℕ → Text → List Token → ℕ → Text → Type 0 where
  stop : {line : ℕ} {s : Text} → Reads u line s [] line s
  gap :
      {line to : ℕ} {s rest : Text} {ts : List Token} (text r : Text)
      → s ≡ text ++ r
      → IsGap r text
      → Reads u (line + newlines text) r ts to rest
      → Reads u line s ts to rest
  token :
      {line to : ℕ} {s rest : Text} {t : Token} {ts : List Token} (r : Text)
      → opens_gap s ≡ false
      → s ≡ t.text ++ r
      → 1 ≤ length t.text
      → t.line ≡ line
      → IsWritten u t.kind t.value t.text
      → Reads u (line + newlines t.text) r ts to rest
      → Reads u line s (t ∷ ts) to rest

-- Where an error stops the loop.
pub record Broken (u : Unicode) (line : ℕ) (s : Text) (e : SqlSyntaxError) : Type 0 where
  pub tokens : List Token
  pub to : ℕ
  pub rest : Text
  pub reads : Reads u line s tokens to rest
  pub at : line_of e ≡ some to
  pub unclosed : Unclosed e rest

abbrev ReadFrom : Unicode → ℕ → Text → Result SqlSyntaxError (List Token) → Type 0
ReadFrom u line s (ok ts) = (to : ℕ) × Reads u line s ts to []
ReadFrom u line s (err e) = Broken u line s e

read_on :
    (u : Unicode) {line to : ℕ} {s rest : Text} {ts : List Token} (pushed : Option Token)
    (after : ℕ) (r : Text)
    → (opens_gap s ≡ true → pushed ≡ none)
    → PushesWritten u (ok (record { pushed = pushed; line = after; rest = r }))
    → Follows line s (record { pushed = pushed; line = after; rest = r })
    → Reads u after r ts to rest
    → Reads u line s (push pushed ts) to rest
read_on u {line} {to} {s} {rest} {ts} none after r n w f k =
    gap f.text r f.parts f.token (subst (λ l. Reads u l r ts to rest) f.lines k)
read_on u {line} {to} {s} {rest} {ts} (some t) after r n w f k =
    let same : f.text ≡ t.text = sym f.token.0 in
    let starts : opens_gap s ≡ false = elim (Bool-cases (opens_gap s)) [
      | inl h ↦ absurd (ground (arith, n h))
      | inr h ↦ h
    ] in
    token r starts (f.parts ∙ ap (λ x. x ++ r) same) (subst (λ x. 1 ≤ length x) same f.moves)
      f.token.1 w
      (subst (λ x. Reads u (line + newlines x) r ts to rest) same
        (subst (λ l. Reads u l r ts to rest) f.lines k))

after_push :
    (u : Unicode) (line : ℕ) (s : Text) (p : Pass) (r : Result SqlSyntaxError (List Token))
    → (opens_gap s ≡ true → p.pushed ≡ none)
    → PushesWritten u (ok p)
    → Follows line s p
    → ReadFrom u p.line p.rest r
    → ReadFrom u line s (r >>= λ ts. ok (push p.pushed ts))
after_push u line s p (ok ts) n w f (to, k) = (to, read_on u p.pushed p.line p.rest n w f k)
after_push u line s p (err e) n w f b = record {
  tokens = push p.pushed b.tokens;
  to = b.to;
  rest = b.rest;
  reads = read_on u p.pushed p.line p.rest n w f b.reads;
  at = b.at;
  unclosed = b.unclosed;
}

after_pass :
    (u : Unicode) (fuel line c : ℕ) (s : Text) (o : Result SqlSyntaxError Pass)
    → (opens_gap (c ∷ s) ≡ true → PushesNone o)
    → PushesWritten u o
    → Sound line (c ∷ s) o
    → ((p : Pass)
        → length p.rest ≤ length s
        → ReadFrom u p.line p.rest (tokenize_on u fuel p.line p.rest))
    → ReadFrom u line
        (c ∷ s)
        (o >>= λ p. tokenize_on u fuel p.line p.rest >>= λ ts. ok (push p.pushed ts))
after_pass u fuel line c s (ok p) n w f k =
    let shorter : length p.rest ≤ length s =
      omega (arith, length-append f.text p.rest, f.moves, ap (λ x. length x) f.parts) in
    after_push u line (c ∷ s) p (tokenize_on u fuel p.line p.rest) n w f (k p shorter)
after_pass u fuel line c s (err e) n w f k = record {
  tokens = [];
  to = line;
  rest = c ∷ s;
  reads = stop;
  at = f.0;
  unclosed = f.1;
}

loop-ReadFrom :
    (u : Unicode) (fuel line : ℕ) (s : Text)
    → IsUnicode u
    → length s ≤ fuel
    → ReadFrom u line s (tokenize_on u fuel line s)
unfolding tokenize_on
loop-ReadFrom u fuel line [] i h = (line, stop)
loop-ReadFrom u zero line (c ∷ s) i h = absurd (omega arith)
loop-ReadFrom u (suc fuel) line (c ∷ s) i h =
    after_pass u fuel line c s (pass u line c s) (pass-PushesNone u line c s)
      (pass-PushesWritten u line c s) (pass-Sound u line c s i)
      (λ p m. loop-ReadFrom u fuel p.line p.rest i (omega arith))

-- If the runtime's tables take a line feed for no letter and no number, and `tokenize` throws, the
-- text before the place of the error is read as tokens, and the line of the error is the line of that
-- place. The text there opens what the error names, a comment, a string, a quoted identifier or a body
-- with that mark, and has no end of it. The bound on the passes is never met.
pub tokenize-Broken :
    (u : Unicode) (sql : Text) (e : SqlSyntaxError)
    → IsUnicode u
    → tokenize u sql ≡ err e
    → Broken u 1 sql e
unfolding tokenize
tokenize-Broken u sql e i h =
    subst (ReadFrom u 1 sql) h (loop-ReadFrom u (length sql) 1 sql i (omega arith))
