-- ===== src/Db/Tokenizer/Shapes.antt =====
-- src/db/tokenizer.ts: how SQL writes what `tokenize` goes over: white space, comments, and the texts in
-- quotes that are not closed. These are the descriptions that its loops are compared with.
use agent_pipeline_v.Base.{
  ℕ, suc, ◌+◌, ◌≡◌, ◌≤◌, ◌⊎◌, Bool, true, false, ◌&&◌, ◌||◌, [], ◌∷◌, ◌++◌, Text, starts_with,
  is_space, length, all, ◌==◌, if◌then◌else◌,
}
use agent_pipeline_v.Db.Tokenizer.Scan.{head_is, is_digit}
use agent_pipeline_v.Db.Tokenizer.Token.{
  SqlSyntaxError, open_comment, open_string, open_identifier, open_body, out_of_fuel, Unicode,
  TokenKind, word, qident, string, number, punct, op, is_word_part, is_operator, is_punctuation,
}

abbrev pub newlines : Text → ℕ
newlines [] = 0
newlines (c ∷ s) = (if c == b'\n' then 1 else 0) + newlines s

-- `/*` and `*/` at the head of a text.
abbrev pub opens_comment : ℕ → Text → Bool
opens_comment c s = c == b'/' && head_is b'*' s

abbrev pub closes_comment : ℕ → Text → Bool
closes_comment c s = c == b'*' && head_is b'/' s

-- A text inside n comments, one in the other: up to the end of the outer one where it is whole, and
-- with no such end where it is not. Inside no comment, it opens one.
pub data Comment (whole : Bool) : ℕ → Text → Type 0 where
  last : {c d : ℕ} → whole ≡ true → closes_comment c (d ∷ []) ≡ true → Comment whole 1 (c ∷ d ∷ [])
  cut : {n : ℕ} → whole ≡ false → Comment whole (suc n) []
  enters :
      {n c d : ℕ} {s : Text}
      → opens_comment c (d ∷ s) ≡ true
      → Comment whole (suc n) s
      → Comment whole n (c ∷ d ∷ s)
  leaves :
      {n c d : ℕ} {s : Text}
      → closes_comment c (d ∷ s) ≡ true
      → Comment whole (suc n) s
      → Comment whole (suc (suc n)) (c ∷ d ∷ s)
  other :
      {n c : ℕ} {s : Text}
      → opens_comment c s || closes_comment c s ≡ false
      → Comment whole (suc n) s
      → Comment whole (suc n) (c ∷ s)

-- The end of the text, or a line feed.
abbrev pub is_line_end : Text → Bool
is_line_end [] = true
is_line_end (c ∷ s) = c == b'\n'

abbrev pub opens_dashes : Text → Bool
opens_dashes [] = false
opens_dashes (c ∷ s) = c == b'-' && head_is b'-' s

-- What is between two tokens, before the text `rest`: one white space, a -- comment up to the end of its
-- line, or a whole comment.
pub data IsGap (rest : Text) : Text → Type 0 where
  space : {c : ℕ} → is_space c ≡ true → IsGap rest (c ∷ [])
  dashes :
      {text : Text}
      → opens_dashes text ≡ true
      → newlines text ≡ 0
      → is_line_end rest ≡ true
      → IsGap rest text
  comment : {text : Text} → Comment true 0 text → IsGap rest text

-- A text in which every quote is doubled.
pub data Doubled (q : ℕ) : Text → Type 0 where
  nil : Doubled q []
  pair : {c d : ℕ} {s : Text} → c == q && d == q ≡ true → Doubled q s → Doubled q (c ∷ d ∷ s)
  other : {c : ℕ} {s : Text} → (c == q) ≡ false → Doubled q s → Doubled q (c ∷ s)

-- A text in which every quote is doubled or stands after a backslash.
pub data Escaped : Text → Type 0 where
  nil : Escaped []
  backslash : {c : ℕ} → (c == b'\\') ≡ true → Escaped (c ∷ [])
  after : {c d : ℕ} {s : Text} → (c == b'\\') ≡ true → Escaped s → Escaped (c ∷ d ∷ s)
  pair : {c d : ℕ} {s : Text} → c == b'\'' && d == b'\'' ≡ true → Escaped s → Escaped (c ∷ d ∷ s)
  other :
      {c : ℕ} {s : Text} → (c == b'\'') ≡ false → (c == b'\\') ≡ false → Escaped s → Escaped (c ∷ s)

-- The mark stands nowhere in the text.
abbrev pub Lacks : Text → Text → Type 0
Lacks mark [] = starts_with mark [] ≡ false
Lacks mark (c ∷ s) = (starts_with mark (c ∷ s) ≡ false) × Lacks mark s

-- The text opens what the error names, and has no end of it.
abbrev pub Unclosed : SqlSyntaxError → Text → Type 0
Unclosed (open_comment l) s = Comment false 0 s
Unclosed (open_string l) s =
    (r : Text) × (((s ≡ b'\'' ∷ r) × Doubled b'\'' r)
      ⊎ ((c : ℕ) × (s ≡ c ∷ b'\'' ∷ r) × (c == b'E' || c == b'e' ≡ true) × Escaped r))
Unclosed (open_identifier l) s = (r : Text) × (s ≡ b'"' ∷ r) × Doubled b'"' r
Unclosed (open_body mark l) s = (r : Text) × (s ≡ mark ++ r) × (1 ≤ length mark) × Lacks mark r
Unclosed out_of_fuel s = Unit

-- A text up to its closing quote, where a doubled quote stands for one, and its value.
pub data Quoted (q : ℕ) : Text → Text → Type 0 where
  end : {c : ℕ} → (c == q) ≡ true → Quoted q [] (c ∷ [])
  pair :
      {c d : ℕ} {value s : Text}
      → c == q && d == q ≡ true
      → Quoted q value s
      → Quoted q (q ∷ value) (c ∷ d ∷ s)
  other :
      {c : ℕ} {value s : Text} → (c == q) ≡ false → Quoted q value s → Quoted q (c ∷ value) (c ∷ s)

-- The same with backslashes, each before a unit that stands for itself.
pub data EscapeQuoted : Text → Text → Type 0 where
  end : {c : ℕ} → (c == b'\'') ≡ true → EscapeQuoted [] (c ∷ [])
  after :
      {c d : ℕ} {value s : Text}
      → (c == b'\\') ≡ true
      → EscapeQuoted value s
      → EscapeQuoted (d ∷ value) (c ∷ d ∷ s)
  pair :
      {c d : ℕ} {value s : Text}
      → c == b'\'' && d == b'\'' ≡ true
      → EscapeQuoted value s
      → EscapeQuoted (c ∷ value) (c ∷ d ∷ s)
  other :
      {c : ℕ} {value s : Text}
      → (c == b'\'') ≡ false
      → (c == b'\\') ≡ false
      → EscapeQuoted value s
      → EscapeQuoted (c ∷ value) (c ∷ s)

abbrev pub is_number_unit : ℕ → Bool
is_number_unit c = is_digit c || c == b'.' || c == b'e' || c == b'E' || c == b'+' || c == b'-'

-- How a token of a kind is written, and its value: a word is in lower case, or a parameter.
abbrev pub IsWritten : Unicode → TokenKind → Text → Text → Type 0
IsWritten u word value text =
    (all (λ c. is_word_part u c || is_digit c) text ≡ true)
    × ((value ≡ u.lower text) ⊎ (value ≡ text))
IsWritten u number value text = (all is_number_unit text ≡ true) × (value ≡ text)
IsWritten u punct value text = (all is_punctuation text ≡ true) × (length text ≡ 1) × (value ≡ text)
IsWritten u op value text = ((all is_operator text ≡ true) ⊎ (length text ≡ 1)) × (value ≡ text)
IsWritten u qident value text = (r : Text) × (text ≡ b'"' ∷ r) × Quoted b'"' value r
IsWritten u string value text =
    ((r : Text) × (text ≡ b'\'' ∷ r) × Quoted b'\'' value r)
    ⊎ ((c : ℕ) × (r : Text) × (text ≡ c ∷ b'\'' ∷ r)
        × (c == b'E' || c == b'e' ≡ true)
        × EscapeQuoted value r)
    ⊎ ((mark : Text) × (text ≡ mark ++ value ++ mark) × (1 ≤ length mark))
