-- ===== src/Db/Tokenizer/Token.antt =====
-- src/db/tokenizer.ts: the tokens, the errors, and one pass of the loop of `tokenize` for each kind of
-- token. The Unicode tables behind `\p{L}`, `\p{N}` and `toLowerCase` are a parameter.
use agent_pipeline_v.Base.{
  ℕ, zero, suc, Bool, ◌&&◌, ◌||◌, not, Option, none, some, List, [], ◌∷◌, ◌++◌, Text, Result, ok,
  err, ◌>>=◌, is_space, is_empty, length, ◌==◌, if◌then◌else◌, any,
}
use agent_pipeline_v.Db.Tokenizer.Scan.{
  Piece, is_digit, head_is, first, drop, span, quoted, escaped, comment, line_end, dollar_tag,
  up_to_mark,
}

pub data TokenKind : Type 0 where
  word qident string number punct op : TokenKind

pub record Token : Type 0 where
  pub kind : TokenKind
  pub value : Text
  pub text : Text
  pub line : ℕ

-- The four messages of `SqlSyntaxError`, with its line; `out_of_fuel` has no counterpart in the source.
pub data SqlSyntaxError : Type 0 where
  open_comment open_string open_identifier : ℕ → SqlSyntaxError
  open_body : Text → ℕ → SqlSyntaxError
  out_of_fuel : SqlSyntaxError

-- The tables of the runtime.
pub record Unicode : Type 0 where
  pub letter : ℕ → Bool
  pub numeral : ℕ → Bool
  pub lower : Text → Text

-- The variables of the loop after one pass: the token pushed, `line`, and the text from `i`.
pub record Pass : Type 0 where
  pub pushed : Option Token
  pub line : ℕ
  pub rest : Text

abbrev pub Passed : Type 0
Passed = Result SqlSyntaxError Pass

-- `countLines`
unfoldable pub count_lines : ℕ → Text → ℕ
count_lines line [] = line
count_lines line (c ∷ s) = if c == b'\n' then count_lines (suc line) s else count_lines line s

unfoldable pub is_word_start : Unicode → ℕ → Bool
is_word_start u c = u.letter c || c == b'_'

unfoldable pub is_word_part : Unicode → ℕ → Bool
is_word_part u c = u.letter c || u.numeral c || c == b'_' || c == b'$'

abbrev one_of : List ℕ → ℕ → Bool
one_of cs c = any (λ d. c == d) cs

unfoldable pub is_operator : ℕ → Bool
unfolding any
is_operator c =
    one_of (b'+' ∷ b'-' ∷ b'*' ∷ b'/' ∷ b'<' ∷ b'>' ∷ b'=' ∷ b'~' ∷ b'!' ∷ b'@' ∷ []) c
    || one_of (b'#' ∷ b'%' ∷ b'^' ∷ b'&' ∷ b'|' ∷ b'`' ∷ b'?' ∷ b':' ∷ []) c

unfoldable pub is_punctuation : ℕ → Bool
unfolding any
is_punctuation c = one_of (b'(' ∷ b')' ∷ b',' ∷ b';' ∷ b'.' ∷ b'[' ∷ b']' ∷ []) c

unfoldable pub space_pass : ℕ → Text → Passed
space_pass line s = ok (record { pushed = none; line = line; rest = s })

-- `--` comments: `s` is the text from the first dash.
unfoldable pub dash_pass : ℕ → Text → Passed
unfolding line_end
dash_pass line s = ok (record { pushed = none; line = line; rest = line_end s })

abbrev pub skipped_pass : ℕ → Option (ℕ × Text) → Passed
skipped_pass line none = err (open_comment line)
skipped_pass line (some p) = ok (record { pushed = none; line = p.0; rest = p.1 })

unfoldable pub comment_pass : ℕ → Text → Passed
unfolding comment
comment_pass line s = skipped_pass line (comment 0 line s)

-- What is pushed for a quoted piece, whose opening is `mark`.
abbrev pub quoted_pass : TokenKind → SqlSyntaxError → Text → ℕ → Option Piece → Passed
quoted_pass kind e mark line none = err e
quoted_pass kind e mark line (some p) = ok (record {
  pushed = some (record { kind = kind; value = p.value; text = mark ++ p.text; line = line });
  line = count_lines line (mark ++ p.text);
  rest = p.rest;
})

unfoldable pub escaped_pass : ℕ → ℕ → Text → Passed
unfolding escaped count_lines
escaped_pass line c s =
    quoted_pass string (open_string line) (c ∷ b'\'' ∷ []) line (escaped (drop 1 s))

unfoldable pub string_pass : ℕ → Text → Passed
unfolding quoted count_lines
string_pass line s = quoted_pass string (open_string line) (b'\'' ∷ []) line (quoted b'\'' s)

unfoldable pub identifier_pass : ℕ → Text → Passed
unfolding quoted count_lines
identifier_pass line s = quoted_pass qident (open_identifier line) (b'"' ∷ []) line (quoted b'"' s)

-- One token on one line, whose text is a prefix of what is left.
abbrev pub take_token : TokenKind → Text → Text → ℕ → Text → Passed
take_token kind value text line s = ok (record {
  pushed = some (record { kind = kind; value = value; text = text; line = line });
  line = line;
  rest = drop (length text) s;
})

abbrev pub closed_pass : Text → ℕ → Option (Text × Text) → Passed
closed_pass mark line none = err (open_body mark line)
closed_pass mark line (some p) = ok (record {
  pushed = some (record { kind = string; value = p.0; text = mark ++ p.0 ++ mark; line = line });
  line = count_lines line (mark ++ p.0 ++ mark);
  rest = p.1;
})

unfoldable pub body_pass : Text → ℕ → Text → Passed
unfolding up_to_mark drop count_lines
body_pass mark line s = closed_pass mark line (up_to_mark mark (drop (length mark) s))

-- `/^\$\d+/` after the `$`, on the 12 units the source slices.
unfoldable pub parameter : Text → Option Text
unfolding span first
parameter s =
    let digits = span is_digit (first 11 s) in
    if is_empty digits then none else some (b'$' ∷ digits)

unfoldable pub word_pass : Unicode → ℕ → ℕ → Text → Passed
unfolding span is_word_part drop
word_pass u line c s =
    let text = c ∷ span (is_word_part u) s in take_token word (u.lower text) text line (c ∷ s)

-- `[+-]?`
unfoldable pub sign : Text → Text
unfolding first
sign s = if head_is b'+' s || head_is b'-' s then first 1 s else []

-- `(e[+-]?\d+)?`
unfoldable pub exponent : Text → Text
unfolding span sign drop
exponent [] = []
exponent (e ∷ s) =
    let digits = span is_digit (drop (length (sign s)) s) in
    if (e == b'e' || e == b'E') && not (is_empty digits) then e ∷ (sign s ++ digits) else []

-- `\.?\d*`
unfoldable pub fraction : Text → Text
unfolding span
fraction [] = []
fraction (c ∷ s) = if c == b'.' then c ∷ span is_digit s else []

-- `\d+\.?\d*(e[+-]?\d+)?`, and `\.\d+(e[+-]?\d+)?` where the text starts with the point.
unfoldable pub number_text : Text → Text
unfolding span drop fraction exponent
number_text s =
    let whole = span is_digit s in
    let after = drop (length whole) s in
    whole ++ (fraction after ++ exponent (drop (length (fraction after)) after))

unfoldable pub number_pass : ℕ → Text → Passed
unfolding number_text first drop
number_pass line s = let text = number_text (first 64 s) in take_token number text text line s

-- An operator stops before a comment.
unfoldable pub operator_span : Text → Text
operator_span [] = []
operator_span (c ∷ s) =
    let more = operator_span s in
    let opens = (c == b'-' && head_is b'-' s) || (c == b'/' && head_is b'*' s) in
    if is_operator c && not opens then c ∷ more else []

unfoldable pub operator_pass : ℕ → ℕ → Text → Passed
unfolding operator_span drop
operator_pass line c s = let text = c ∷ operator_span s in take_token op text text line (c ∷ s)

unfoldable pub symbol_pass : TokenKind → ℕ → ℕ → Text → Passed
symbol_pass kind line c s = ok (record {
  pushed = some (record { kind = kind; value = c ∷ []; text = c ∷ []; line = line });
  line = line;
  rest = s;
})

-- What is tried where the text does not start with a quote or a `$` piece.
unfoldable pub plain_pass : Unicode → ℕ → ℕ → Text → Passed
unfolding is_word_start word_pass number_pass is_punctuation symbol_pass is_operator operator_pass
plain_pass u line c s =
    if is_word_start u c
    then word_pass u line c s
    else (if is_digit c || (c == b'.' && any is_digit (first 1 s))
        then number_pass line (c ∷ s)
        else (if is_punctuation c
            then symbol_pass punct line c s
            else (if is_operator c then operator_pass line c s else symbol_pass op line c s)))

-- A body, a positional parameter, or neither.
abbrev pub dollar_case : Unicode → ℕ → ℕ → Text → Option Text → Option Text → Passed
dollar_case u line c s (some mark) found = body_pass mark line (c ∷ s)
dollar_case u line c s none (some text) = take_token word text text line (c ∷ s)
dollar_case u line c s none none = plain_pass u line c s

unfoldable pub dollar_pass : Unicode → ℕ → ℕ → Text → Passed
unfolding dollar_tag first body_pass parameter plain_pass drop
dollar_pass u line c s = dollar_case u line c s (dollar_tag (first 63 s)) (parameter s)

-- One pass of the loop, at a text that starts with `c`.
unfoldable pub pass : Unicode → ℕ → ℕ → Text → Passed
unfolding is_space space_pass dash_pass comment_pass escaped_pass string_pass identifier_pass
    dollar_pass plain_pass
pass u line c s =
    if c == b'\n'
    then space_pass (suc line) s
    else (if is_space c
        then space_pass line s
        else (if c == b'-' && head_is b'-' s
            then dash_pass line (c ∷ s)
            else (if c == b'/' && head_is b'*' s
                then comment_pass line (c ∷ s)
                else (if (c == b'E' || c == b'e') && head_is b'\'' s
                    then escaped_pass line c s
                    else (if c == b'\''
                        then string_pass line s
                        else (if c == b'"'
                            then identifier_pass line s
                            else (if c == b'$'
                                then dollar_pass u line c s
                                else plain_pass u line c s)))))))

abbrev pub push : Option Token → List Token → List Token
push none ts = ts
push (some t) ts = t ∷ ts

-- The loop, with a number of passes that bounds it.
unfoldable pub tokenize_on : Unicode → ℕ → ℕ → Text → Result SqlSyntaxError (List Token)
unfolding pass
tokenize_on u fuel line [] = ok []
tokenize_on u zero line (c ∷ s) = err out_of_fuel
tokenize_on u (suc fuel) line (c ∷ s) =
    pass u line c s >>= λ p. tokenize_on u fuel p.line p.rest >>= λ ts. ok (push p.pushed ts)

unfoldable pub tokenize : Unicode → Text → Result SqlSyntaxError (List Token)
unfolding tokenize_on
tokenize u sql = tokenize_on u (length sql) 1 sql
