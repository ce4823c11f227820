-- ===== src/Db/Statements.antt =====
-- src/db/tokenizer.ts: `splitStatements`.
pub mod Whole
pub mod Joined
use agent_pipeline_v.Base.{
  ℕ, suc, ◌-◌, ◌≡◌, Bool, true, false, ◌&&◌, not, Option, none, some, List, [], ◌∷◌, ◌++◌, Text,
  codes, eq_text, is_empty, ltb, leb, ◌==◌, if◌then◌else◌,
}
use agent_pipeline_v.Db.Tokenizer.Token.{Token, TokenKind, word, punct}

pub record Statement : Type 0 where
  pub tokens : List Token
  pub line : ℕ

-- The counters of the loop.
pub record Counters : Type 0 where
  pub depth : ℕ
  pub atomic : Bool
  pub case_depth : ℕ

abbrev pub is_word_kind : TokenKind → Bool
is_word_kind word = true
is_word_kind _ = false

abbrev pub is_punct_kind : TokenKind → Bool
is_punct_kind punct = true
is_punct_kind _ = false

abbrev pub is_word : Text → Token → Bool
is_word s t = is_word_kind t.kind && eq_text t.value s

abbrev pub is_punct : Text → Token → Bool
is_punct s t = is_punct_kind t.kind && eq_text t.value s

-- `tokens[k + 1]`
abbrev pub next_of : List Token → Option Token → Option Token
next_of [] after = after
next_of (t ∷ ts) after = some t

abbrev pub is_atomic : Option Token → Bool
is_atomic none = false
is_atomic (some t) = is_word (codes "atomic") t

-- The parentheses.
unfoldable pub count_depth : Token → ℕ → ℕ
count_depth t depth =
    if is_punct (codes "(") t
    then suc depth
    else (if is_punct (codes ")") t then depth - 1 else depth)

-- `begin atomic`, and the `case` and the `end` inside it.
unfoldable pub count_words : Option Token → Token → Bool → ℕ → Bool × ℕ
count_words next t atomic case_depth =
    if is_word (codes "begin") t && is_atomic next
    then (true, case_depth)
    else (if atomic && is_word (codes "case") t
        then (atomic, suc case_depth)
        else (if atomic && is_word (codes "end") t
            then (if ltb 0 case_depth then (atomic, case_depth - 1) else (false, case_depth))
            else (atomic, case_depth)))

unfoldable pub count_token : Option Token → Token → Counters → Counters
unfolding count_depth count_words
count_token next t c =
    let words = count_words next t c.atomic c.case_depth in
    record { depth = count_depth t c.depth; atomic = words.0; case_depth = words.1 }

-- The test for a separator, on the counters after the token.
unfoldable pub is_separator : Token → Counters → Bool
is_separator t c = is_punct (codes ";") t && c.depth == 0 && not c.atomic

-- The statement of a run of tokens, if it has any, with the line of the first one.
unfoldable pub statement_of : List Token → List Statement
statement_of [] = []
statement_of (t ∷ ts) = record { tokens = t ∷ ts; line = t.line } ∷ []

-- The loop, with `current` and the statements after it.
unfoldable pub split_over : List Token → List Token → Counters → List Statement
unfolding count_token is_separator statement_of
split_over [] current c = statement_of current
split_over (t ∷ ts) current c =
    let after = count_token (next_of ts none) t c in
    let cut = split_over ts [] after in
    let onward = split_over ts (current ++ (t ∷ [])) after in
    if is_separator t after then statement_of current ++ cut else onward

abbrev pub at_start : Counters
at_start = record { depth = 0; atomic = false; case_depth = 0 }

unfoldable pub split_statements : List Token → List Statement
unfolding split_over
split_statements tokens = split_over tokens [] at_start
