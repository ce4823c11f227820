-- ===== src/Db/Tests.antt =====
-- Migrations for src/db.
mod Migrations
use agent_pipeline_v.Base.{
  ℕ, ◌+◌, ◌≡◌, ◌≤◌, refl, Bool, true, false, ◌&&◌, ◌||◌, Option, none, some, List, [], ◌∷◌, ◌++◌,
  map, Text, codes, eq_text, Result, err, leb, ltb, arith, if◌then◌else◌, length, All,
}
use agent_pipeline_v.Db.Tokenizer.Token.{
  Token, TokenKind, word, qident, string, number, punct, op, Unicode, tokenize, tokenize_on,
  open_string, open_comment,
}
use agent_pipeline_v.Db.Tokenizer.Sound.{IsUnicode, line_of}
use agent_pipeline_v.Db.Tokenizer.Sound.Loop.{Broken, tokenize-Broken}
use agent_pipeline_v.Db.Statements.{Statement, split_statements}
use agent_pipeline_v.Db.Statements.Whole.{IsWhole, split_statements-IsWhole}
use agent_pipeline_v.Db.Statements.Joined.{mark, keyword}

-- The letters and the digits of ASCII.
abbrev is_upper : ℕ → Bool
is_upper c = leb b'A' c && leb c b'Z'

abbrev pub ascii : Unicode
ascii = record {
  letter = λ c. is_upper c || (leb b'a' c && leb c b'z');
  numeral = λ c. leb b'0' c && leb c b'9';
  lower = λ s. map (λ c. if is_upper c then c + 32 else c) s;
}

ascii-IsUnicode : IsUnicode ascii
ascii-IsUnicode = record { no_letter = refl; no_numeral = refl }

abbrev token_of : TokenKind → Text → ℕ → Token
token_of kind value line = record { kind = kind; value = value; text = value; line = line }

-- `Select a, /* x /* y */ */ 1.5e3;\n-- z\n$b$ t $b$ 'it''s'`
abbrev sql : Text
sql =
    codes "Select a, /* x /* y */ */ 1.5e3;"
    ++ (b'\n' ∷ (codes "-- z" ++ (b'\n' ∷ codes "$b$ t $b$ 'it''s'")))

abbrev sql_tokens : List Token
sql_tokens =
    record { kind = word; value = codes "select"; text = codes "Select"; line = 1 }
    ∷ token_of word (codes "a") 1
    ∷ token_of punct (codes ",") 1
    ∷ token_of number (codes "1.5e3") 1
    ∷ token_of punct (codes ";") 1
    ∷ record { kind = string; value = codes " t "; text = codes "$b$ t $b$"; line = 3 }
    ∷ record { kind = string; value = codes "it's"; text = codes "'it''s'"; line = 3 }
    ∷ []

-- A string that is not closed, on the second line.
abbrev open_sql : Text
open_sql = codes "select a;" ++ (b'\n' ∷ codes "select 'it''s")

open_sql-tokenize : tokenize ascii open_sql ≡ err (open_string 2)
unfolding tokenize
open_sql-tokenize = refl

tokenize-Broken_example : Broken ascii 1 open_sql (open_string 2)
tokenize-Broken_example =
    tokenize-Broken ascii open_sql (open_string 2) ascii-IsUnicode open_sql-tokenize

split_statements-IsWhole_example : All IsWhole (split_statements sql_tokens)
split_statements-IsWhole_example = split_statements-IsWhole sql_tokens

-- `begin atomic; end`, and a word between parentheses with a semicolon.
abbrev body_tokens : List Token
body_tokens =
    keyword (codes "begin") (codes "BEGIN") 1
    ∷ keyword (codes "atomic") (codes "atomic") 1
    ∷ mark (codes ";") 1
    ∷ keyword (codes "end") (codes "end") 2
    ∷ []

abbrev group_tokens : List Token
group_tokens =
    mark (codes "(") 3
    ∷ keyword (codes "a") (codes "a") 3
    ∷ mark (codes ";") 3
    ∷ mark (codes ")") 4
    ∷ []

sql-split_statements : map (λ s. s.line) (split_statements sql_tokens) ≡ 1 ∷ 3 ∷ []
unfolding split_statements eq_text
sql-split_statements = refl
