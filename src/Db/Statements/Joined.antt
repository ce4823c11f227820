-- ===== src/Db/Statements/Joined.antt =====
-- src/db/tokenizer.ts: `splitStatements` reads back statements that are written with semicolons.
use agent_pipeline_v.Base.{
  ℕ, suc, ◌≡◌, Bool, true, false, ◌&&◌, ◌||◌, not, List, [], ◌∷◌, ◌++◌, Text, codes, ◌==◌,
}
use agent_pipeline_v.Db.Tokenizer.Token.{Token, word, punct}
use agent_pipeline_v.Db.Statements.{Statement, Counters, is_word, is_punct}

abbrev pub mark : Text → ℕ → Token
mark s line = record { kind = punct; value = s; text = s; line = line }

-- A keyword, written in any case.
abbrev pub keyword : Text → Text → ℕ → Token
keyword s text line = record { kind = word; value = s; text = text; line = line }

-- No parenthesis, no semicolon, and none of the words that bound a body.
abbrev pub is_plain : Token → Bool
is_plain t =
    not (is_punct (codes "(") t || is_punct (codes ")") t || is_punct (codes ";") t)
    && not (is_word (codes "begin") t || is_word (codes "case") t || is_word (codes "end") t)

-- The rest of a statement, at a place inside `depth` parentheses and, where `atomic` holds, inside the
-- body of a function and `cases` expressions of it. Semicolons stand in parentheses and in bodies only,
-- a body goes from `begin atomic` to its `end`, and an expression from `case` to its `end`.
pub data Closes : (atomic : Bool) → (cases depth : ℕ) → List Token → Type 0 where
  ends : Closes false 0 0 []
  opened :
      {a : Bool} {n d : ℕ} {ts : List Token} (line : ℕ)
      → Closes a n (suc d) ts
      → Closes a n d (mark (codes "(") line ∷ ts)
  closed :
      {a : Bool} {n d : ℕ} {ts : List Token} (line : ℕ)
      → Closes a n d ts
      → Closes a n (suc d) (mark (codes ")") line ∷ ts)
  inner :
      {a : Bool} {n d : ℕ} {ts : List Token} (line : ℕ)
      → a || not (d == 0) ≡ true
      → Closes a n d ts
      → Closes a n d (mark (codes ";") line ∷ ts)
  body :
      {d : ℕ} {ts : List Token} (text text' : Text) (line line' : ℕ)
      → Closes true 0 d ts
      → Closes false 0 d
          (keyword (codes "begin") text line ∷ keyword (codes "atomic") text' line' ∷ ts)
  cases :
      {n d : ℕ} {ts : List Token} (text : Text) (line : ℕ)
      → Closes true (suc n) d ts
      → Closes true n d (keyword (codes "case") text line ∷ ts)
  case_end :
      {n d : ℕ} {ts : List Token} (text : Text) (line : ℕ)
      → Closes true n d ts
      → Closes true (suc n) d (keyword (codes "end") text line ∷ ts)
  body_end :
      {d : ℕ} {ts : List Token} (text : Text) (line : ℕ)
      → Closes false 0 d ts
      → Closes true 0 d (keyword (codes "end") text line ∷ ts)
  plain :
      {a : Bool} {n d : ℕ} {ts : List Token} (t : Token)
      → is_plain t ≡ true
      → Closes a n d ts
      → Closes a n d (t ∷ ts)

abbrev at : Bool → ℕ → ℕ → Counters
at a n d = record { depth = d; atomic = a; case_depth = n }

abbrev pub Closed : List Token → Type 0
Closed ts = Closes false 0 0 ts

-- Statements with a semicolon after each but the last.
abbrev pub joined : ℕ → List (List Token) → List Token → List Token
joined line [] last = last
joined line (ts ∷ tss) last = ts ++ (mark (codes ";") line ∷ joined line tss last)

-- An empty one is none; the line of one is that of its first token.
abbrev pub statements : List (List Token) → List Token → List Statement
statements [] [] = []
statements [] (t ∷ ts) = record { tokens = t ∷ ts; line = t.line } ∷ []
statements ([] ∷ tss) last = statements tss last
statements ((t ∷ ts) ∷ tss) last = record { tokens = t ∷ ts; line = t.line } ∷ statements tss last
