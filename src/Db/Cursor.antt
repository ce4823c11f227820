-- ===== src/Db/Cursor.antt =====
-- src/db/parser.ts: the cursor of a statement, here the list of the tokens from its index on.
use agent_pipeline_v.Base.{
  ℕ, zero, suc, ◌-◌, Bool, true, false, ◌&&◌, Option, none, some, List, [], ◌∷◌, Text, codes,
  eq_text, any, length, ◌==◌, if◌then◌else◌, is_some,
}
use agent_pipeline_v.Db.Tokenizer.Token.{Token, TokenKind, word, qident}
use agent_pipeline_v.Db.Statements.{is_word_kind, is_word, is_punct}

abbrev pub is_ident : Token → Bool
is_ident t = elim t.kind [ word ↦ true | qident ↦ true | _ ↦ false ]

-- A test of `c.peek()`: none passes at the end.
abbrev pub peeks : (Token → Bool) → List Token → Bool
peeks p [] = false
peeks p (t ∷ ts) = p t

abbrev pub advance : List Token → List Token
advance [] = []
advance (t ∷ ts) = ts

-- `isWord(t, ...values)`
abbrev pub is_one_of : List Text → Token → Bool
is_one_of values t = is_word_kind t.kind && any (λ v. eq_text t.value v) values

-- `c.accept(...words)`: the tokens after the words, when they all match.
unfoldable pub accept : List Text → List Token → Option (List Token)
accept [] c = some c
accept (w ∷ ws) [] = none
accept (w ∷ ws) (t ∷ c) = if is_word w t then accept ws c else none

-- A call of `c.accept` whose result is not used.
unfoldable pub skip_words : List Text → List Token → List Token
unfolding accept
skip_words ws c = elim (accept ws c) [ none ↦ c | some d ↦ d ]

pub record Name : Type 0 where
  pub schema : Option Text
  pub name : Text
  pub quoted : Bool
  pub line : ℕ

abbrev is_qident : TokenKind → Bool
is_qident qident = true
is_qident _ = false

abbrev pub name_of : Token → Name
name_of t = record { schema = none; name = t.value; quoted = is_qident t.kind; line = t.line }

-- `c.ident()`: the name, and the cursor after it.
unfoldable pub ident : List Token → Option (Name × List Token)
ident [] = none
ident (t ∷ c) = if is_ident t then some (name_of t, c) else none

-- `c.qualified()`
unfoldable pub qualified : List Token → Option (Name × List Token)
qualified (a ∷ dot ∷ b ∷ c) =
    if is_ident a && is_punct (codes ".") dot && is_ident b
    then some (record (name_of b) { schema = some a.value; line = a.line }, c)
    else (if is_ident a then some (name_of a, dot ∷ b ∷ c) else none)
qualified [] = none
qualified (a ∷ []) = if is_ident a then some (name_of a, []) else none
qualified (a ∷ b ∷ []) = if is_ident a then some (name_of a, b ∷ []) else none

-- The loop of `c.group()`: the tokens of the group and those after it.
unfoldable pub group_over : ℕ → List Token → List Token × List Token
group_over depth [] = ([], [])
group_over depth (t ∷ c) =
    let inner = group_over (suc depth) c in
    let outer = group_over (depth - 1) c in
    let onward = group_over depth c in
    if is_punct (codes "(") t
    then (t ∷ inner.0, inner.1)
    else (if is_punct (codes ")") t
        then (if depth - 1 == 0 then ([], c) else (t ∷ outer.0, outer.1))
        else (t ∷ onward.0, onward.1))

-- `c.group()`: none where no parenthesis comes.
unfoldable pub group : List Token → Option (List Token × List Token)
unfolding group_over
group [] = none
group (t ∷ c) = if is_punct (codes "(") t then some (group_over 1 c) else none

-- `c.group() ?? []`
unfoldable pub group_or_nil : List Token → List Token × List Token
unfolding group
group_or_nil c = elim (group c) [ none ↦ ([], c) | some g ↦ g ]

-- `while (!c.atEnd()) { ... }`: `step` gives the cursor and the variables after one pass. The number
-- bounds the passes.
unfoldable pub while_on {ℓ} :
    {A : Type ℓ} → ℕ → (List Token → A → List Token × A) → List Token → A → A
while_on n step [] a = a
while_on zero step (t ∷ c) a = a
while_on (suc n) step (t ∷ c) a = let r = step (t ∷ c) a in while_on n step r.0 r.1

unfoldable pub while_tokens {ℓ} :
    {A : Type ℓ} → (List Token → A → List Token × A) → List Token → A → A
unfolding while_on
while_tokens step c a = while_on (length c) step c a

-- `while (!c.atEnd() && !test(c.peek())) tokens.push(c.next())`
unfoldable pub take_until : (Token → Bool) → List Token → List Token × List Token
take_until p [] = ([], [])
take_until p (t ∷ c) = let r = take_until p c in if p t then ([], t ∷ c) else (t ∷ r.0, r.1)

-- `c.accept(...words)` as a test; what is left is `skip_words`.
abbrev pub accepts : List Text → List Token → Bool
accepts ws c = is_some (accept ws c)

-- `c.ident()?.name`
abbrev pub ident_name : List Token → Option Text × List Token
ident_name c = elim (ident c) [ none ↦ (none, c) | some p ↦ (some p.0.name, p.1) ]
