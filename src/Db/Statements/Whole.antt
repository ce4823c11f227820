-- ===== src/Db/Statements/Whole.antt =====
-- src/db/tokenizer.ts: a statement of `splitStatements` is no longer split.
use agent_pipeline_v.Base.{
  ℕ, ◌≡◌, refl, ap, sym, subst, ◌∙◌, Bool, true, false, Option, none, some, List, [], ◌∷◌, ◌++◌,
  arith, All, All-append, if◌then◌else◌, Bool-cases, inl, inr, if_cases,
}
use agent_pipeline_v.Db.Tokenizer.Token.{Token, TokenKind, word, qident, string, number, punct, op}
use agent_pipeline_v.Db.Statements.{
  Statement, Counters, at_start, next_of, is_atomic, count_words, count_token, is_separator,
  statement_of, split_over, split_statements, is_word_kind, is_punct_kind,
}

-- The counters after a run of tokens that has no separator, where `next` follows it.
unfoldable pub run : Counters → List Token → Option Token → Option Counters
run c [] next = some c
run c (t ∷ ts) next =
    let after = count_token (next_of ts next) t c in
    let onward = run after ts next in if is_separator t after then none else onward

next_of-append :
    (ts : List Token) (t : Token) (next : Option Token)
    → next_of (ts ++ (t ∷ [])) next ≡ next_of ts (some t)
next_of-append [] t next = refl
next_of-append (a ∷ ts) t next = refl

pub append_nil {ℓ} : {A : Type ℓ} (xs : List A) → xs ++ [] ≡ xs
append_nil [] = refl
append_nil (x ∷ xs) = ap (λ r. x ∷ r) (append_nil xs)

pub append_one {ℓ} :
    {A : Type ℓ} (xs : List A) (x : A) (ys : List A) → (xs ++ (x ∷ [])) ++ ys ≡ xs ++ (x ∷ ys)
append_one [] x ys = refl
append_one (a ∷ xs) x ys = ap (λ r. a ∷ r) (append_one xs x ys)

run-append :
    (c d : Counters) (ts : List Token) (t : Token) (next : Option Token)
    → run c ts (some t) ≡ some d
    → is_separator t (count_token next t d) ≡ false
    → run c (ts ++ (t ∷ [])) next ≡ some (count_token next t d)
unfolding run
run-append c d [] t next h n =
    let same : c ≡ d = ground arith in
    subst (λ x. run x (t ∷ []) next ≡ some (count_token next t d)) (sym same) (rw n refl)
run-append c d (a ∷ ts) t next h n =
    let after = count_token (next_of ts (some t)) a c in
    rw (next_of-append ts t next) (elim (Bool-cases (is_separator a after)) [
      | inl cut ↦ ground arith
      | inr on ↦ rw on (run-append after d ts t next (ground arith) n)
    ])

split_over-run :
    (c d : Counters) (ts current : List Token)
    → run c ts none ≡ some d
    → split_over ts current c ≡ statement_of (current ++ ts)
unfolding run split_over
split_over-run c d [] current h = ap (λ x. statement_of x) (sym (append_nil current))
split_over-run c d (t ∷ ts) current h =
    let after = count_token (next_of ts none) t c in
    elim (Bool-cases (is_separator t after)) [
      | inl cut ↦ ground arith
      | inr on ↦ rw on (
          split_over-run after d ts (current ++ (t ∷ [])) (ground arith)
          ∙ ap (λ x. statement_of x) (append_one current t ts))
    ]

-- Only a word that is `atomic` counts as what follows.
count_words-next :
    (t : Token) (next other : Option Token) (atomic : Bool) (n : ℕ)
    → is_atomic next ≡ is_atomic other
    → count_words next t atomic n ≡ count_words other t atomic n
unfolding count_words
count_words-next t next other atomic n h = rw h refl

run-next :
    (c : Counters) (ts : List Token) (next other : Option Token)
    → is_atomic next ≡ is_atomic other
    → run c ts next ≡ run c ts other
unfolding run count_token
run-next c [] next other h = refl
run-next c (t ∷ []) next other h = rw (count_words-next t next other c.atomic c.case_depth h) refl
run-next c (t ∷ a ∷ ts) next other h =
    let after = count_token (some a) t c in
    elim (Bool-cases (is_separator t after)) [
      | inl cut ↦ rw cut refl
      | inr on ↦ rw on (run-next after (a ∷ ts) next other h)
    ]

-- Outside a body no `case` is open.
abbrev IsIdle : Counters → Type 0
IsIdle c = c.atomic ≡ false → c.case_depth ≡ 0

count_token-IsIdle :
    (next : Option Token) (t : Token) (c : Counters) → IsIdle c → IsIdle (count_token next t c)
unfolding count_token count_words
count_token-IsIdle next t c h = λ k. ground arith

-- A separator sets the counters back.
cut-at_start :
    (t : Token) (next : Option Token) (c : Counters)
    → IsIdle c
    → is_separator t (count_token next t c) ≡ true
    → count_token next t c ≡ at_start
unfolding is_separator
cut-at_start t next c h cut =
    let idle : IsIdle (count_token next t c) = count_token-IsIdle next t c h in
    let after = count_token next t c in
    let closed : after.atomic ≡ false = ground arith in ground (arith, idle closed)

punct_not_word : (k : TokenKind) → is_punct_kind k ≡ true → is_word_kind k ≡ false
punct_not_word word h = ground arith
punct_not_word qident h = refl
punct_not_word string h = refl
punct_not_word number h = refl
punct_not_word punct h = refl
punct_not_word op h = refl

separator-is_atomic :
    (t : Token) (c : Counters) → is_separator t c ≡ true → is_atomic (some t) ≡ false
unfolding is_separator
separator-is_atomic t c h = ground (arith, punct_not_word t.kind)

-- Split again, the tokens of the statement are that one statement.
abbrev pub IsWhole : Statement → Type 0
IsWhole s = split_statements s.tokens ≡ s ∷ []

statement_of-IsWhole :
    (ts : List Token) (c : Counters) → run at_start ts none ≡ some c → All IsWhole (statement_of ts)
unfolding statement_of split_statements
statement_of-IsWhole [] c h = tt
statement_of-IsWhole (t ∷ ts) c h = (split_over-run at_start c (t ∷ ts) [] h, tt)

split_over-IsWhole :
    (ts current : List Token) (c : Counters)
    → IsIdle c
    → run at_start current (next_of ts none) ≡ some c
    → All IsWhole (split_over ts current c)
unfolding split_over run
split_over-IsWhole [] current c i h = statement_of-IsWhole current c h
split_over-IsWhole (t ∷ ts) current c i h =
    let after = count_token (next_of ts none) t c in
    if_cases (All IsWhole) (is_separator t after)
      (λ cut.
        let start : after ≡ at_start = cut-at_start t (next_of ts none) c i cut in
        let alone : run at_start current none ≡ some c =
          run-next at_start current none (some t) (sym (separator-is_atomic t after cut)) ∙ h in
        All-append IsWhole (statement_of current) (split_over ts [] after) (
          statement_of-IsWhole current c alone,
          split_over-IsWhole ts [] after (count_token-IsIdle (next_of ts none) t c i)
              (ap (λ x. some x) (sym start)),
        ))
      (λ on.
        split_over-IsWhole ts (current ++ (t ∷ [])) after
          (count_token-IsIdle (next_of ts none) t c i)
          (run-append at_start c current t (next_of ts none) h on))

-- Each statement that `splitStatements` gives is one statement, the same, when its tokens are split
-- again: no separator is left in it, and what comes before it does not matter.
pub split_statements-IsWhole : (ts : List Token) → All IsWhole (split_statements ts)
unfolding run split_statements
split_statements-IsWhole ts = split_over-IsWhole ts [] at_start (λ h. refl) refl
