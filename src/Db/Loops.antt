-- ===== src/Db/Loops.antt =====
-- src/db/parser.ts: the `while (!c.atEnd())` loops consume a token in each pass.
pub mod Ends
use agent_pipeline_v.Base.{
  ℕ, zero, suc, ◌+◌, ◌-◌, ◌≡◌, ◌≤◌, refl, ap, sym, subst, ◌∙◌, Bool, true, false, ◌&&◌, ◌||◌,
  Option, none, some, List, [], ◌∷◌, ◌++◌, Text, codes, arith, length, leb, ◌==◌, if◌then◌else◌,
  is_some, if_both, if_cases, Option-cases, inl, inr,
}
use agent_pipeline_v.Db.Tokenizer.Token.{Token}
use agent_pipeline_v.Db.Statements.{is_word, is_punct}
use agent_pipeline_v.Db.Cursor.{
  Name, peeks, advance, accept, accepts, skip_words, ident, ident_name, qualified, group_over,
  group, group_or_nil, while_on, while_tokens, take_until, is_ident,
}

-- A pass of the loop gives a shorter list.
abbrev pub Consumes {ℓ} : {A : Type ℓ} → (List Token → A → List Token × A) → Type ℓ
Consumes {A} step = (t : Token) (c : List Token) (a : A) → length (step (t ∷ c) a).0 ≤ length c

while_on-bounds {ℓ} :
    {A : Type ℓ} (step : List Token → A → List Token × A) (n m : ℕ) (c : List Token) (a : A)
    → Consumes step
    → length c ≤ n
    → length c ≤ m
    → while_on n step c a ≡ while_on m step c a
unfolding while_on
while_on-bounds step n m [] a k h g = refl
while_on-bounds step zero m (t ∷ c) a k h g = absurd (omega arith)
while_on-bounds step (suc n) zero (t ∷ c) a k h g = absurd (omega arith)
while_on-bounds step (suc n) (suc m) (t ∷ c) a k h g =
    let r = step (t ∷ c) a in
    while_on-bounds step n m r.0 r.1 k (omega (arith, k t c a)) (omega (arith, k t c a))

-- A bound that is large enough is as good as that of the model.
pub while_on-while_tokens {ℓ} :
    {A : Type ℓ} (step : List Token → A → List Token × A) (n : ℕ) (c : List Token) (a : A)
    → Consumes step
    → length c ≤ n
    → while_on n step c a ≡ while_tokens step c a
unfolding while_tokens
while_on-while_tokens step n c a k h = while_on-bounds step n (length c) c a k h (omega arith)

-- What is left has a length of at most n.
abbrev pub AtMost : ℕ → Option (List Token) → Type 0
AtMost n none = Unit
AtMost n (some d) = length d ≤ n

AtMost-le : (n m : ℕ) (o : Option (List Token)) → n ≤ m → AtMost n o → AtMost m o
AtMost-le n m none h k = tt
AtMost-le n m (some d) h k = omega arith

accept-AtMost : (ws : List Text) (c : List Token) → AtMost (length c) (accept ws c)
unfolding accept
accept-AtMost [] c = omega arith
accept-AtMost (w ∷ ws) [] = tt
accept-AtMost (w ∷ ws) (t ∷ c) =
    if_both (AtMost (suc (length c))) (is_word w t)
      (AtMost-le (length c) (suc (length c)) (accept ws c) (omega arith) (accept-AtMost ws c)) tt

skipped_le :
    (c : List Token) (o : Option (List Token))
    → AtMost (length c) o
    → length (elim o [ none ↦ c | some d ↦ d ]) ≤ length c
skipped_le c none h = omega arith
skipped_le c (some d) h = h

pub skip_words_le : (ws : List Text) (c : List Token) → length (skip_words ws c) ≤ length c
unfolding skip_words
skip_words_le ws c = skipped_le c (accept ws c) (accept-AtMost ws c)

-- Where words match, a token is gone.
pub skip_words_lt :
    (w : Text) (ws : List Text) (t : Token) (c : List Token)
    → accepts (w ∷ ws) (t ∷ c) ≡ true
    → length (skip_words (w ∷ ws) (t ∷ c)) ≤ length c
unfolding skip_words accept
skip_words_lt w ws t c h = ground (arith, skip_words_le ws c)

pub advance_le : (c : List Token) → length (advance c) ≤ length c
advance_le [] = omega arith
advance_le (t ∷ c) = omega arith

pub take_until_le : (p : Token → Bool) (c : List Token) → length (take_until p c).1 ≤ length c
unfolding take_until
take_until_le p [] = omega arith
take_until_le p (t ∷ c) =
    if_both (λ (r : List Token × List Token). length r.1 ≤ suc (length c)) (p t) (omega arith)
      (omega (arith, take_until_le p c))

pub group_over_le : (depth : ℕ) (c : List Token) → length (group_over depth c).1 ≤ length c
unfolding group_over
group_over_le depth [] = omega arith
group_over_le depth (t ∷ c) =
    ground (arith, group_over_le (suc depth) c, group_over_le (depth - 1) c, group_over_le depth c)

pub group_or_nil_le : (c : List Token) → length (group_or_nil c).1 ≤ length c
unfolding group_or_nil group
group_or_nil_le [] = omega arith
group_or_nil_le (t ∷ c) = ground (arith, group_over_le 1 c)

pub group_or_nil_lt :
    (t : Token) (c : List Token)
    → is_punct (codes "(") t ≡ true
    → length (group_or_nil (t ∷ c)).1 ≤ length c
unfolding group_or_nil group
group_or_nil_lt t c h = ground (arith, group_over_le 1 c)

pub ident_name_le : (c : List Token) → length (ident_name c).1 ≤ length c
unfolding ident
ident_name_le [] = omega arith
ident_name_le (t ∷ c) = ground arith
