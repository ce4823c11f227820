-- ===== src/Db/Loops/Ends.antt =====
-- src/db/parser.ts: the passes of the loops over the constraints of a column, the end of an index, the
-- clauses of a policy and the attributes of a function.
pub mod Columns
use agent_pipeline_v.Base.{
  ℕ, zero, suc, ◌+◌, ◌≡◌, ◌≤◌, refl, ap, sym, subst, ◌∙◌, Bool, true, false, ◌&&◌, ◌||◌, Option,
  none, some, List, [], ◌∷◌, ◌++◌, Text, codes, arith, eq_text, length, leb, ◌==◌, if◌then◌else◌,
  is_some, if_both, if_cases, Option-cases, inl, inr,
}
use agent_pipeline_v.Db.Tokenizer.Token.{Token}
use agent_pipeline_v.Db.Statements.{is_word, is_punct}
use agent_pipeline_v.Db.Model.{Policy, DbFunction, SchemaModel}
use agent_pipeline_v.Db.Cursor.{
  Name, peeks, advance, accepts, skip_words, ident, ident_name, qualified, group, group_or_nil,
  while_on, while_tokens, take_until, is_ident, is_one_of,
}
use agent_pipeline_v.Db.Tables.{
  Context, MethodOutcome, done, threw, ColumnPass, column_pass, column_reference, skip_nulls,
}
use agent_pipeline_v.Db.Indexes.{where_pass}
use agent_pipeline_v.Db.Policies.{clause_pass}
use agent_pipeline_v.Db.Functions.{
  FunctionPass, set_parameter, other_attribute, attribute_pass, read_search_path, path_items,
  returned, is_attribute_word, is_equals, definer, invoker, external,
}
use agent_pipeline_v.Db.Loops.{
  Consumes, while_on-while_tokens, skip_words_le, skip_words_lt, advance_le, take_until_le,
  group_or_nil_le, group_or_nil_lt, ident_name_le,
}

-- The cursor of what a pass gives has at most n tokens.
unfoldable pub Within {ℓ} : {A : Type ℓ} → ℕ → List Token × A → Type 0
Within n r = length r.0 ≤ n

pub within {ℓ} : {A : Type ℓ} (n : ℕ) (c : List Token) (a : A) → length c ≤ n → Within n (c, a)
unfolding Within
within n c a h = h

pub bound {ℓ} : {A : Type ℓ} (n : ℕ) (r : List Token × A) → Within n r → length r.0 ≤ n
unfolding Within
bound n r h = h

-- The last two tests of a pass: a group is skipped, or a token.
pub group_or_next {ℓ} :
    {A : Type ℓ} (t : Token) (c : List Token) (a : A)
    → Within (length c) (
        if peeks (is_punct (codes "(")) (t ∷ c)
        then ((group_or_nil (t ∷ c)).1, a)
        else (advance (t ∷ c), a))
group_or_next t c a =
    if_cases (Within (length c)) (is_punct (codes "(") t)
      (λ h. within (length c) _ a (group_or_nil_lt t c h))
      (λ h. within (length c) c a (omega arith))

pub where_pass-Consumes : Consumes where_pass
unfolding where_pass
where_pass-Consumes t c a = bound (length c) _ (
    if_both (Within (length c)) (accepts (codes "where" ∷ []) (t ∷ c))
      (within (length c) [] _ (omega arith)) (group_or_next t c a))

pub clause_pass-Consumes : Consumes clause_pass
unfolding clause_pass
clause_pass-Consumes t c p =
    let P : List Token × Policy → Type 0 = Within (length c) in
    let one : (w : Text)
        → accepts (w ∷ []) (t ∷ c) ≡ true
        → length (skip_words (w ∷ []) (t ∷ c)) ≤ length c =
      λ w h. skip_words_lt w [] t c h in
    let after : Text → List Token = λ w. skip_words (w ∷ []) (t ∷ c) in
    let roles = is_one_of (codes "using" ∷ codes "with" ∷ []) in
    bound (length c) _ (
      if_cases P (accepts (codes "as" ∷ []) (t ∷ c))
        (λ h.
          within (length c) _ _
            (omega (arith, one (codes "as") h, advance_le (after (codes "as")))))
        (λ n.
          if_cases P (accepts (codes "for" ∷ []) (t ∷ c))
            (λ h.
              within (length c) _ _
                (omega (arith, one (codes "for") h, advance_le (after (codes "for")))))
            (λ n.
              if_cases P (accepts (codes "to" ∷ []) (t ∷ c))
                (λ h.
                  within (length c) _ _
                    (omega (arith, one (codes "to") h, take_until_le roles (after (codes "to")))))
                (λ n.
                  if_cases P (accepts (codes "using" ∷ []) (t ∷ c))
                    (λ h. within (length c) _ _ (
                      omega
                        (arith, one (codes "using") h, group_or_nil_le (after (codes "using")))))
                    (λ n.
                      if_cases P (accepts (codes "with" ∷ codes "check" ∷ []) (t ∷ c))
                        (λ h. within (length c) _ _ (
                          omega (
                            arith,
                            skip_words_lt (codes "with") (codes "check" ∷ []) t c h,
                            group_or_nil_le
                                (skip_words (codes "with" ∷ codes "check" ∷ []) (t ∷ c)),
                          )))
                        (λ n. within (length c) c p (omega arith)))))))

returned_le : (depth : ℕ) (c : List Token) → length (returned depth c).1 ≤ length c
unfolding returned
returned_le depth [] = omega arith
returned_le zero (t ∷ c) = ground (arith, returned_le 1 c, returned_le zero c)
returned_le (suc depth) (t ∷ c) =
    ground (arith, returned_le (suc (suc depth)) c, returned_le depth c, returned_le (suc depth) c)

path_items_le : (c : List Token) → length (path_items c).1 ≤ length c
unfolding path_items
path_items_le [] = omega arith
path_items_le (t ∷ []) = ground arith
path_items_le (t ∷ comma ∷ c) = ground (arith, path_items_le c)

pub ident_le :
    (c : List Token) (n : Name) (d : List Token) → ident c ≡ some (n, d) → length d ≤ length c
unfolding ident
ident_le [] n d h = ground arith
ident_le (t ∷ c) n d h = ground arith

read_search_path_le : (c : List Token) → length (read_search_path c).1 ≤ length c
unfolding read_search_path
read_search_path_le c =
    let P : List Text × List Token → Type 0 = λ r. length r.1 ≤ length c in
    let from = codes "from" ∷ codes "current" ∷ [] in
    let to = skip_words (codes "to" ∷ []) c in
    if_both P (accepts from c) (skip_words_le from c) (
      if_both P (accepts (codes "to" ∷ []) c)
        (omega (arith, path_items_le to, skip_words_le (codes "to" ∷ []) c))
        (if_both P (peeks is_equals c) (omega (arith, path_items_le (advance c), advance_le c))
          (omega arith)))

set_parameter-Within :
    (n : ℕ) (c : List Token) (p : FunctionPass) → length c ≤ n → Within n (set_parameter c p)
unfolding set_parameter
set_parameter-Within n c p h = elim (Option-cases (ident c)) [
  | inl e ↦ rw (e, set_parameter) (within n c p h)
  | inr ((param, d), e) ↦
      (let shorter : length d ≤ length c = ident_le c param d e in
        rw (e, set_parameter)
          (if_both (Within n) (eq_text param.name (codes "search_path"))
            (within n _ _ (omega (arith, read_search_path_le d))) (within n d p (omega arith))))
]

other_attribute-Within :
    (t : Token) (c : List Token) (p : FunctionPass) → Within (length c) (other_attribute (t ∷ c) p)
unfolding other_attribute
other_attribute-Within t c p =
    let P : List Token × FunctionPass → Type 0 = Within (length c) in
    let named : (w v : Text)
        → accepts (w ∷ v ∷ []) (t ∷ c) ≡ true
        → length (ident_name (skip_words (w ∷ v ∷ []) (t ∷ c))).1 ≤ length c =
      λ w v h.
        omega (
          arith,
          skip_words_lt w (v ∷ []) t c h,
          ident_name_le (skip_words (w ∷ v ∷ []) (t ∷ c)),
        ) in
    if_cases P (accepts (codes "rename" ∷ codes "to" ∷ []) (t ∷ c))
      (λ h. within (length c) _ _ (named (codes "rename") (codes "to") h))
      (λ n.
        if_cases P (accepts (codes "set" ∷ codes "schema" ∷ []) (t ∷ c))
          (λ h. within (length c) _ _ (named (codes "set") (codes "schema") h))
          (λ m. group_or_next t c p))

pub attribute_pass-Consumes : (lower : Text → Text) → Consumes (attribute_pass lower)
unfolding attribute_pass
attribute_pass-Consumes lower t c p =
    let P : List Token × FunctionPass → Type 0 = Within (length c) in
    let words : (w : Text) (ws : List Text) (p : FunctionPass)
        → accepts (w ∷ ws) (t ∷ c) ≡ true
        → P (skip_words (w ∷ ws) (t ∷ c), p) =
      λ w ws q h. within (length c) _ q (skip_words_lt w ws t c h) in
    let returns = skip_words (codes "returns" ∷ []) (t ∷ c) in
    bound (length c) _ (
      if_cases P (accepts (codes "returns" ∷ []) (t ∷ c))
        (λ h.
          within (length c) _ _
            (omega (arith, skip_words_lt (codes "returns") [] t c h, returned_le 0 returns)))
        (λ n.
          if_cases P (accepts (external definer) (t ∷ c)) (words (codes "external") definer _) (λ n.
            if_cases P (accepts definer (t ∷ c)) (words (codes "security") (codes "definer" ∷ []) _)
              (λ n.
                if_cases P (accepts (external invoker) (t ∷ c)) (words (codes "external") invoker _)
                  (λ n.
                    if_cases P (accepts invoker (t ∷ c))
                      (words (codes "security") (codes "invoker" ∷ []) _)
                      (λ n.
                        if_cases P (accepts (codes "set" ∷ []) (t ∷ c))
                          (λ h.
                            set_parameter-Within (length c) _ p
                              (skip_words_lt (codes "set") [] t c h))
                          (λ n.
                            if_cases P (accepts (codes "reset" ∷ codes "all" ∷ []) (t ∷ c))
                              (words (codes "reset") (codes "all" ∷ []) _)
                              (λ n.
                                if_cases P
                                  (accepts (codes "reset" ∷ codes "search_path" ∷ []) (t ∷ c))
                                  (words (codes "reset") (codes "search_path" ∷ []) _)
                                  (λ n. other_attribute-Within t c p)))))))))
