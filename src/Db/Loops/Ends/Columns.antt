-- ===== src/Db/Loops/Ends/Columns.antt =====
-- src/db/parser.ts: the loop over the constraints of a column, and all four loops.
use agent_pipeline_v.Base.{
  ℕ, ◌≡◌, ◌≤◌, true, Option, some, List, [], ◌∷◌, Text, codes, arith, length, if_cases,
  Option-cases, inl, inr,
}
use agent_pipeline_v.Db.Tokenizer.Token.{Token}
use agent_pipeline_v.Db.Model.{Policy, SchemaModel}
use agent_pipeline_v.Db.Cursor.{Name, accepts, skip_words, qualified, while_on, while_tokens}
use agent_pipeline_v.Db.Tables.{
  Context, MethodOutcome, done, threw, ColumnPass, column_pass, column_step, column_case,
  column_reference,
}
use agent_pipeline_v.Db.Indexes.{where_pass}
use agent_pipeline_v.Db.Policies.{clause_pass}
use agent_pipeline_v.Db.Functions.{FunctionPass, attribute_pass}
use agent_pipeline_v.Db.Loops.{
  Consumes, while_on-while_tokens, skip_words_le, skip_words_lt, group_or_nil_le, ident_name_le,
}
use agent_pipeline_v.Db.Loops.Ends.{
  Within, within, bound, group_or_next, where_pass-Consumes, clause_pass-Consumes,
  attribute_pass-Consumes,
}

qualified_le :
    (c : List Token) (n : Name) (d : List Token) → qualified c ≡ some (n, d) → length d ≤ length c
unfolding qualified
qualified_le [] n d h = ground arith
qualified_le (a ∷ []) n d h = ground arith
qualified_le (a ∷ b ∷ []) n d h = ground arith
qualified_le (a ∷ b ∷ e ∷ c) n d h = ground arith

column_reference-Within :
    (x : Context) (key table column : Text) (line n : ℕ) (c : List Token) (p : ColumnPass)
    (m : SchemaModel)
    → length c ≤ n
    → Within n (column_reference x key table column line c p m)
unfolding column_reference
column_reference-Within x key table column line n c p m h = elim (Option-cases (qualified c)) [
  | inl e ↦ rw (e, column_reference) (within n [] _ (omega arith))
  | inr ((ref, d), e) ↦
      (let shorter = qualified_le c ref d e in
        rw (e, column_reference) (within n _ _ (omega (arith, group_or_nil_le d))))
]

column_step-Within :
    (x : Context) (key table column : Text) (t : Token) (c : List Token) (p : ColumnPass)
    (m : SchemaModel)
    → Within (length c) (column_step x key table column (t ∷ c) p m)
unfolding column_step
column_step-Within x key table column t c p m =
    let P : List Token × ColumnPass → Type 0 = Within (length c) in
    let one : (w : Text)
        → accepts (w ∷ []) (t ∷ c) ≡ true
        → length (skip_words (w ∷ []) (t ∷ c)) ≤ length c =
      λ w h. skip_words_lt w [] t c h in
    let after : Text → List Token = λ w. skip_words (w ∷ []) (t ∷ c) in
    let nulls = codes "nulls" ∷ codes "not" ∷ codes "distinct" ∷ [] in
    if_cases P (accepts (codes "constraint" ∷ []) (t ∷ c))
      (λ h.
        within (length c) _ _
          (omega (arith, one (codes "constraint") h, ident_name_le (after (codes "constraint")))))
      (λ n.
        if_cases P (accepts (codes "primary" ∷ codes "key" ∷ []) (t ∷ c))
          (λ h. within (length c) _ _ (skip_words_lt (codes "primary") (codes "key" ∷ []) t c h))
          (λ n.
            if_cases P (accepts (codes "unique" ∷ []) (t ∷ c))
              (λ h. within (length c) _ _ (
                omega (
                  arith,
                  one (codes "unique") h,
                  skip_words_le nulls (after (codes "unique")),
                  skip_words_le (codes "nulls" ∷ codes "distinct" ∷ [])
                      (skip_words nulls (after (codes "unique"))),
                )))
              (λ n.
                if_cases P (accepts (codes "references" ∷ []) (t ∷ c))
                  (λ h.
                    column_reference-Within x key table column _ (length c) _ p m
                      (one (codes "references") h))
                  (λ n.
                    if_cases P (accepts (codes "check" ∷ []) (t ∷ c))
                      (λ h. within (length c) _ _ (
                        omega
                          (arith, one (codes "check") h, group_or_nil_le (after (codes "check")))))
                      (λ n. group_or_next t c p)))))

column_case-Within :
    (x : Context) (key table column : Text) (t : Token) (c : List Token) (p : ColumnPass)
    (o : MethodOutcome)
    → Within (length c) (column_case x key table column (t ∷ c) p o)
column_case-Within x key table column t c p (threw e m) = within (length c) [] p (omega arith)
column_case-Within x key table column t c p (done m) = column_step-Within x key table column t c p m

column_pass-Consumes :
    (x : Context) (key table column : Text) → Consumes (column_pass x key table column)
unfolding column_pass
column_pass-Consumes x key table column t d q =
    bound (length d) _ (column_case-Within x key table column t d q q.outcome)

-- The loops of the parser end, for the constraints of a column, the end of an index, the clauses of a
-- policy and the attributes of a function: each pass at a token leaves fewer tokens, and any bound on the
-- passes that is at least the number of the tokens gives what the length of the list gives.
pub while_tokens-ends :
    (x : Context) (key table column : Text) (n : ℕ) (c : List Token) (a : ColumnPass)
    (w : Option Text) (p : Policy) (f : FunctionPass)
    → length c ≤ n
    → (Consumes (column_pass x key table column)
        × Consumes where_pass
        × Consumes clause_pass
        × Consumes (attribute_pass x.lower))
      × (while_on n (column_pass x key table column) c a
          ≡ while_tokens (column_pass x key table column) c a)
      × (while_on n where_pass c w ≡ while_tokens where_pass c w)
      × (while_on n clause_pass c p ≡ while_tokens clause_pass c p)
      × (while_on n (attribute_pass x.lower) c f ≡ while_tokens (attribute_pass x.lower) c f)
while_tokens-ends x key table column n c a w p f h = (
  (
    column_pass-Consumes x key table column,
    where_pass-Consumes,
    clause_pass-Consumes,
    attribute_pass-Consumes x.lower,
  ),
  while_on-while_tokens (column_pass x key table column) n c a
      (column_pass-Consumes x key table column) h,
  while_on-while_tokens where_pass n c w where_pass-Consumes h,
  while_on-while_tokens clause_pass n c p clause_pass-Consumes h,
  while_on-while_tokens (attribute_pass x.lower) n c f (attribute_pass-Consumes x.lower) h,
)
