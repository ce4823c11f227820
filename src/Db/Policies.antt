-- ===== src/Db/Policies.antt =====
-- src/db/parser.ts: `create policy`, `alter policy` and `drop policy`.
use agent_pipeline_v.Base.{
  Bool, ◌&&◌, not, Option, none, some, List, [], ◌∷◌, ◌++◌, Text, codes, eq_text, filter,
  if◌then◌else◌,
}
use agent_pipeline_v.Db.Tokenizer.Token.{Token}
use agent_pipeline_v.Db.Model.{Policy, policy_shape, table_expected, SchemaModel}
use agent_pipeline_v.Db.Cursor.{
  Name, advance, is_one_of, skip_words, ident, qualified, group_or_nil, while_tokens, take_until,
  accepts,
}
use agent_pipeline_v.Db.Elements.{tokens_text, role_list}
use agent_pipeline_v.Db.Tables.{Context, MethodOutcome, done, threw, loc_at, resolve_table}
use agent_pipeline_v.Db.Constraints.{change_first}

abbrev head_value : Text → List Token → Text
head_value d [] = d
head_value d (t ∷ c) = t.value

-- One pass of `policyClauses`.
unfoldable pub clause_pass : List Token → Policy → List Token × Policy
unfolding skip_words take_until role_list group_or_nil tokens_text
clause_pass c p =
    let after : Text → List Token = λ w. skip_words (w ∷ []) c in
    let roles = take_until (is_one_of (codes "using" ∷ codes "with" ∷ [])) (after (codes "to")) in
    let using = group_or_nil (after (codes "using")) in
    let check = group_or_nil (skip_words (codes "with" ∷ codes "check" ∷ []) c) in
    if accepts (codes "as" ∷ []) c
    then (advance (after (codes "as")), p)
    else (if accepts (codes "for" ∷ []) c
        then (
          advance (after (codes "for")),
          record p { command = head_value (codes "all") (after (codes "for")) },
        )
        else (if accepts (codes "to" ∷ []) c
            then (roles.1, record p { roles = role_list roles.0 })
            else (if accepts (codes "using" ∷ []) c
                then (using.1, record p { using = some (tokens_text using.0) })
                else (if accepts (codes "with" ∷ codes "check" ∷ []) c
                    then (check.1, record p { with_check = some (tokens_text check.0) })
                    else (advance c, p)))))

-- `policyClauses`
unfoldable pub policy_clauses : List Token → Policy → Policy
unfolding while_tokens clause_pass
policy_clauses c p = while_tokens clause_pass c p

-- `<name> on <table>`: the policy and its table, and the cursor after them.
unfoldable pub policy_on : List Token → Option Name × Option (Name × List Token)
unfolding skip_words ident qualified
policy_on c = elim (ident c) [
  | none ↦ (none, none)
  | some (n, d) ↦
      if accepts (codes "on" ∷ []) d
      then (some n, qualified (skip_words (codes "on" ∷ []) d))
      else (none, none)
]

-- `createPolicy`
unfoldable pub create_policy : Context → List Token → SchemaModel → MethodOutcome
unfolding policy_on resolve_table policy_clauses
create_policy x c m = elim (policy_on c).0 [
  | none ↦ threw policy_shape m
  | some n ↦ elim (policy_on c).1 [
    | none ↦ threw table_expected m
    | some (table, d) ↦ done (record m {
      policies =
          m.policies
          ++ (policy_clauses d (record {
            name = n.name;
            table = resolve_table table m;
            command = codes "all";
            roles = codes "public" ∷ [];
            using = none;
            with_check = none;
            loc = loc_at x n.line;
          })
              ∷ []);
    })
  ]
]

abbrev is_policy : Text → Text → Policy → Bool
is_policy key name p = eq_text p.table key && eq_text p.name name

-- `alterPolicy`, on the policy found
unfoldable pub altered_policy : Context → Name → List Token → Policy → Policy
unfolding skip_words ident policy_clauses
altered_policy x n c p =
    if accepts (codes "rename" ∷ codes "to" ∷ []) c
    then elim (ident (skip_words (codes "rename" ∷ codes "to" ∷ []) c)) [
      | none ↦ p
      | some (to, d) ↦ record p { name = to.name }
    ]
    else record (policy_clauses c p) { loc = loc_at x n.line }

unfoldable pub alter_policy : Context → List Token → SchemaModel → SchemaModel
unfolding policy_on resolve_table change_first altered_policy eq_text
alter_policy x c m = elim (policy_on c).0 [
  | none ↦ m
  | some n ↦ elim (policy_on c).1 [
    | none ↦ m
    | some (table, d) ↦ record m {
      policies =
          change_first (is_policy (resolve_table table m) n.name) (altered_policy x n d) m.policies;
    }
  ]
]

-- `dropPolicy`
unfoldable pub drop_policy : List Token → SchemaModel → SchemaModel
unfolding skip_words policy_on resolve_table filter eq_text
drop_policy c m =
    let found = policy_on (skip_words (codes "if" ∷ codes "exists" ∷ []) c) in
    elim found.0 [
      | none ↦ m
      | some n ↦ elim found.1 [
        | none ↦ m
        | some (table, d) ↦ record m {
          policies = filter (λ p. not (is_policy (resolve_table table m) n.name p)) m.policies;
        }
      ]
    ]
