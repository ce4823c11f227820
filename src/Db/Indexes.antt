-- ===== src/Db/Indexes.antt =====
-- src/db/parser.ts: `create index`, `alter index` and `drop index`.
use agent_pipeline_v.Base.{
  ℕ, Bool, ◌&&◌, ◌||◌, not, Option, none, some, List, [], ◌∷◌, map, Text, codes, eq_text, any,
  filter, if◌then◌else◌, is_some, leb, ◌==◌,
}
use agent_pipeline_v.Db.Tokenizer.Token.{Token}
use agent_pipeline_v.Db.Statements.{is_word, is_punct}
use agent_pipeline_v.Db.Model.{Index, plain, unique, on_expected, table_expected, SchemaModel}
use agent_pipeline_v.Db.Cursor.{
  Name, peeks, advance, skip_words, ident, qualified, group_or_nil, while_tokens, accepts,
}
use agent_pipeline_v.Db.Elements.{split_top_level, join, tokens_text, column_list}
use agent_pipeline_v.Db.Tables.{
  Context, MethodOutcome, done, threw, loc_at, resolve_table, add_index,
}
use agent_pipeline_v.Db.Alter.{after_point}

-- `\w`
abbrev is_word_unit : ℕ → Bool
is_word_unit c =
    (leb b'0' c && leb c b'9')
    || (leb b'A' c && leb c b'Z')
    || (leb b'a' c && leb c b'z')
    || c == b'_'

-- One pass of the loop that looks for `where`, which takes what is left.
unfoldable pub where_pass : List Token → Option Text → List Token × Option Text
unfolding skip_words tokens_text group_or_nil
where_pass c p =
    if accepts (codes "where" ∷ []) c
    then ([], some (tokens_text (skip_words (codes "where" ∷ []) c)))
    else (if peeks (is_punct (codes "(")) c then ((group_or_nil c).1, p) else (advance c, p))

-- The name that is given to an index with none.
unfoldable pub index_name : Text → List Text → Text
unfolding after_point join filter
index_name key columns =
    join (codes "_")
      (after_point key ∷ join (codes "_") (map (filter is_word_unit) columns) ∷ codes "idx" ∷ [])

-- The index, on the cursor after the table.
unfoldable pub index_on :
    Context → Bool → Bool → Option Name → Name → List Token → SchemaModel → SchemaModel
unfolding skip_words group_or_nil column_list while_tokens where_pass resolve_table index_name any
    eq_text
index_on x is_unique if_not_exists named table c m =
    let after =
      if accepts (codes "using" ∷ []) c then advance (skip_words (codes "using" ∷ []) c) else c in
    let g = group_or_nil after in
    let columns = column_list g.0 in
    let predicate = while_tokens where_pass g.1 none in
    let key = resolve_table table m in
    let name : Text = elim named [ none ↦ index_name key columns | some n ↦ n.name ] in
    if if_not_exists && any (λ ix. eq_text ix.name name) m.indexes
    then m
    else add_index
        (record {
          name = name;
          table = key;
          kind = if is_unique then unique else plain;
          is_unique = is_unique;
          columns = columns;
          partial = is_some predicate;
          predicate = predicate;
          loc = loc_at x (elim named [ none ↦ table.line | some n ↦ n.line ]);
        })
        m

abbrev given_name : List Token → Option Name × List Token
given_name c =
    if peeks (is_word (codes "on")) c
    then (none, c)
    else elim (qualified c) [ none ↦ (none, c) | some p ↦ (some p.0, p.1) ]

-- `createIndex`
unfoldable pub create_index : Context → Bool → List Token → SchemaModel → MethodOutcome
unfolding skip_words qualified index_on
create_index x is_unique c m =
    let words = codes "if" ∷ codes "not" ∷ codes "exists" ∷ [] in
    let d = skip_words (codes "concurrently" ∷ []) c in
    let named = given_name (skip_words words d) in
    if accepts (codes "on" ∷ []) named.1
    then elim (qualified (skip_words (codes "only" ∷ []) (skip_words (codes "on" ∷ []) named.1))) [
      | none ↦ threw table_expected m
      | some (table, e) ↦ done (index_on x is_unique (accepts words d) named.0 table e m)
    ]
    else threw on_expected m

-- `alterIndex`
unfoldable pub alter_index : List Token → SchemaModel → SchemaModel
unfolding skip_words qualified ident eq_text
alter_index c m = elim (qualified (skip_words (codes "if" ∷ codes "exists" ∷ []) c)) [
  | none ↦ m
  | some (n, d) ↦
      if accepts (codes "rename" ∷ codes "to" ∷ []) d
      then elim (ident (skip_words (codes "rename" ∷ codes "to" ∷ []) d)) [
        | none ↦ m
        | some (to, e) ↦ record m {
          indexes =
              map {A = Index}
                (λ ix. record ix { name = if eq_text ix.name n.name then to.name else ix.name })
                m.indexes;
        }
      ]
      else m
]

unfoldable pub drop_indexes : List (List Token) → SchemaModel → SchemaModel
unfolding qualified filter eq_text
drop_indexes [] m = m
drop_indexes (part ∷ parts) m = elim (qualified part) [
  | none ↦ drop_indexes parts m
  | some (n, d) ↦
      drop_indexes parts
        (record m { indexes = filter (λ ix. not (eq_text ix.name n.name)) m.indexes })
]

-- `dropIndex`
unfoldable pub drop_index : List Token → SchemaModel → SchemaModel
unfolding skip_words split_top_level drop_indexes
drop_index c m =
    drop_indexes
      (split_top_level
        (skip_words (codes "if" ∷ codes "exists" ∷ []) (skip_words (codes "concurrently" ∷ []) c)))
      m
