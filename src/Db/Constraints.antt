-- ===== src/Db/Constraints.antt =====
-- src/db/parser.ts: the constraints of a table, and `create table` with its elements.
use agent_pipeline_v.Base.{
  ℕ, Bool, true, false, ◌&&◌, Option, none, some, List, [], ◌∷◌, map, Text, codes, eq_text,
  if◌then◌else◌, is_some, or_else, is_empty,
}
use agent_pipeline_v.Base.Dict.{get, put}
use agent_pipeline_v.Db.Tokenizer.Token.{Token}
use agent_pipeline_v.Db.Statements.{is_word}
use agent_pipeline_v.Db.Model.{
  Table, primary, unique, table_name_expected, references_expected, referenced_table_expected,
  created_twice, SchemaModel, table_key, add_note,
}
use agent_pipeline_v.Db.Cursor.{
  Name, skip_words, ident, qualified, group, group_or_nil, accepts, ident_name,
}
use agent_pipeline_v.Db.Elements.{split_top_level, join, column_list, starts_table_constraint}
use agent_pipeline_v.Db.Tables.{
  Context, MethodOutcome, done, threw, ◌then_do◌, loc_at, public_schema, resolve_table, add_index,
  add_foreign_key, key_index, head_line, skip_nulls, column_definition,
}

-- The first of the list that passes is changed: `find`, then an assignment to what it found.
unfoldable pub change_first {ℓ} : {A : Type ℓ} → (A → Bool) → (A → A) → List A → List A
change_first p f [] = []
change_first p f (a ∷ rest) = if p a then f a ∷ rest else a ∷ change_first p f rest

-- A text that is there and not empty, as `if (name)` tests it.
abbrev pub non_empty : Option Text → Option Text
non_empty none = none
non_empty (some s) = if is_empty s then none else some s

-- `unique using index <name>`
unfoldable pub adopt_index : Text → Option Text → Option Text → SchemaModel → SchemaModel
unfolding change_first eq_text
adopt_index key name none m = m
adopt_index key name (some wanted) m = record m {
  indexes =
      change_first (λ ix. eq_text ix.name wanted && eq_text ix.table key)
        (λ ix. record ix {
          kind = unique;
          is_unique = true;
          name = or_else (non_empty name) ix.name;
        })
        m.indexes;
}

-- `references <table> [(columns)]` of a table constraint.
unfoldable pub table_reference :
    Context → Text → Table → Option Text → ℕ → List Text → List Token → SchemaModel → MethodOutcome
unfolding skip_words qualified group resolve_table column_list join
table_reference x key table name line columns c m =
    if accepts (codes "references" ∷ []) c
    then elim (qualified (skip_words (codes "references" ∷ []) c)) [
      | none ↦ threw referenced_table_expected m
      | some (ref, d) ↦ done (
          add_foreign_key
            (record {
              name =
                  or_else name
                    (join (codes "_") (table.name ∷ join (codes "_") columns ∷ codes "fkey" ∷ []));
              table = key;
              columns = columns;
              ref_table = resolve_table ref m;
              ref_columns = elim (group d) [
                | none ↦ map (λ c. codes "id") columns
                | some found ↦ column_list found.0
              ];
              loc = loc_at x line;
            })
            m)
    ]
    else threw references_expected m

-- What comes after `constraint <name>`.
unfoldable pub constraint_body :
    Context → Text → Table → Option Text → ℕ → List Token → SchemaModel → MethodOutcome
unfolding skip_words group_or_nil column_list join adopt_index table_reference ident
constraint_body x key table name line c m =
    if accepts (codes "primary" ∷ codes "key" ∷ []) c
    then (let g = group_or_nil (skip_words (codes "primary" ∷ codes "key" ∷ []) c) in
        done (
          add_index
            (key_index (or_else name (join (codes "_") (table.name ∷ codes "pkey" ∷ []))) key
              primary (column_list g.0) (loc_at x line))
            m))
    else (if accepts (codes "unique" ∷ []) c
        then (let d = skip_nulls (skip_words (codes "unique" ∷ []) c) in
            let columns = column_list (group_or_nil d).0 in
            if accepts (codes "using" ∷ codes "index" ∷ []) d
            then done (
                adopt_index key name
                  (ident_name (skip_words (codes "using" ∷ codes "index" ∷ []) d)).0 m)
            else done (
                add_index
                  (key_index
                    (or_else name
                      (join (codes "_") (table.name ∷ join (codes "_") columns ∷ codes "key" ∷ [])))
                    key unique columns (loc_at x line))
                  m))
        else (if accepts (codes "foreign" ∷ codes "key" ∷ []) c
            then (let g = group_or_nil (skip_words (codes "foreign" ∷ codes "key" ∷ []) c) in
                table_reference x key table name line (column_list g.0) g.1 m)
            else done m))

-- `tableConstraint`; its callers give a token at least.
unfoldable pub table_constraint : Context → Text → List Token → SchemaModel → MethodOutcome
unfolding get constraint_body skip_words ident
table_constraint x key c m = elim (get key m.tables) [
  | none ↦ done m
  | some table ↦
      (let named = ident_name (skip_words (codes "constraint" ∷ []) c) in
        if accepts (codes "constraint" ∷ []) c
        then constraint_body x key table named.0 (head_line c) named.1 m
        else constraint_body x key table none (head_line c) c m)
]

unfoldable pub table_element : Context → Text → List Token → SchemaModel → MethodOutcome
unfolding starts_table_constraint table_constraint column_definition
table_element x key [] m = done m
table_element x key (t ∷ ts) m =
    if starts_table_constraint (t ∷ ts)
    then table_constraint x key (t ∷ ts) m
    else (if is_word (codes "like") t then done m else column_definition x key (t ∷ ts) m)

unfoldable pub table_elements : Context → Text → List (List Token) → SchemaModel → MethodOutcome
unfolding table_element
table_elements x key [] m = done m
table_elements x key (e ∷ es) m = table_element x key e m then_do table_elements x key es

unfoldable pub new_table : Context → Text → Name → Bool → Table
new_table x schema n temporary = record {
  schema = schema;
  name = n.name;
  quoted = n.quoted;
  temporary = temporary;
  columns = [];
  rls_enabled = false;
  rls_forced = false;
  loc = loc_at x n.line;
}

-- The table of the name, and its elements.
unfoldable pub create_named :
    Context → Bool → Bool → Name → List Token → SchemaModel → MethodOutcome
unfolding table_key get put new_table group split_top_level table_elements
create_named x temporary if_not_exists n c m =
    let schema = if temporary then codes "pg_temp" else public_schema n.schema in
    let key = table_key schema n.name in
    let present = is_some (get key m.tables) in
    let noted = if present then add_note (loc_at x n.line) (created_twice key) m else m in
    let created : SchemaModel = record noted {
      tables = put key (new_table x schema n temporary) noted.tables;
    } in
    if present && if_not_exists then done m else (elim (group c) [
      | none ↦ done created
      | some body ↦ table_elements x key (split_top_level body.0) created
    ])

-- `createTable`
unfoldable pub create_table : Context → Bool → List Token → SchemaModel → MethodOutcome
unfolding skip_words qualified create_named
create_table x temporary c m =
    let words = codes "if" ∷ codes "not" ∷ codes "exists" ∷ [] in
    elim (qualified (skip_words words c)) [
      | none ↦ threw table_name_expected m
      | some (n, d) ↦ create_named x temporary (accepts words c) n d m
    ]
