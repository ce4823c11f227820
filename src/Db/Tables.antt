-- ===== src/Db/Tables.antt =====
-- src/db/parser.ts: `create table`, its columns and its constraints. A method that throws leaves the
-- changes made before it, so that an error comes with a model.
use agent_pipeline_v.Base.{
  ℕ, Bool, true, false, ◌&&◌, Option, none, some, List, [], ◌∷◌, ◌++◌, Text, codes, if◌then◌else◌,
  is_some, or_else, is_empty,
}
use agent_pipeline_v.Base.Dict.{get, put}
use agent_pipeline_v.Db.Tokenizer.Token.{Token}
use agent_pipeline_v.Db.Statements.{is_punct}
use agent_pipeline_v.Db.Model.{
  Location, Column, Table, ForeignKey, Index, IndexKind, primary, unique, ParseError,
  column_name_expected, referenced_table_expected, SchemaModel, table_key,
}
use agent_pipeline_v.Db.Cursor.{
  Name, peeks, advance, is_one_of, skip_words, ident, qualified, group, group_or_nil, while_tokens,
  accepts, ident_name,
}
use agent_pipeline_v.Db.Elements.{
  Depth, up, deeper, shallower, is_level, join, tokens_text, column_list,
}

-- The file that is read, the options, and what the runtime does of texts: `toLowerCase`, and the test of
-- the pattern of `dropColumn` for a column, where the name makes one.
pub record Context : Type 0 where
  pub file : Text
  pub supabase_defaults : Bool
  pub lower : Text → Text
  pub mention : Text → Option (Text → Bool)

pub data MethodOutcome : Type 0 where
  done : SchemaModel → MethodOutcome
  threw : ParseError → SchemaModel → MethodOutcome

infixl 5 ◌then_do◌
abbrev pub ◌then_do◌ : MethodOutcome → (SchemaModel → MethodOutcome) → MethodOutcome
done m then_do f = f m
threw e m then_do f = threw e m

abbrev pub loc_at : Context → ℕ → Location
loc_at x line = record { file = x.file; line = line }

abbrev pub public_schema : Option Text → Text
public_schema schema = or_else schema (codes "public")

-- `resolveTable`: an empty schema is none.
unfoldable pub resolve_table : Name → SchemaModel → Text
unfolding get table_key
resolve_table n m =
    let temp = table_key (codes "pg_temp") n.name in
    let found = if is_some (get temp m.tables) then temp else table_key (codes "public") n.name in
    elim n.schema [
      | some schema ↦ if is_empty schema then found else table_key schema n.name
      | none ↦ found
    ]

abbrev pub add_index : Index → SchemaModel → SchemaModel
add_index ix m = record m { indexes = m.indexes ++ (ix ∷ []) }

abbrev pub add_foreign_key : ForeignKey → SchemaModel → SchemaModel
add_foreign_key fk m = record m { foreign_keys = m.foreign_keys ++ (fk ∷ []) }

-- A change of the table at a key, if there is one.
unfoldable pub change_table : Text → (Table → Table) → SchemaModel → SchemaModel
unfolding get put
change_table key f m = elim (get key m.tables) [
  | none ↦ m
  | some t ↦ record m { tables = put key (f t) m.tables }
]

-- COLUMN_CONSTRAINT_WORDS
unfoldable pub is_constraint_word : Token → Bool
is_constraint_word t =
    is_one_of
      (codes "not"
        ∷ codes "null"
        ∷ codes "default"
        ∷ codes "primary"
        ∷ codes "unique"
        ∷ codes "references"
        ∷ codes "check"
        ∷ codes "constraint"
        ∷ codes "generated"
        ∷ codes "collate"
        ∷ codes "deferrable"
        ∷ codes "initially"
        ∷ [])
      t

-- The tokens of the type of a column, and the cursor after them.
unfoldable pub type_tokens : Depth → List Token → List Token × List Token
unfolding is_constraint_word
type_tokens d [] = ([], [])
type_tokens d (t ∷ c) =
    let opened = if is_punct (codes "(") t then deeper d else d in
    let r = type_tokens (if is_punct (codes ")") t then shallower opened else opened) c in
    if is_level d && is_constraint_word t then ([], t ∷ c) else (t ∷ r.0, r.1)

-- The variables of the loop over the constraints of a column.
pub record ColumnPass : Type 0 where
  pub outcome : MethodOutcome
  pub constraint_name : Option Text

abbrev unnamed : MethodOutcome → ColumnPass
unnamed o = record { outcome = o; constraint_name = none }

abbrev pub key_index : Text → Text → IndexKind → List Text → Location → Index
key_index name key kind columns at = record {
  name = name;
  table = key;
  kind = kind;
  is_unique = true;
  columns = columns;
  partial = false;
  predicate = none;
  loc = at;
}

abbrev pub head_line : List Token → ℕ
head_line [] = 0
head_line (t ∷ c) = t.line

abbrev pub skip_nulls : List Token → List Token
skip_nulls c =
    skip_words (codes "nulls" ∷ codes "distinct" ∷ [])
      (skip_words (codes "nulls" ∷ codes "not" ∷ codes "distinct" ∷ []) c)

-- `references <table> [(columns)]` of a column; an error leaves the loop.
unfoldable pub column_reference :
    Context
    → Text
    → Text
    → Text
    → ℕ
    → List Token
    → ColumnPass
    → SchemaModel
    → List Token × ColumnPass
unfolding qualified group resolve_table column_list join
column_reference x key table column line c p m = elim (qualified c) [
  | none ↦ ([], unnamed (threw referenced_table_expected m))
  | some (ref, d) ↦
      (let g = group_or_nil d in
        (
          g.1,
          unnamed (
              done (
                add_foreign_key
                  (record {
                    name =
                        or_else p.constraint_name
                          (join (codes "_") (table ∷ column ∷ codes "fkey" ∷ []));
                    table = key;
                    columns = column ∷ [];
                    ref_table = resolve_table ref m;
                    ref_columns = elim (group d) [
                      | none ↦ codes "id" ∷ []
                      | some found ↦ column_list found.0
                    ];
                    loc = loc_at x line;
                  })
                  m)),
        ))
]

-- One pass of that loop, on the model that it has.
unfoldable pub column_step :
    Context → Text → Text → Text → List Token → ColumnPass → SchemaModel → List Token × ColumnPass
unfolding skip_words column_reference group_or_nil join ident
column_step x key table column c p m =
    let named : List Text → Text = λ suffix. or_else p.constraint_name (join (codes "_") suffix) in
    let found = ident_name (skip_words (codes "constraint" ∷ []) c) in
    if accepts (codes "constraint" ∷ []) c
    then (found.1, record p { constraint_name = found.0 })
    else (if accepts (codes "primary" ∷ codes "key" ∷ []) c
        then (
          skip_words (codes "primary" ∷ codes "key" ∷ []) c,
          unnamed (
              done (
                add_index
                  (key_index (named (table ∷ codes "pkey" ∷ [])) key primary (column ∷ [])
                    (loc_at x (head_line c)))
                  m)),
        )
        else (if accepts (codes "unique" ∷ []) c
            then (
              skip_nulls (skip_words (codes "unique" ∷ []) c),
              unnamed (
                  done (
                    add_index
                      (key_index (named (table ∷ column ∷ codes "key" ∷ [])) key unique
                        (column ∷ []) (loc_at x (head_line c)))
                      m)),
            )
            else (if accepts (codes "references" ∷ []) c
                then column_reference x key table column (head_line c)
                    (skip_words (codes "references" ∷ []) c) p m
                else (if accepts (codes "check" ∷ []) c
                    then (
                      (group_or_nil (skip_words (codes "check" ∷ []) c)).1,
                      record p { constraint_name = none },
                    )
                    else (if peeks (is_punct (codes "(")) c
                        then ((group_or_nil c).1, p)
                        else (advance c, p))))))

-- An error leaves the loop.
abbrev pub column_case :
    Context → Text → Text → Text → List Token → ColumnPass → MethodOutcome → List Token × ColumnPass
column_case x key table column c p (threw e m) = ([], p)
column_case x key table column c p (done m) = column_step x key table column c p m

unfoldable pub column_pass :
    Context → Text → Text → Text → List Token → ColumnPass → List Token × ColumnPass
unfolding column_step
column_pass x key table column c p = column_case x key table column c p p.outcome

-- `columnDefinition`, for the table at the key.
unfoldable pub define_column : Context → Text → Table → List Token → SchemaModel → MethodOutcome
unfolding ident type_tokens tokens_text change_table put while_tokens column_pass
define_column x key table c m = elim (ident c) [
  | none ↦ threw column_name_expected m
  | some (n, d) ↦
      (let r = type_tokens (up 0) d in
        let column : Column = record {
          name = n.name;
          type_text = x.lower (tokens_text r.0);
          quoted = n.quoted;
          loc = loc_at x n.line;
        } in
        let added = change_table key (λ t. record t { columns = put n.name column t.columns }) m in
        (while_tokens (column_pass x key table.name n.name) r.1 (unnamed (done added))).outcome)
]

unfoldable pub column_definition : Context → Text → List Token → SchemaModel → MethodOutcome
unfolding get define_column
column_definition x key c m = elim (get key m.tables) [
  | none ↦ done m
  | some table ↦ define_column x key table c m
]
