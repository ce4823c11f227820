-- ===== src/Db/AlterTable.antt =====
-- src/db/parser.ts: the actions of `alter table`, and `drop table`.
pub mod Mentions
use agent_pipeline_v.Base.{
  ℕ, ◌≡◌, Bool, true, false, ◌&&◌, ◌||◌, not, Option, none, some, List, [], ◌∷◌, Text, codes,
  eq_text, filter, if◌then◌else◌, is_some,
}
use agent_pipeline_v.Base.Dict.{get}
use agent_pipeline_v.Db.Tokenizer.Token.{Token}
use agent_pipeline_v.Db.Model.{Table, ForeignKey, Index, Policy, SchemaModel, table_key, remove}
use agent_pipeline_v.Db.Cursor.{Name, skip_words, ident, qualified, accepts, ident_name}
use agent_pipeline_v.Db.Elements.{split_top_level}
use agent_pipeline_v.Db.Tables.{
  Context, MethodOutcome, done, threw, ◌then_do◌, resolve_table, change_table,
}
use agent_pipeline_v.Db.Constraints.{non_empty}
use agent_pipeline_v.Db.Alter.{
  before_point, rename_table, drop_column, drop_constraint, rename_constraint, rename_named,
  add_to_table, alter_column,
}

-- `drop [column] [if exists] <column>`, on the cursor after `drop`
unfoldable pub drop_named_column : Context → Text → List Token → SchemaModel → MethodOutcome
unfolding skip_words ident drop_column
drop_named_column x key c m =
    elim (non_empty
      (ident_name
        (skip_words (codes "if" ∷ codes "exists" ∷ []) (skip_words (codes "column" ∷ []) c))).0) [
          | none ↦ done m
          | some column ↦ drop_column x key column m
        ]

-- `drop constraint [if exists] <name>`, on the cursor after `constraint`
unfoldable pub drop_named_constraint : Text → List Token → SchemaModel → SchemaModel
unfolding skip_words ident drop_constraint
drop_named_constraint key c m =
    elim (non_empty (ident_name (skip_words (codes "if" ∷ codes "exists" ∷ []) c)).0) [
      | none ↦ m
      | some name ↦ drop_constraint key name m
    ]

abbrev pub row_level_security : List Text
row_level_security = codes "row" ∷ codes "level" ∷ codes "security" ∷ []

-- The actions on the table itself: its row level security, and its columns.
unfoldable pub flag_action : Context → Text → List Token → SchemaModel → SchemaModel
unfolding change_table alter_column skip_words
flag_action x key a m =
    if accepts (codes "enable" ∷ row_level_security) a
    then change_table key (λ t. record t { rls_enabled = true }) m
    else (if accepts (codes "disable" ∷ row_level_security) a
        then change_table key (λ t. record t { rls_enabled = false }) m
        else (if accepts (codes "force" ∷ row_level_security) a
            then change_table key (λ t. record t { rls_forced = true }) m
            else (if accepts (codes "no" ∷ codes "force" ∷ row_level_security) a
                then change_table key (λ t. record t { rls_forced = false }) m
                else (if accepts (codes "alter" ∷ []) a
                    then alter_column x key (skip_words (codes "alter" ∷ []) a) m
                    else m))))

-- The actions that leave the table its name.
unfoldable pub table_action : Context → Text → List Token → SchemaModel → MethodOutcome
unfolding skip_words rename_constraint rename_named add_to_table drop_named_constraint
    drop_named_column flag_action get
table_action x key a m =
    if accepts (codes "rename" ∷ codes "constraint" ∷ []) a
    then done (rename_constraint key (skip_words (codes "rename" ∷ codes "constraint" ∷ []) a) m)
    else (if accepts (codes "rename" ∷ []) a
        then done (rename_named x key (skip_words (codes "rename" ∷ []) a) m)
        else (if accepts (codes "add" ∷ []) a
            then add_to_table x key (skip_words (codes "add" ∷ []) a) m
            else (if accepts (codes "drop" ∷ codes "constraint" ∷ []) a
                then done (
                    drop_named_constraint key
                      (skip_words (codes "drop" ∷ codes "constraint" ∷ []) a) m)
                else (if accepts (codes "drop" ∷ []) a
                    then drop_named_column x key (skip_words (codes "drop" ∷ []) a) m
                    else (if is_some (get key m.tables)
                        then done (flag_action x key a m)
                        else done m)))))

-- The loop over the actions, with the key of the table.
unfoldable pub table_actions : Context → Text → List (List Token) → SchemaModel → MethodOutcome
unfolding table_action ident before_point rename_table skip_words
table_actions x key [] m = done m
table_actions x key (a ∷ rest) m =
    let same = table_action x key a m then_do table_actions x key rest in
    let onward = table_actions x key rest m in
    let rename : Name → MethodOutcome = λ to.
      let next = table_key (before_point key) to.name in
      table_actions x next rest (rename_table x key next to.line m) in
    if accepts (codes "rename" ∷ codes "to" ∷ []) a
    then elim (ident (skip_words (codes "rename" ∷ codes "to" ∷ []) a)) [
      | none ↦ onward
      | some (to, d) ↦ rename to
    ]
    else same

-- `alterTable`
unfoldable pub alter_table : Context → List Token → SchemaModel → MethodOutcome
unfolding skip_words qualified resolve_table split_top_level table_actions
alter_table x c m =
    elim (qualified
      (skip_words (codes "only" ∷ []) (skip_words (codes "if" ∷ codes "exists" ∷ []) c))) [
        | none ↦ done m
        | some (n, d) ↦ table_actions x (resolve_table n m) (split_top_level d) m
      ]

unfoldable pub drop_key : Text → SchemaModel → SchemaModel
unfolding remove filter eq_text
drop_key key m = record m {
  tables = remove key m.tables;
  indexes = filter (λ ix. not (eq_text ix.table key)) m.indexes;
  foreign_keys =
      filter (λ fk. not (eq_text fk.table key) && not (eq_text fk.ref_table key)) m.foreign_keys;
  policies = filter (λ p. not (eq_text p.table key)) m.policies;
}

unfoldable pub drop_tables : List (List Token) → SchemaModel → SchemaModel
unfolding qualified resolve_table drop_key
drop_tables [] m = m
drop_tables (part ∷ parts) m = elim (qualified part) [
  | none ↦ drop_tables parts m
  | some (n, d) ↦ drop_tables parts (drop_key (resolve_table n m) m)
]

-- `dropTable`
unfoldable pub drop_table : List Token → SchemaModel → SchemaModel
unfolding skip_words split_top_level drop_tables
drop_table c m = drop_tables (split_top_level (skip_words (codes "if" ∷ codes "exists" ∷ []) c)) m
