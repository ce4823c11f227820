-- ===== src/Db/Alter.antt =====
-- src/db/parser.ts: `alter table` and `drop table`, and what they do to what names the table.
use agent_pipeline_v.Base.{
  ℕ, Bool, true, false, ◌&&◌, ◌||◌, not, none, some, List, [], ◌∷◌, map, Text, codes, eq_text,
  starts_with, any, filter, if◌then◌else◌, is_some, ◌==◌,
}
use agent_pipeline_v.Base.Dict.{get, put}
use agent_pipeline_v.Db.Tokenizer.Token.{Token}
use agent_pipeline_v.Db.Model.{
  Table, ForeignKey, Index, IndexKind, plain, Policy, bad_pattern, SchemaModel, remove,
}
use agent_pipeline_v.Db.Cursor.{Name, is_one_of, skip_words, ident, take_until, accepts, ident_name}
use agent_pipeline_v.Db.Elements.{tokens_text, starts_table_constraint}
use agent_pipeline_v.Db.Tables.{
  Context, MethodOutcome, done, threw, loc_at, change_table, column_definition,
}
use agent_pipeline_v.Db.Constraints.{table_constraint, non_empty}

-- `key.slice(0, key.indexOf('.'))` and `key.slice(key.indexOf('.') + 1)` of a key, which has a point.
unfoldable pub before_point : Text → Text
before_point [] = []
before_point (c ∷ s) = if c == b'.' then [] else c ∷ before_point s

unfoldable pub after_point : Text → Text
after_point [] = []
after_point (c ∷ s) = if c == b'.' then s else after_point s

abbrev pub renamed : Text → Text → Text → Text
renamed from to t = if eq_text t from then to else t

abbrev pub key_renamed : Text → Text → ForeignKey → ForeignKey
key_renamed from to fk = record fk {
  table = renamed from to fk.table;
  ref_table = renamed from to fk.ref_table;
}

abbrev pub index_renamed : Text → Text → Index → Index
index_renamed from to ix = record ix { table = renamed from to ix.table }

abbrev pub policy_renamed : Text → Text → Policy → Policy
policy_renamed from to p = record p { table = renamed from to p.table }

-- `renameTable`
unfoldable pub rename_table : Context → Text → Text → ℕ → SchemaModel → SchemaModel
unfolding get put remove after_point eq_text
rename_table x from to line m = elim (get from m.tables) [
  | none ↦ m
  | some table ↦ record m {
    tables =
        put to (record table { name = after_point to; loc = loc_at x line }) (remove from m.tables);
    foreign_keys = map (key_renamed from to) m.foreign_keys;
    indexes = map (index_renamed from to) m.indexes;
    policies = map (policy_renamed from to) m.policies;
  }
]

-- The foreign keys and the indexes that a column of a table takes away with it.
unfoldable pub has_column_key : Text → Text → ForeignKey → Bool
unfolding eq_text any
has_column_key key column fk =
    (eq_text fk.table key && any (λ c. eq_text c column) fk.columns)
    || (eq_text fk.ref_table key && any (λ c. eq_text c column) fk.ref_columns)

unfoldable pub has_column : Text → Text → (Text → Bool) → Index → Bool
unfolding eq_text any starts_with
has_column key column mentions ix =
    eq_text ix.table key
    && (any (λ c. eq_text c column || (starts_with (codes "(") c && mentions c)) ix.columns
        || elim ix.predicate [ none ↦ false | some p ↦ mentions p ])

-- `dropColumn`: the pattern of the name may be none, after the column is gone.
unfoldable pub drop_column : Context → Text → Text → SchemaModel → MethodOutcome
unfolding change_table remove filter has_column has_column_key
drop_column x key column m =
    let gone = change_table key (λ t. record t { columns = remove column t.columns }) m in
    elim (x.mention column) [
      | none ↦ threw bad_pattern gone
      | some mentions ↦ done (record gone {
        indexes = filter (λ ix. not (has_column key column mentions ix)) gone.indexes;
        foreign_keys = filter (λ fk. not (has_column_key key column fk)) gone.foreign_keys;
      })
    ]

abbrev is_plain : IndexKind → Bool
is_plain plain = true
is_plain _ = false

-- `dropConstraint`
unfoldable pub drop_constraint : Text → Text → SchemaModel → SchemaModel
unfolding eq_text filter
drop_constraint key name m = record m {
  foreign_keys = filter (λ fk. not (eq_text fk.table key && eq_text fk.name name)) m.foreign_keys;
  indexes =
      filter (λ ix. not (eq_text ix.table key && not (is_plain ix.kind) && eq_text ix.name name))
        m.indexes;
}

-- `rename constraint <from> to <to>`, on the cursor after `constraint`
unfoldable pub rename_constraint : Text → List Token → SchemaModel → SchemaModel
unfolding ident skip_words eq_text
rename_constraint key c m =
    let old = ident_name c in
    let new = ident_name (skip_words (codes "to" ∷ []) old.1) in
    elim (non_empty old.0) [
      | none ↦ m
      | some from ↦ elim (non_empty new.0) [
        | none ↦ m
        | some to ↦ record m {
          foreign_keys =
              map {A = ForeignKey}
                (λ fk. record fk {
                  name = if eq_text fk.table key && eq_text fk.name from then to else fk.name;
                })
                m.foreign_keys;
          indexes =
              map {A = Index}
                (λ ix. record ix {
                  name = if eq_text ix.table key && eq_text ix.name from then to else ix.name;
                })
                m.indexes;
        }
      ]
    ]

-- The column of a table under its new name, which goes last.
unfoldable pub rename_in_table : Context → Text → Name → Table → Table
unfolding get put remove
rename_in_table x from to t = elim (get from t.columns) [
  | none ↦ t
  | some column ↦ record t {
    columns =
        put to.name (record column { name = to.name; quoted = to.quoted; loc = loc_at x to.line })
          (remove from t.columns);
  }
]

-- The writes of `rename [column] <from> to <to>`
unfoldable pub rename_column : Context → Text → Text → Name → SchemaModel → SchemaModel
unfolding change_table rename_in_table eq_text
rename_column x key from to m =
    let in_table = change_table key (rename_in_table x from to) m in
    let all : List Text → List Text = λ cs. map (renamed from to.name) cs in
    record in_table {
      foreign_keys =
          map {A = ForeignKey}
            (λ fk. record fk {
              columns = if eq_text fk.table key then all fk.columns else fk.columns;
              ref_columns = if eq_text fk.ref_table key then all fk.ref_columns else fk.ref_columns;
            })
            m.foreign_keys;
      indexes =
          map {A = Index}
            (λ ix. record ix {
              columns = if eq_text ix.table key then all ix.columns else ix.columns;
            })
            m.indexes;
    }

-- The same on the cursor after `rename`
unfoldable pub rename_named : Context → Text → List Token → SchemaModel → SchemaModel
unfolding ident skip_words get rename_column
rename_named x key c m =
    let old = ident_name (skip_words (codes "column" ∷ []) c) in
    elim (non_empty old.0) [
      | none ↦ m
      | some from ↦ elim (ident (skip_words (codes "to" ∷ []) old.1)) [
        | none ↦ m
        | some (to, d) ↦ if is_some (get key m.tables) then rename_column x key from to m else m
      ]
    ]

abbrev has_named_column : Text → List Token → SchemaModel → Bool
has_named_column key [] m = false
has_named_column key (t ∷ c) m = elim (get key m.tables) [
  | none ↦ false
  | some table ↦ is_some (get t.value table.columns)
]

-- `add`, on the cursor after it
unfoldable pub add_to_table : Context → Text → List Token → SchemaModel → MethodOutcome
unfolding starts_table_constraint table_constraint skip_words column_definition get
add_to_table x key c m =
    let words = codes "if" ∷ codes "not" ∷ codes "exists" ∷ [] in
    let d = skip_words (codes "column" ∷ []) c in
    let e = skip_words words d in
    if starts_table_constraint c
    then table_constraint x key c m
    else (if accepts words d && has_named_column key e m
        then done m
        else column_definition x key e m)

-- `alter [column] <column> [set data] type ...`, on the cursor after `alter`
unfoldable pub alter_column : Context → Text → List Token → SchemaModel → SchemaModel
unfolding ident skip_words get put change_table take_until tokens_text
alter_column x key c m =
    let named = ident_name (skip_words (codes "column" ∷ []) c) in
    let set = codes "set" ∷ codes "data" ∷ codes "type" ∷ [] in
    let after =
      if accepts (codes "type" ∷ []) named.1
      then skip_words (codes "type" ∷ []) named.1
      else skip_words set named.1 in
    let type = take_until (is_one_of (codes "using" ∷ codes "collate" ∷ [])) after in
    let write : Text → Table → Table = λ column t. elim (get column t.columns) [
      | none ↦ t
      | some old ↦ record t {
        columns = put column (record old { type_text = x.lower (tokens_text type.0) }) t.columns;
      }
    ] in
    elim (non_empty named.0) [
      | none ↦ m
      | some column ↦
          if accepts (codes "type" ∷ []) named.1 || accepts set named.1
          then change_table key (write column) m
          else m
    ]
