-- ===== src/Db/Model.antt =====
-- src/db/model.ts: the schema model rebuilt from the migrations.
use agent_pipeline_v.Base.{ℕ, Bool, Option, List, [], ◌∷◌, ◌++◌, Text, eq_text, filter, not}
use agent_pipeline_v.Base.Dict.{Dict}
use agent_pipeline_v.Db.Tokenizer.Token.{SqlSyntaxError}

pub record Location : Type 0 where
  pub file : Text
  pub line : ℕ

pub record Column : Type 0 where
  pub name : Text
  pub type_text : Text
  pub quoted : Bool
  pub loc : Location

pub record Table : Type 0 where
  pub schema : Text
  pub name : Text
  pub quoted : Bool
  pub temporary : Bool
  pub columns : Dict Column
  pub rls_enabled : Bool
  pub rls_forced : Bool
  pub loc : Location

pub record ForeignKey : Type 0 where
  pub name : Text
  pub table : Text
  pub columns : List Text
  pub ref_table : Text
  pub ref_columns : List Text
  pub loc : Location

pub data IndexKind : Type 0 where
  plain primary unique : IndexKind

pub record Index : Type 0 where
  pub name : Text
  pub table : Text
  pub kind : IndexKind
  pub is_unique : Bool
  pub columns : List Text
  pub partial : Bool
  pub predicate : Option Text
  pub loc : Location

pub record Policy : Type 0 where
  pub name : Text
  pub table : Text
  pub command : Text
  pub roles : List Text
  pub using : Option Text
  pub with_check : Option Text
  pub loc : Location

pub record Grant : Type 0 where
  pub role : Text
  pub explicit : Bool
  pub loc : Location

pub record DbFunction : Type 0 where
  pub schema : Text
  pub name : Text
  pub quoted : Bool
  pub arg_count : ℕ
  pub arg_types : Text
  pub returns : Text
  pub security_definer : Bool
  pub search_path : Option (List Text)
  pub execute_grants : Dict Grant
  pub loc : Location

pub record DbType : Type 0 where
  pub schema : Text
  pub name : Text
  pub quoted : Bool
  pub kind : Text
  pub loc : Location

-- The messages of the errors that the parser throws.
pub data ParseError : Type 0 where
  table_name_expected column_name_expected references_expected : ParseError
  referenced_table_expected on_expected table_expected policy_shape : ParseError
  function_name_expected bad_pattern : ParseError

-- The messages of the notes.
pub data Message : Type 0 where
  created_twice : Text → Message
  unreadable : SqlSyntaxError → Message
  not_understood : ParseError → Message

pub record Note : Type 0 where
  pub loc : Location
  pub message : Message

pub record SchemaModel : Type 0 where
  pub tables : Dict Table
  pub foreign_keys : List ForeignKey
  pub indexes : List Index
  pub policies : List Policy
  pub functions : List DbFunction
  pub types : Dict DbType
  pub notes : List Note

abbrev pub empty_model : SchemaModel
empty_model = record {
  tables = [];
  foreign_keys = [];
  indexes = [];
  policies = [];
  functions = [];
  types = [];
  notes = [];
}

-- `${schema}.${name}`
unfoldable pub table_key : Text → Text → Text
table_key schema name = schema ++ (b'.' ∷ name)

-- `m.delete(k)` on a map
unfoldable pub remove {ℓ} : {V : Type ℓ} → Text → Dict V → Dict V
unfolding filter
remove k m = filter (λ e. not (eq_text e.0 k)) m

abbrev pub add_note : Location → Message → SchemaModel → SchemaModel
add_note loc message m = record m {
  notes = m.notes ++ (record { loc = loc; message = message } ∷ []);
}
