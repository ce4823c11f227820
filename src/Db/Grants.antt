-- ===== src/Db/Grants.antt =====
-- src/db/parser.ts: `grant` and `revoke` of EXECUTE, and the types.
pub mod Roles
use agent_pipeline_v.Base.{
  ℕ, ◌≡◌, Bool, true, false, ◌&&◌, ◌||◌, not, Option, none, some, List, [], ◌∷◌, ◌++◌, map, Text,
  codes, eq_text, any, filter, is_empty, if◌then◌else◌, is_some,
}
use agent_pipeline_v.Base.Dict.{Dict, get, put}
use agent_pipeline_v.Db.Tokenizer.Token.{Token}
use agent_pipeline_v.Db.Statements.{is_word, is_word_kind}
use agent_pipeline_v.Db.Model.{Location, Grant, DbFunction, DbType, SchemaModel, table_key, remove}
use agent_pipeline_v.Db.Cursor.{
  Name, peeks, is_one_of, skip_words, ident, qualified, take_until, accepts,
}
use agent_pipeline_v.Db.Elements.{split_top_level, role_list, flat_map}
use agent_pipeline_v.Db.Tables.{Context, loc_at, public_schema}
use agent_pipeline_v.Db.Functions.{is_found}
use agent_pipeline_v.Db.Routines.{put_grants, given_count}

-- A schema of `all functions in schema a, b`; an empty name is dropped.
abbrev schema_of : List Token → List Text
schema_of [] = []
schema_of (t ∷ part) = if is_empty t.value then [] else t.value ∷ []

-- A list of functions, as the test of being one of those found for a part.
unfoldable pub is_listed : (Text → Text) → List (List Token) → List DbFunction → DbFunction → Bool
unfolding qualified given_count is_found
is_listed lower [] fs f = false
is_listed lower (part ∷ parts) fs f =
    let more = is_listed lower parts fs f in
    elim (qualified part) [
      | none ↦ more
      | some (n, d) ↦ is_found n (given_count lower d).0 fs f || more
    ]

abbrev all_in_schema : Text → List Text
all_in_schema w = codes "all" ∷ w ∷ codes "in" ∷ codes "schema" ∷ []

abbrev in_schemas : List Token → DbFunction → Bool
in_schemas c f = any (λ s. eq_text s f.schema) (flat_map schema_of (split_top_level c))

-- The functions that the objects name, none where the objects are not functions.
unfoldable pub granted : (Text → Text) → List Token → List DbFunction → Option (DbFunction → Bool)
unfolding skip_words split_top_level is_listed any eq_text
granted lower o fs =
    let listed : Text → DbFunction → Bool =
      λ w f. is_listed lower (split_top_level (skip_words (w ∷ []) o)) fs f in
    let within : Text → DbFunction → Bool = λ w f. in_schemas (skip_words (all_in_schema w) o) f in
    if accepts (all_in_schema (codes "functions")) o
    then some (within (codes "functions"))
    else (if accepts (all_in_schema (codes "procedures")) o
        then some (within (codes "procedures"))
        else (if accepts (all_in_schema (codes "routines")) o
            then some (within (codes "routines"))
            else (if accepts (codes "function" ∷ []) o
                then some (listed (codes "function"))
                else (if accepts (codes "procedure" ∷ []) o
                    then some (listed (codes "procedure"))
                    else (if accepts (codes "routine" ∷ []) o
                        then some (listed (codes "routine"))
                        else none)))))

unfoldable pub remove_grants : List Text → Dict Grant → Dict Grant
unfolding remove
remove_grants [] grants = grants
remove_grants (r ∷ rs) grants = remove_grants rs (remove r grants)

-- The writes on the functions that pass the test.
unfoldable pub write_grants :
    Bool → Location → List Text → (DbFunction → Bool) → SchemaModel → SchemaModel
unfolding put_grants remove_grants
write_grants grant at roles target m =
    let written : DbFunction → DbFunction = λ f. record f {
      execute_grants =
          if grant
          then put_grants roles true at f.execute_grants
          else remove_grants roles f.execute_grants;
    } in
    record m { functions = map (λ f. if target f then written f else f) m.functions }

abbrev grants_execute : List Token → Bool
grants_execute privileges = any (is_one_of (codes "execute" ∷ codes "all" ∷ [])) privileges

abbrev direction : Bool → Text
direction grant = if grant then codes "to" else codes "from"

-- The roles, from the cursor after `to` or `from`.
abbrev roles_at : List Token → List Text
roles_at c =
    role_list
      (take_until
        (is_one_of (codes "with" ∷ codes "cascade" ∷ codes "restrict" ∷ codes "granted" ∷ [])) c).0

-- `grantOrRevoke`, with the line of the first token of the statement.
unfoldable pub grant_or_revoke : Context → Bool → ℕ → List Token → SchemaModel → SchemaModel
unfolding skip_words take_until any eq_text granted role_list write_grants
grant_or_revoke x grant line c m =
    let options = codes "grant" ∷ codes "option" ∷ codes "for" ∷ [] in
    let privileges =
      take_until (is_word (codes "on")) (if grant then c else skip_words options c) in
    let objects =
      take_until (is_word (direction grant)) (skip_words (codes "on" ∷ []) privileges.1) in
    let roles = roles_at (skip_words (direction grant ∷ []) objects.1) in
    if grants_execute privileges.0 && accepts (codes "on" ∷ []) privileges.1
    then (elim (granted x.lower objects.0 m.functions) [
      | none ↦ m
      | some target ↦
          if accepts (direction grant ∷ []) objects.1
          then write_grants grant (loc_at x line) roles target m
          else m
    ])
    else m

-- The detail of `create type ... as`
unfoldable pub type_kind : Bool → List Token → Text
unfolding skip_words
type_kind is_domain c =
    let d = skip_words (codes "as" ∷ []) c in
    if is_domain
    then codes "domain"
    else (if accepts (codes "as" ∷ []) c
        then (if peeks (is_word (codes "enum")) d
            then codes "enum"
            else (if peeks (is_word (codes "range")) d then codes "range" else codes "composite"))
        else codes "type")

-- `createType`
unfoldable pub create_type : Context → Bool → List Token → SchemaModel → SchemaModel
unfolding qualified put table_key type_kind
create_type x is_domain c m = elim (qualified c) [
  | none ↦ m
  | some (n, d) ↦
      (let schema = public_schema n.schema in
        record m {
          types =
              put (table_key schema n.name)
                (record {
                  schema = schema;
                  name = n.name;
                  quoted = n.quoted;
                  kind = type_kind is_domain d;
                  loc = loc_at x n.line;
                })
                m.types;
        })
]

-- The writes of `alterType`
unfoldable pub rename_type : Context → Text → Name → SchemaModel → SchemaModel
unfolding get put remove table_key
rename_type x key to m = elim (get key m.types) [
  | none ↦ m
  | some t ↦ record m {
    types =
        put (table_key t.schema to.name)
          (record t { name = to.name; quoted = to.quoted; loc = loc_at x to.line })
          (remove key m.types);
  }
]

-- `alterType`
unfoldable pub alter_type : Context → List Token → SchemaModel → SchemaModel
unfolding qualified skip_words ident rename_type table_key
alter_type x c m = elim (qualified c) [
  | none ↦ m
  | some (n, d) ↦
      if accepts (codes "rename" ∷ codes "to" ∷ []) d
      then elim (ident (skip_words (codes "rename" ∷ codes "to" ∷ []) d)) [
        | none ↦ m
        | some (to, e) ↦ rename_type x (table_key (public_schema n.schema) n.name) to m
      ]
      else m
]

unfoldable pub drop_types : List (List Token) → SchemaModel → SchemaModel
unfolding qualified remove table_key
drop_types [] m = m
drop_types (part ∷ parts) m = elim (qualified part) [
  | none ↦ drop_types parts m
  | some (n, d) ↦
      drop_types parts
        (record m { types = remove (table_key (public_schema n.schema) n.name) m.types })
]

-- `dropType`
unfoldable pub drop_type : List Token → SchemaModel → SchemaModel
unfolding skip_words split_top_level drop_types
drop_type c m = drop_types (split_top_level (skip_words (codes "if" ∷ codes "exists" ∷ []) c)) m
