-- ===== src/Db/Routines.antt =====
-- src/db/parser.ts: `create`, `alter` and `drop function`, and the grants of EXECUTE.
use agent_pipeline_v.Base.{
  ℕ, Bool, true, false, ◌&&◌, ◌||◌, not, Option, none, some, List, [], ◌∷◌, ◌++◌, map, Text, codes,
  eq_text, any, filter, ◌==◌, if◌then◌else◌, is_some,
}
use agent_pipeline_v.Base.Dict.{Dict, put}
use agent_pipeline_v.Db.Tokenizer.Token.{Token}
use agent_pipeline_v.Db.Model.{Location, Grant, DbFunction, function_name_expected, SchemaModel}
use agent_pipeline_v.Db.Cursor.{Name, skip_words, qualified, group, group_or_nil}
use agent_pipeline_v.Db.Elements.{split_top_level}
use agent_pipeline_v.Db.Tables.{Context, MethodOutcome, done, threw, loc_at, public_schema}
use agent_pipeline_v.Db.Constraints.{change_first}
use agent_pipeline_v.Db.Functions.{signature, is_found, FunctionPass, function_attributes}

-- The roles of a grant are set one by one.
unfoldable pub put_grants : List Text → Bool → Location → Dict Grant → Dict Grant
unfolding put
put_grants [] explicit at grants = grants
put_grants (r ∷ rs) explicit at grants =
    put_grants rs explicit at (put r (record { role = r; explicit = explicit; loc = at }) grants)

-- `defaultGrants`
unfoldable pub default_grants : Bool → DbFunction → DbFunction
unfolding put_grants eq_text
default_grants supabase f =
    let more =
      if supabase && eq_text f.schema (codes "public")
      then codes "anon" ∷ codes "authenticated" ∷ codes "service_role" ∷ []
      else [] in
    record f { execute_grants = put_grants (codes "public" ∷ more) false f.loc f.execute_grants }

unfoldable pub same_signature : Text → Text → ℕ → Text → DbFunction → Bool
unfolding eq_text
same_signature schema name count types f =
    eq_text f.schema schema
    && eq_text f.name name
    && f.arg_count == count
    && eq_text f.arg_types types

-- What `create function` writes on a new function and on one that it replaces.
unfoldable pub redefined : Context → ℕ → List Token → DbFunction → DbFunction
unfolding function_attributes
redefined x line c f =
    (function_attributes x.lower c (record f {
      security_definer = false;
      search_path = none;
      returns = [];
      loc = loc_at x line;
    })).fn

unfoldable pub new_function : Context → Text → Name → ℕ → Text → DbFunction
new_function x schema n count types = record {
  schema = schema;
  name = n.name;
  quoted = n.quoted;
  arg_count = count;
  arg_types = types;
  returns = [];
  security_definer = false;
  search_path = none;
  execute_grants = [];
  loc = loc_at x n.line;
}

unfoldable pub write_function :
    Context → Text → Name → ℕ → Text → List Token → SchemaModel → SchemaModel
unfolding same_signature change_first redefined default_grants new_function any
write_function x schema n count types c m =
    let same = same_signature schema n.name count types in
    let replaced = change_first same (redefined x n.line c) m.functions in
    let added =
      default_grants x.supabase_defaults
        (redefined x n.line c (new_function x schema n count types)) in
    if any same m.functions
    then record m { functions = replaced }
    else record m { functions = m.functions ++ (added ∷ []) }

-- `createFunction`
unfoldable pub create_function : Context → List Token → SchemaModel → MethodOutcome
unfolding qualified group_or_nil signature write_function eq_text
create_function x c m = elim (qualified c) [
  | none ↦ threw function_name_expected m
  | some (n, d) ↦
      (let g = group_or_nil d in
        let s = signature x.lower g.0 in
        let schema = public_schema n.schema in
        if eq_text schema (codes "pg_temp")
        then done m
        else done (write_function x schema n s.0 s.1 g.1 m))
]

-- `args ? this.signature(args).count : null`
unfoldable pub given_count : (Text → Text) → List Token → Option ℕ × List Token
unfolding group signature
given_count lower c = elim (group c) [
  | none ↦ (none, c)
  | some g ↦ (some (signature lower g.0).0, g.1)
]

-- The search path is another list, or null on one side only.
abbrev path_changed : Option (List Text) → FunctionPass → Bool
path_changed before p = elim p.fn.search_path [ none ↦ is_some before | some path ↦ p.assigned ]

abbrev differs : Bool → Bool → Bool
differs true b = not b
differs false b = b

-- What `alter function` makes of one of its targets.
unfoldable pub altered : Context → ℕ → List Token → DbFunction → DbFunction
unfolding function_attributes
altered x line c f =
    let p = function_attributes x.lower c f in
    if differs f.security_definer p.fn.security_definer || path_changed f.search_path p
    then record p.fn { loc = loc_at x line }
    else p.fn

-- `alterFunction`
unfoldable pub alter_function : Context → List Token → SchemaModel → SchemaModel
unfolding qualified given_count is_found altered
alter_function x c m = elim (qualified c) [
  | none ↦ m
  | some (n, d) ↦
      (let args = given_count x.lower d in
        record m {
          functions =
              map (λ f. if is_found n args.0 m.functions f then altered x n.line args.1 f else f)
                m.functions;
        })
]

unfoldable pub drop_functions : (Text → Text) → List (List Token) → SchemaModel → SchemaModel
unfolding qualified given_count is_found filter
drop_functions lower [] m = m
drop_functions lower (part ∷ parts) m = elim (qualified part) [
  | none ↦ drop_functions lower parts m
  | some (n, d) ↦ drop_functions lower parts (record m {
    functions = filter (λ f. not (is_found n (given_count lower d).0 m.functions f)) m.functions;
  })
]

-- `dropFunction`
unfoldable pub drop_function : Context → List Token → SchemaModel → SchemaModel
unfolding skip_words split_top_level drop_functions
drop_function x c m =
    drop_functions x.lower (split_top_level (skip_words (codes "if" ∷ codes "exists" ∷ []) c)) m
