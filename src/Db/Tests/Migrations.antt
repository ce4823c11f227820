-- ===== src/Db/Tests/Migrations.antt =====
-- Migrations for src/db/parser.ts.
use agent_pipeline_v.Base.{
  ◌≡◌, refl, Bool, true, false, Option, none, some, List, [], ◌∷◌, ◌++◌, map, Text, codes, eq_text,
  arith, length, all,
}
use agent_pipeline_v.Base.Dict.{get, keys}
use agent_pipeline_v.Db.Tokenizer.Token.{Token, word}
use agent_pipeline_v.Db.Model.{Location, Table, Policy, DbFunction, SchemaModel, empty_model}
use agent_pipeline_v.Db.Cursor.{Name, is_ident, qualified, while_on, while_tokens, group}
use agent_pipeline_v.Db.Tables.{Context, done, ColumnPass, column_pass, resolve_table, loc_at}
use agent_pipeline_v.Db.Indexes.{where_pass}
use agent_pipeline_v.Db.Policies.{clause_pass}
use agent_pipeline_v.Db.Functions.{FunctionPass, attribute_pass, function_attributes}
use agent_pipeline_v.Db.Functions.Frame.{IsKept, function_attributes-IsKept}
use agent_pipeline_v.Db.Alter.{rename_table, after_point}
use agent_pipeline_v.Db.AlterTable.{drop_tables}
use agent_pipeline_v.Db.AlterTable.Mentions.{mentions, drop_tables-gone, rename_table-gone}
use agent_pipeline_v.Db.Grants.{write_grants}
use agent_pipeline_v.Db.Grants.Roles.{has_role, after_statement, write_grants-has_role}
use agent_pipeline_v.Db.Elements.{split_top_level, column_list}
use agent_pipeline_v.Db.Elements.Parts.{
  IsItem, run_depth, interleave, names_list, sign_token, split_top_level-interleave,
  column_list-names_list,
}
use agent_pipeline_v.Db.Loops.{Consumes}
use agent_pipeline_v.Db.Loops.Ends.Columns.{while_tokens-ends}
use agent_pipeline_v.Db.Parser.{MigrationFile, Setting, context, parse_migrations}
use agent_pipeline_v.Db.Tests.{ascii}

-- No expression mentions a column.
abbrev setting : Setting
setting = record {
  supabase_defaults = true;
  unicode = ascii;
  mention = λ column. some (λ s. false);
}

abbrev file : MigrationFile
file = record {
  path = codes "1.sql";
  sql =
      codes "create table a (id int primary key, n text);"
      ++ codes "create table b (a_id int references a, unique (a_id));"
      ++ codes "create index on a (n);"
      ++ codes "alter table a enable row level security;"
      ++ codes "create policy p on a for select to r using (n = 'x');"
      ++ codes
          "create function f(x int) returns int language sql security definer as $$ select 1; $$;"
      ++ codes "revoke execute on function f(int) from public, anon;"
      ++ codes "create table;";
}

abbrev parsed : SchemaModel
parsed = parse_migrations setting (file ∷ [])

parsed-tables : keys parsed.tables ≡ codes "public.a" ∷ codes "public.b" ∷ []
unfolding parse_migrations eq_text
parsed-tables = refl

parsed-indexes :
    map (λ ix. ix.name) parsed.indexes ≡ codes "a_pkey" ∷ codes "b_a_id_key" ∷ codes "a_n_idx" ∷ []
unfolding parse_migrations eq_text
parsed-indexes = refl

parsed-foreign_keys :
    map {B = Text × Text} (λ fk. (fk.name, fk.ref_table)) parsed.foreign_keys
    ≡ (codes "b_a_id_fkey", codes "public.a") ∷ []
unfolding parse_migrations eq_text
parsed-foreign_keys = refl

parsed-policies :
    map {B = List Text × Option Text} (λ p. (p.roles, p.using)) parsed.policies
    ≡ (codes "r" ∷ [], some (codes "n = 'x'")) ∷ []
unfolding parse_migrations eq_text
parsed-policies = refl

parsed-functions :
    map {B = Text × (Bool × List Text)}
      (λ f. (f.arg_types, (f.security_definer, keys f.execute_grants)))
      parsed.functions
    ≡ (codes "int", (true, codes "authenticated" ∷ codes "service_role" ∷ [])) ∷ []
unfolding parse_migrations eq_text
parsed-functions = refl

parsed-notes : length parsed.notes ≡ 1
unfolding parse_migrations eq_text
parsed-notes = refl

abbrev w : Text → Token
w s = record { kind = word; value = s; text = s; line = 1 }

abbrev place : Location
place = record { file = codes "1.sql"; line = 1 }

abbrev table_a : Table
table_a = record {
  schema = codes "public";
  name = codes "a";
  quoted = false;
  temporary = false;
  columns = [];
  rls_enabled = true;
  rls_forced = false;
  loc = place;
}

abbrev fn : DbFunction
fn = record {
  schema = codes "public";
  name = codes "f";
  quoted = false;
  arg_count = 0;
  arg_types = [];
  returns = [];
  security_definer = false;
  search_path = none;
  execute_grants =
      (codes "anon", record { role = codes "anon"; explicit = false; loc = place }) ∷ [];
  loc = place;
}

-- A table that a foreign key of another refers to.
abbrev small : SchemaModel
small = record empty_model {
  tables = (codes "public.a", table_a) ∷ [];
  foreign_keys =
      record {
        name = codes "k";
        table = codes "public.b";
        columns = codes "x" ∷ [];
        ref_table = codes "public.a";
        ref_columns = codes "id" ∷ [];
        loc = place;
      }
      ∷ [];
  functions = fn ∷ [];
}

abbrev name_a : Name
name_a = record { schema = none; name = codes "a"; quoted = false; line = 1 }

found : qualified (w (codes "a") ∷ []) ≡ some (name_a, [])
unfolding qualified
found = refl

drop_tables-gone_example :
    mentions (resolve_table name_a small) (drop_tables ((w (codes "a") ∷ []) ∷ []) small) ≡ false
drop_tables-gone_example = drop_tables-gone (w (codes "a") ∷ []) [] small name_a [] found

abbrev ctx : Context
ctx = context setting file

a_found : get (codes "public.a") small.tables ≡ some table_a
unfolding get eq_text
a_found = refl

c_other : eq_text (codes "public.c") (codes "public.a") ≡ false
unfolding eq_text
c_other = refl

rename_table-gone_example :
    (mentions (codes "public.a") (rename_table ctx (codes "public.a") (codes "public.c") 2 small)
      ≡ false)
    × (get
          (codes "public.c")
          (rename_table ctx (codes "public.a") (codes "public.c") 2 small).tables
        ≡ some (record table_a { name = after_point (codes "public.c"); loc = loc_at ctx 2 }))
rename_table-gone_example =
    rename_table-gone ctx (codes "public.a") (codes "public.c") 2 small table_a a_found c_other

write_grants-has_role_example :
    map
      (λ f. has_role (codes "anon") f.execute_grants)
      (write_grants false place (codes "anon" ∷ []) (λ f. true) small).functions
    ≡ map (after_statement false (codes "anon" ∷ []) (λ f. true) (codes "anon")) small.functions
write_grants-has_role_example =
    write_grants-has_role false place (codes "anon" ∷ []) (λ f. true) small (codes "anon")

-- `set schema private`
function_attributes-IsKept_example :
    IsKept fn
      (function_attributes ctx.lower
        (w (codes "set") ∷ w (codes "schema") ∷ w (codes "private") ∷ [])
        fn).fn
function_attributes-IsKept_example =
    function_attributes-IsKept ctx.lower
      (w (codes "set") ∷ w (codes "schema") ∷ w (codes "private") ∷ []) fn

-- `numeric(10, 2), b`
abbrev part : List Token
part =
    sign_token (codes "(") 1
    ∷ w (codes "x")
    ∷ sign_token (codes ",") 1
    ∷ w (codes "y")
    ∷ sign_token (codes ")") 1
    ∷ []

part-IsItem : IsItem (w (codes "numeric") ∷ part)
unfolding run_depth eq_text
part-IsItem = refl

b-IsItem : IsItem (w (codes "b") ∷ [])
unfolding run_depth eq_text
b-IsItem = refl

split_top_level-interleave_example :
    split_top_level (interleave 1 ((w (codes "numeric") ∷ part) ∷ (w (codes "b") ∷ []) ∷ []))
    ≡ (w (codes "numeric") ∷ part) ∷ (w (codes "b") ∷ []) ∷ []
split_top_level-interleave_example =
    split_top_level-interleave 1 (w (codes "numeric")) part ((w (codes "b") ∷ []) ∷ []) part-IsItem
      (b-IsItem, tt)

abbrev names : List Token
names = w (codes "b") ∷ []

idents : all is_ident (w (codes "a") ∷ names) ≡ true
unfolding all
idents = refl

column_list-names_list_example :
    (group (
        sign_token (codes "(") 1
        ∷ (names_list 1 (w (codes "a") ∷ names) ++ (sign_token (codes ")") 1 ∷ [])))
      ≡ some (names_list 1 (w (codes "a") ∷ names), []))
    × (column_list (names_list 1 (w (codes "a") ∷ names)) ≡ codes "a" ∷ codes "b" ∷ [])
column_list-names_list_example = column_list-names_list 1 (w (codes "a")) names [] idents

abbrev clauses : List Token
clauses = w (codes "for") ∷ w (codes "select") ∷ []

abbrev some_policy : Policy
some_policy = record {
  name = codes "p";
  table = codes "public.a";
  command = codes "all";
  roles = [];
  using = none;
  with_check = none;
  loc = place;
}

abbrev no_pass : ColumnPass
no_pass = record { outcome = done small; constraint_name = none }

abbrev fn_pass : FunctionPass
fn_pass = record { fn = fn; assigned = false }

while_tokens-ends_example :
    (Consumes (column_pass ctx (codes "public.a") (codes "a") (codes "x"))
      × Consumes where_pass
      × Consumes clause_pass
      × Consumes (attribute_pass ctx.lower))
    × (while_on 5 (column_pass ctx (codes "public.a") (codes "a") (codes "x")) clauses no_pass
        ≡ while_tokens (column_pass ctx (codes "public.a") (codes "a") (codes "x")) clauses no_pass)
    × (while_on 5 where_pass clauses none ≡ while_tokens where_pass clauses none)
    × (while_on 5 clause_pass clauses some_policy ≡ while_tokens clause_pass clauses some_policy)
    × (while_on 5 (attribute_pass ctx.lower) clauses fn_pass
        ≡ while_tokens (attribute_pass ctx.lower) clauses fn_pass)
while_tokens-ends_example =
    while_tokens-ends ctx (codes "public.a") (codes "a") (codes "x") 5 clauses no_pass none
      some_policy fn_pass (omega arith)
