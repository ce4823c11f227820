-- ===== src/Db/Parser.antt =====
-- src/db/parser.ts: the statements, the files and `parseMigrations`.
use agent_pipeline_v.Base.{
  ℕ, Bool, true, false, Option, List, [], ◌∷◌, Text, codes, Result, ok, err, if◌then◌else◌,
}
use agent_pipeline_v.Db.Tokenizer.Token.{
  Token, SqlSyntaxError, open_comment, open_string, open_identifier, open_body, out_of_fuel,
  Unicode, tokenize,
}
use agent_pipeline_v.Db.Statements.{Statement, split_statements}
use agent_pipeline_v.Db.Model.{unreadable, not_understood, SchemaModel, empty_model, add_note}
use agent_pipeline_v.Db.Cursor.{is_one_of, peeks, skip_words, accepts, advance}
use agent_pipeline_v.Db.Tables.{Context, MethodOutcome, done, threw, loc_at}
use agent_pipeline_v.Db.Constraints.{create_table}
use agent_pipeline_v.Db.AlterTable.{alter_table, drop_table}
use agent_pipeline_v.Db.Indexes.{create_index, alter_index, drop_index}
use agent_pipeline_v.Db.Policies.{create_policy, alter_policy, drop_policy}
use agent_pipeline_v.Db.Routines.{create_function, alter_function, drop_function}
use agent_pipeline_v.Db.Grants.{grant_or_revoke, create_type, alter_type, drop_type}

-- The words between `create` and what is created, and whether one of them is `temp`.
unfoldable pub create_modifiers : List Token → Bool × List Token
create_modifiers [] = (false, [])
create_modifiers (t ∷ c) =
    let r = create_modifiers c in
    if is_one_of (codes "temp" ∷ codes "temporary" ∷ []) t
    then (true, r.1)
    else (if is_one_of (codes "global" ∷ codes "local" ∷ codes "unlogged" ∷ []) t
        then r
        else (false, t ∷ c))

abbrev one : Text → List Text
one w = w ∷ []

abbrev is_routine : List Token → Bool
is_routine c = peeks (is_one_of (codes "function" ∷ codes "procedure" ∷ codes "routine" ∷ [])) c

unfoldable pub create_statement : Context → List Token → SchemaModel → MethodOutcome
unfolding skip_words create_modifiers create_table create_index create_policy create_function
    create_type
create_statement x c m =
    let r = create_modifiers (skip_words (codes "or" ∷ codes "replace" ∷ []) c) in
    let after : List Text → List Token = λ ws. skip_words ws r.1 in
    if accepts (one (codes "table")) r.1
    then create_table x r.0 (after (one (codes "table"))) m
    else (if accepts (codes "unique" ∷ codes "index" ∷ []) r.1
        then create_index x true (after (codes "unique" ∷ codes "index" ∷ [])) m
        else (if accepts (one (codes "index")) r.1
            then create_index x false (after (one (codes "index"))) m
            else (if accepts (one (codes "policy")) r.1
                then create_policy x (after (one (codes "policy"))) m
                else (if peeks (is_one_of (codes "function" ∷ codes "procedure" ∷ [])) r.1
                    then create_function x (advance r.1) m
                    else (if accepts (one (codes "type")) r.1
                        then done (create_type x false (after (one (codes "type"))) m)
                        else (if accepts (one (codes "domain")) r.1
                            then done (create_type x true (after (one (codes "domain"))) m)
                            else done m))))))

unfoldable pub alter_statement : Context → List Token → SchemaModel → MethodOutcome
unfolding skip_words alter_table alter_index alter_policy alter_function alter_type
alter_statement x c m =
    if accepts (one (codes "table")) c
    then alter_table x (advance c) m
    else (if accepts (one (codes "index")) c
        then done (alter_index (advance c) m)
        else (if accepts (one (codes "policy")) c
            then done (alter_policy x (advance c) m)
            else (if is_routine c
                then done (alter_function x (advance c) m)
                else (if peeks (is_one_of (codes "type" ∷ codes "domain" ∷ [])) c
                    then done (alter_type x (advance c) m)
                    else done m))))

unfoldable pub drop_statement : Context → List Token → SchemaModel → SchemaModel
unfolding skip_words drop_table drop_index drop_policy drop_function drop_type
drop_statement x c m =
    if accepts (one (codes "table")) c
    then drop_table (advance c) m
    else (if accepts (one (codes "index")) c
        then drop_index (advance c) m
        else (if accepts (one (codes "policy")) c
            then drop_policy (advance c) m
            else (if is_routine c
                then drop_function x (advance c) m
                else (if peeks (is_one_of (codes "type" ∷ codes "domain" ∷ [])) c
                    then drop_type (advance c) m
                    else m))))

-- `statement`
unfoldable pub run_statement : Context → Statement → SchemaModel → MethodOutcome
unfolding create_statement alter_statement drop_statement grant_or_revoke
run_statement x s m =
    let c = s.tokens in
    if accepts (one (codes "create")) c
    then create_statement x (advance c) m
    else (if accepts (one (codes "alter")) c
        then alter_statement x (advance c) m
        else (if accepts (one (codes "drop")) c
            then done (drop_statement x (advance c) m)
            else (if accepts (one (codes "grant")) c
                then done (grant_or_revoke x true s.line (advance c) m)
                else (if accepts (one (codes "revoke")) c
                    then done (grant_or_revoke x false s.line (advance c) m)
                    else done m))))

-- The `catch` of `parseFile`: an error becomes a note at the line of the statement.
unfoldable pub caught : Context → ℕ → MethodOutcome → SchemaModel
caught x line (done m) = m
caught x line (threw e m) = add_note (loc_at x line) (not_understood e) m

unfoldable pub run_statements : Context → List Statement → SchemaModel → SchemaModel
unfolding run_statement caught
run_statements x [] m = m
run_statements x (s ∷ ss) m = run_statements x ss (caught x s.line (run_statement x s m))

pub record MigrationFile : Type 0 where
  pub path : Text
  pub sql : Text

-- The `ParseOptions`, and the runtime.
pub record Setting : Type 0 where
  pub supabase_defaults : Bool
  pub unicode : Unicode
  pub mention : Text → Option (Text → Bool)

abbrev pub context : Setting → MigrationFile → Context
context s f = record {
  file = f.path;
  supabase_defaults = s.supabase_defaults;
  lower = s.unicode.lower;
  mention = s.mention;
}

abbrev error_line : SqlSyntaxError → ℕ
error_line (open_comment l) = l
error_line (open_string l) = l
error_line (open_identifier l) = l
error_line (open_body mark l) = l
error_line out_of_fuel = 1

abbrev parse_tokens : Context → Result SqlSyntaxError (List Token) → SchemaModel → SchemaModel
parse_tokens x (err e) m = add_note (loc_at x (error_line e)) (unreadable e) m
parse_tokens x (ok tokens) m = run_statements x (split_statements tokens) m

-- `parseFile`
unfoldable pub parse_file : Setting → MigrationFile → SchemaModel → SchemaModel
unfolding tokenize split_statements run_statements
parse_file s f m = parse_tokens (context s f) (tokenize s.unicode f.sql) m

-- `parse`
unfoldable pub parse_files : Setting → List MigrationFile → SchemaModel → SchemaModel
unfolding parse_file
parse_files s [] m = m
parse_files s (f ∷ fs) m = parse_files s fs (parse_file s f m)

-- `parseMigrations`
unfoldable pub parse_migrations : Setting → List MigrationFile → SchemaModel
unfolding parse_files
parse_migrations s fs = parse_files s fs empty_model
