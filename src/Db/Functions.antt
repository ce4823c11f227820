-- ===== src/Db/Functions.antt =====
-- src/db/parser.ts: the signature and the attributes of a function, and `create`, `alter` and
-- `drop function`.
pub mod Frame
use agent_pipeline_v.Base.{
  ℕ, zero, suc, ◌-◌, ◌≡◌, Bool, true, false, ◌&&◌, ◌||◌, not, Option, none, some, List, [], ◌∷◌,
  ◌++◌, map, Text, codes, eq_text, any, filter, find, is_empty, length, leb, ◌==◌, if◌then◌else◌,
  is_some, all_some,
}
use agent_pipeline_v.Base.Dict.{Dict, put}
use agent_pipeline_v.Db.Tokenizer.Token.{Token, TokenKind, word, qident, string, op}
use agent_pipeline_v.Db.Statements.{is_word, is_punct}
use agent_pipeline_v.Db.Model.{Grant, DbFunction, function_name_expected, SchemaModel}
use agent_pipeline_v.Db.Cursor.{
  Name, is_ident, peeks, advance, is_one_of, skip_words, ident, qualified, group, group_or_nil,
  while_tokens, take_until, accepts, ident_name,
}
use agent_pipeline_v.Db.Elements.{split_top_level, join, tokens_text}
use agent_pipeline_v.Db.Tables.{Context, MethodOutcome, done, threw, loc_at, public_schema}
use agent_pipeline_v.Db.Constraints.{change_first}

abbrev is_op_kind : TokenKind → Bool
is_op_kind op = true
is_op_kind _ = false

abbrev pub is_equals : Token → Bool
is_equals t = is_op_kind t.kind && eq_text t.value (codes "=")

abbrev next_if : Bool → List Token → List Token
next_if true c = advance c
next_if false c = c

-- The type of an argument: past its mode and its name, up to its default.
unfoldable pub argument_type : (Text → Text) → List Token → Text
unfolding take_until tokens_text
argument_type lower part =
    let modes = codes "in" ∷ codes "inout" ∷ codes "variadic" ∷ [] in
    let typed = next_if (peeks (is_one_of modes) part) part in
    let declared = (take_until (λ t. is_word (codes "default") t || is_equals t) typed).0 in
    let second = advance declared in
    let type_words =
      codes "precision" ∷ codes "varying" ∷ codes "with" ∷ codes "without" ∷ codes "zone" ∷ [] in
    let is_named =
      peeks is_ident declared
      && peeks is_ident second
      && not (peeks (is_one_of type_words) second) in
    lower (tokens_text (next_if is_named declared))

-- `signature`: the number of the arguments that identify the function, and their types.
unfoldable pub signature : (Text → Text) → List Token → ℕ × Text
unfolding split_top_level filter join argument_type
signature lower args =
    let kept =
      filter (λ part. not (is_empty part) && not (peeks (is_word (codes "out")) part))
        (split_top_level args) in
    (length kept, join (codes ", ") (map (argument_type lower) kept))

abbrev of_name : Name → DbFunction → Bool
of_name n f = eq_text f.schema (public_schema n.schema) && eq_text f.name n.name

-- `findFunctions`, as the test that a function of the list has to pass.
unfoldable pub is_found : Name → Option ℕ → List DbFunction → DbFunction → Bool
unfolding filter eq_text
is_found n none fs f = of_name n f
is_found n (some count) fs f =
    of_name n f && (f.arg_count == count || length (filter (of_name n) fs) == 1)

abbrev is_item : TokenKind → Bool
is_item string = true
is_item qident = true
is_item word = true
is_item _ = false

-- The loop of `readSearchPath`
unfoldable pub path_items : List Token → List Text × List Token
path_items [] = ([], [])
path_items (t ∷ []) = if is_item t.kind then (t.value ∷ [], []) else ([], t ∷ [])
path_items (t ∷ comma ∷ c) =
    let r = path_items c in
    if is_item t.kind
    then (if is_punct (codes ",") comma then (t.value ∷ r.0, r.1) else (t.value ∷ [], comma ∷ c))
    else ([], t ∷ comma ∷ c)

-- `readSearchPath`
unfoldable pub read_search_path : List Token → List Text × List Token
unfolding skip_words path_items
read_search_path c =
    if accepts (codes "from" ∷ codes "current" ∷ []) c
    then (codes "<from current>" ∷ [], skip_words (codes "from" ∷ codes "current" ∷ []) c)
    else (if accepts (codes "to" ∷ []) c
        then path_items (skip_words (codes "to" ∷ []) c)
        else (if peeks is_equals c then path_items (advance c) else ([], c)))

-- FUNCTION_ATTRIBUTE_WORDS
unfoldable pub is_attribute_word : Token → Bool
unfolding any eq_text
is_attribute_word t =
    is_one_of
      (codes "language"
        ∷ codes "security"
        ∷ codes "external"
        ∷ codes "set"
        ∷ codes "as"
        ∷ codes "immutable"
        ∷ codes "stable"
        ∷ codes "volatile"
        ∷ codes "strict"
        ∷ codes "called"
        ∷ codes "parallel"
        ∷ codes "cost"
        ∷ [])
      t
    || is_one_of
        (codes "rows"
          ∷ codes "leakproof"
          ∷ codes "not"
          ∷ codes "window"
          ∷ codes "support"
          ∷ codes "transform"
          ∷ codes "begin"
          ∷ codes "return"
          ∷ codes "reset"
          ∷ codes "owner"
          ∷ codes "rename"
          ∷ [])
        t

-- The token that stands for a group.
abbrev elided : Token
elided = record { kind = word; value = codes "(...)"; text = codes "(...)"; line = 0 }

-- The tokens after `returns`, at a depth of open groups.
unfoldable pub returned : ℕ → List Token → List Token × List Token
unfolding is_attribute_word
returned depth [] = ([], [])
returned zero (t ∷ c) =
    let inner = returned 1 c in
    let onward = returned zero c in
    if is_attribute_word t
    then ([], t ∷ c)
    else (if is_punct (codes "(") t then (elided ∷ inner.0, inner.1) else (t ∷ onward.0, onward.1))
returned (suc depth) (t ∷ c) =
    if is_punct (codes "(") t
    then returned (suc (suc depth)) c
    else (if is_punct (codes ")") t then returned depth c else returned (suc depth) c)

-- The function, and whether its search path is a list made since the start.
pub record FunctionPass : Type 0 where
  pub fn : DbFunction
  pub assigned : Bool

abbrev set_fn : FunctionPass → DbFunction → FunctionPass
set_fn p f = record p { fn = f }

-- `set`, on the cursor after it
unfoldable pub set_parameter : List Token → FunctionPass → List Token × FunctionPass
unfolding ident read_search_path eq_text
set_parameter c p = elim (ident c) [
  | none ↦ (c, p)
  | some (param, d) ↦
      (let path = read_search_path d in
        if eq_text param.name (codes "search_path")
        then (path.1, record { fn = record p.fn { search_path = some path.0 }; assigned = true })
        else (d, p))
]

abbrev pub definer : List Text
definer = codes "security" ∷ codes "definer" ∷ []

abbrev pub invoker : List Text
invoker = codes "security" ∷ codes "invoker" ∷ []

abbrev pub external : List Text → List Text
external ws = codes "external" ∷ ws

-- The last tests of a pass of `functionAttributes`.
unfoldable pub other_attribute : List Token → FunctionPass → List Token × FunctionPass
unfolding skip_words ident group_or_nil
other_attribute c p =
    let renamed = ident_name (skip_words (codes "rename" ∷ codes "to" ∷ []) c) in
    let moved = ident_name (skip_words (codes "set" ∷ codes "schema" ∷ []) c) in
    let renamed_fn : DbFunction = elim renamed.0 [
      | none ↦ p.fn
      | some to ↦ record p.fn { name = to }
    ] in
    let moved_fn : DbFunction = elim moved.0 [
      | none ↦ p.fn
      | some to ↦ record p.fn { schema = to }
    ] in
    if accepts (codes "rename" ∷ codes "to" ∷ []) c
    then (renamed.1, set_fn p renamed_fn)
    else (if accepts (codes "set" ∷ codes "schema" ∷ []) c
        then (moved.1, set_fn p moved_fn)
        else (if peeks (is_punct (codes "(")) c then ((group_or_nil c).1, p) else (advance c, p)))

-- One pass of `functionAttributes`.
unfoldable pub attribute_pass :
    (Text → Text) → List Token → FunctionPass → List Token × FunctionPass
unfolding skip_words returned tokens_text set_parameter other_attribute
attribute_pass lower c p =
    let type = returned 0 (skip_words (codes "returns" ∷ []) c) in
    if accepts (codes "returns" ∷ []) c
    then (type.1, set_fn p (record p.fn { returns = lower (tokens_text type.0) }))
    else (if accepts (external definer) c
        then (skip_words (external definer) c, set_fn p (record p.fn { security_definer = true }))
        else (if accepts definer c
            then (skip_words definer c, set_fn p (record p.fn { security_definer = true }))
            else (if accepts (external invoker) c
                then (
                  skip_words (external invoker) c,
                  set_fn p (record p.fn { security_definer = false }),
                )
                else (if accepts invoker c
                    then (skip_words invoker c, set_fn p (record p.fn { security_definer = false }))
                    else (if accepts (codes "set" ∷ []) c
                        then set_parameter (skip_words (codes "set" ∷ []) c) p
                        else (if accepts (codes "reset" ∷ codes "all" ∷ []) c
                            then (
                              skip_words (codes "reset" ∷ codes "all" ∷ []) c,
                              set_fn p (record p.fn { search_path = none }),
                            )
                            else (if accepts (codes "reset" ∷ codes "search_path" ∷ []) c
                                then (
                                  skip_words (codes "reset" ∷ codes "search_path" ∷ []) c,
                                  set_fn p (record p.fn { search_path = none }),
                                )
                                else other_attribute c p)))))))

-- `functionAttributes`
unfoldable pub function_attributes : (Text → Text) → List Token → DbFunction → FunctionPass
unfolding while_tokens attribute_pass
function_attributes lower c f =
    while_tokens (attribute_pass lower) c (record { fn = f; assigned = false })
