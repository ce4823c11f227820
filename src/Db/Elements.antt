-- ===== src/Db/Elements.antt =====
-- src/db/parser.ts: the lists between commas, the text of tokens, and what is read from them.
pub mod Parts
use agent_pipeline_v.Base.{
  ℕ, zero, suc, ◌-◌, ◌≡◌, Bool, true, false, ◌&&◌, ◌||◌, not, Option, none, some, List, [], ◌∷◌,
  ◌++◌, map, Text, codes, eq_text, starts_with, is_empty, all, any, filter, length, ◌==◌,
  if◌then◌else◌, ltb,
}
use agent_pipeline_v.Db.Tokenizer.Token.{Token, TokenKind, word, qident, punct}
use agent_pipeline_v.Db.Statements.{is_word_kind, is_punct_kind, is_word, is_punct}
use agent_pipeline_v.Db.Cursor.{is_ident, peeks, advance, is_one_of}

abbrev pub opens : Token → Bool
opens t = is_punct (codes "(") t || is_punct (codes "[") t

abbrev pub closes : Token → Bool
closes t = is_punct (codes ")") t || is_punct (codes "]") t

-- The depth of `splitTopLevel`, which goes below zero where a bracket is closed twice.
pub data Depth : Type 0 where
  up : ℕ → Depth
  below : ℕ → Depth

abbrev pub deeper : Depth → Depth
deeper (up n) = up (suc n)
deeper (below zero) = up 0
deeper (below (suc n)) = below n

abbrev pub shallower : Depth → Depth
shallower (up (suc n)) = up n
shallower (up zero) = below 0
shallower (below n) = below (suc n)

abbrev pub is_level : Depth → Bool
is_level (up zero) = true
is_level _ = false

abbrev pub move_depth : Token → Depth → Depth
move_depth t d = if opens t then deeper d else (if closes t then shallower d else d)

-- The loop of `splitTopLevel`: the part that is being read, and those after it; no part at all where
-- no token comes.
unfoldable pub split_parts : Depth → List Token → List Token → List (List Token)
split_parts d current [] = current ∷ []
split_parts d current (t ∷ ts) =
    let after = move_depth t d in
    let cut = split_parts after [] ts in
    let onward = split_parts after (current ++ (t ∷ [])) ts in
    if is_level after && is_punct (codes ",") t then current ∷ cut else onward

unfoldable pub split_top_level : List Token → List (List Token)
unfolding split_parts
split_top_level [] = []
split_top_level (t ∷ ts) = split_parts (up 0) [] (t ∷ ts)

-- `s.replace(/pattern/g, with)` for a literal pattern; the first argument counts what is left to skip.
unfoldable replace_from : ℕ → Text → Text → Text → Text
unfolding starts_with
replace_from k old new [] = []
replace_from zero old new (c ∷ s) =
    let matched = replace_from (length old - 1) old new s in
    let onward = replace_from zero old new s in
    if starts_with old (c ∷ s) then new ++ matched else c ∷ onward
replace_from (suc k) old new (c ∷ s) = replace_from k old new s

unfoldable pub replace_all : Text → Text → Text → Text
unfolding replace_from
replace_all old new s = replace_from 0 old new s

-- `list.join(separator)`
unfoldable pub join : Text → List Text → Text
join separator [] = []
join separator (s ∷ []) = s
join separator (s ∷ t ∷ ts) = s ++ separator ++ join separator (t ∷ ts)

unfoldable pub tokens_text : List Token → Text
unfolding replace_all join
tokens_text ts = replace_all (codes " . ") (codes ".") (
    replace_all (codes " ,") (codes ",") (
      replace_all (codes " )") (codes ")")
        (replace_all (codes "( ") (codes "(") (join (codes " ") (map (λ t. t.text) ts)))))

-- `columnList`: the name of a plain column, or the text of an expression.
unfoldable pub column_of : List Token → List Text
unfolding all tokens_text
column_of [] = []
column_of (t ∷ part) =
    if is_ident t && all is_ident part
    then t.value ∷ []
    else (b'(' ∷ (tokens_text (t ∷ part) ++ (b')' ∷ []))) ∷ []

abbrev pub flat_map {ℓ κ} : {A : Type ℓ} {B : Type κ} → (A → List B) → List A → List B
flat_map f [] = []
flat_map f (x ∷ xs) = f x ++ flat_map f xs

unfoldable pub column_list : List Token → List Text
unfolding split_top_level column_of
column_list ts = flat_map column_of (split_top_level ts)

-- `roleList`: the first identifier of each part, past `group`; an empty name is dropped.
abbrev first_value : List Token → List Text
first_value [] = []
first_value (t ∷ ts) = if is_empty t.value then [] else t.value ∷ []

unfoldable pub role_of : List Token → List Text
unfolding filter
role_of part =
    let words = filter is_ident part in
    first_value (if peeks (is_word (codes "group")) words then advance words else words)

unfoldable pub role_list : List Token → List Text
unfolding split_top_level role_of
role_list ts = flat_map role_of (split_top_level ts)

-- `startsTableConstraint`
unfoldable pub starts_table_constraint : List Token → Bool
starts_table_constraint c =
    let second = advance c in
    if peeks (is_word (codes "constraint")) c
    then true
    else (if peeks (is_one_of (codes "primary" ∷ codes "foreign" ∷ [])) c
        then peeks (is_word (codes "key")) second
        else (if peeks (is_word (codes "unique")) c
            then peeks (is_punct (codes "(")) second
              || peeks (is_one_of (codes "nulls" ∷ codes "using" ∷ [])) second
            else (if peeks (is_word (codes "check")) c
                then peeks (is_punct (codes "(")) second
                else (if peeks (is_word (codes "exclude")) c
                    then peeks (is_punct (codes "(")) second
                      || peeks (is_word (codes "using")) second
                    else false))))
