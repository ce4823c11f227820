-- ===== src/Db/Tokenizer/Scan.antt =====
-- src/db/tokenizer.ts: the loops of `tokenize` that look for the end of a token. Each goes from the
-- index it is given, here the rest of the text, and stops as the source does.
use agent_pipeline_v.Base.{
  ℕ, zero, suc, ◌-◌, Bool, false, ◌&&◌, ◌||◌, Option, none, some, [], ◌∷◌, ◌++◌, Text, starts_with,
  length, leb, ◌==◌, if◌then◌else◌,
}

-- What a loop has gone over: the value read, the text as written, and the text after it.
pub record Piece : Type 0 where
  pub value : Text
  pub text : Text
  pub rest : Text

abbrev pub is_digit : ℕ → Bool
is_digit c = leb b'0' c && leb c b'9'

-- The element at the head, as `sql[k] === d` reads it: false past the end.
abbrev pub head_is : ℕ → Text → Bool
head_is d [] = false
head_is d (c ∷ s) = c == d

-- `s.slice(0, n)` and `s.slice(n)`
unfoldable pub first : ℕ → Text → Text
first zero s = []
first (suc n) [] = []
first (suc n) (c ∷ s) = c ∷ first n s

unfoldable pub drop : ℕ → Text → Text
drop zero s = s
drop (suc n) [] = []
drop (suc n) (c ∷ s) = drop n s

-- The longest prefix of elements that pass.
unfoldable pub span : (ℕ → Bool) → Text → Text
span p [] = []
span p (c ∷ s) = if p c then c ∷ span p s else []

abbrev pub extend : Text → Text → Option Piece → Option Piece
extend value text none = none
extend value text (some p) =
    some (record { value = value ++ p.value; text = text ++ p.text; rest = p.rest })

abbrev pub closed : ℕ → Text → Option Piece
closed c s = some (record { value = []; text = c ∷ []; rest = s })

-- The loop of a '...' string and of a quoted identifier, after the opening quote `q`.
unfoldable pub quoted : ℕ → Text → Option Piece
quoted q [] = none
quoted q (c ∷ []) = if c == q then closed c [] else none
quoted q (c ∷ d ∷ s) =
    let pair = quoted q s in
    let single = quoted q (d ∷ s) in
    if c == q && d == q
    then extend (q ∷ []) (c ∷ d ∷ []) pair
    else (if c == q then closed c (d ∷ s) else extend (c ∷ []) (c ∷ []) single)

-- The loop of an E'...' string, after the opening quote.
unfoldable pub escaped : Text → Option Piece
escaped [] = none
escaped (c ∷ []) = if c == b'\'' then closed c [] else none
escaped (c ∷ d ∷ s) =
    let pair = escaped s in
    let single = escaped (d ∷ s) in
    if c == b'\\'
    then extend (d ∷ []) (c ∷ d ∷ []) pair
    else (if c == b'\'' && d == b'\''
        then extend (c ∷ []) (c ∷ d ∷ []) pair
        else (if c == b'\'' then closed c (d ∷ s) else extend (c ∷ []) (c ∷ []) single))

-- The loop of a comment from `/*`: the line and the text after it, with comments inside it counted.
unfoldable pub comment : ℕ → ℕ → Text → Option (ℕ × Text)
comment depth line [] = if depth == 0 then some (line, []) else none
comment depth line (c ∷ []) =
    if depth == 0 then some (if c == b'\n' then suc line else line, []) else none
comment depth line (c ∷ d ∷ s) =
    let inner = comment (suc depth) line s in
    let outer = comment (depth - 1) line s in
    let onward = comment depth (if c == b'\n' then suc line else line) (d ∷ s) in
    if c == b'/' && d == b'*'
    then inner
    else (if c == b'*' && d == b'/'
        then (if depth - 1 == 0 then some (line, s) else outer)
        else onward)

-- The loop of a -- comment.
unfoldable pub line_end : Text → Text
line_end [] = []
line_end (c ∷ s) = if c == b'\n' then c ∷ s else line_end s

-- `/^\$([A-Za-z_][A-Za-z0-9_]*)?\$/` after the opening `$`, on the 64 units the source slices.
abbrev pub is_tag_start : ℕ → Bool
is_tag_start c = (leb b'A' c && leb c b'Z') || (leb b'a' c && leb c b'z') || c == b'_'

abbrev pub is_tag_part : ℕ → Bool
is_tag_part c = is_tag_start c || is_digit c

abbrev pub prepend : ℕ → Option Text → Option Text
prepend c none = none
prepend c (some t) = some (c ∷ t)

unfoldable pub tag_end : Text → Option Text
tag_end [] = none
tag_end (c ∷ s) =
    let more = tag_end s in
    if c == b'$' then some (c ∷ []) else (if is_tag_part c then prepend c more else none)

unfoldable pub dollar_tag : Text → Option Text
unfolding tag_end
dollar_tag [] = none
dollar_tag (c ∷ s) =
    if c == b'$'
    then some (b'$' ∷ c ∷ [])
    else (if is_tag_start c then prepend b'$' (tag_end (c ∷ s)) else none)

-- `sql.indexOf(delimiter, from)`: the text before it and the text after it.
unfoldable pub up_to_mark : Text → Text → Option (Text × Text)
unfolding starts_with drop
up_to_mark mark [] = if starts_with mark [] then some ([], []) else none
up_to_mark mark (c ∷ s) =
    let more = up_to_mark mark s in
    if starts_with mark (c ∷ s)
    then some ([], drop (length mark) (c ∷ s))
    else elim more [ none ↦ none | some p ↦ some (c ∷ p.0, p.1) ]
