-- ===== src/Policy/Glob.antt =====
-- src/policy/policy.ts: `matches`, the globs of the policy. The pattern is compiled to a regular
-- expression of five kinds of parts, and the path is tested against it.
pub mod Match
pub mod Meets
use agent_pipeline_v.Base.{
  ℕ, ◌≡◌, Bool, true, false, ◌&&◌, ◌||◌, not, Option, none, some, List, [], ◌∷◌, ◌++◌, Text, codes,
  eq_text, Result, ok, err, all, any, is_empty, leb, ◌==◌, if◌then◌else◌,
}

-- `s.split('/')`, which has one element at least.
unfoldable pub split_slash : Text → List Text
split_slash [] = [] ∷ []
split_slash (c ∷ s) = let rest = split_slash s in if c == b'/' then [] ∷ rest else cons_first c rest
  where
    cons_first : ℕ → List Text → List Text
    cons_first c [] = (c ∷ []) ∷ []
    cons_first c (t ∷ ts) = (c ∷ t) ∷ ts

abbrev is_letter : ℕ → Bool
is_letter c = (leb b'A' c && leb c b'Z') || (leb b'a' c && leb c b'z')

-- `/^[a-zA-Z]:/`
abbrev has_drive : Text → Bool
has_drive (c ∷ d ∷ s) = is_letter c && d == b':'
has_drive _ = false

abbrev starts_with_slash : Text → Bool
starts_with_slash [] = false
starts_with_slash (c ∷ s) = c == b'/'

-- No `\`, no NUL, no line break.
abbrev is_path_unit : ℕ → Bool
is_path_unit c = not (c == b'\\' || c == 0 || c == 13 || c == 10)

-- `validRelativePath`
unfoldable pub valid_relative_path : Text → Bool
unfolding all split_slash eq_text
valid_relative_path path =
    not (is_empty path)
    && not (starts_with_slash path)
    && not (has_drive path)
    && all is_path_unit path
    && all (λ p. not (is_empty p) && not (eq_text p (codes ".")) && not (eq_text p (codes "..")))
        (split_slash path)

abbrev starts_with_bang : Text → Bool
starts_with_bang [] = false
starts_with_bang (c ∷ s) = c == b'!'

-- The test of the `invariant` of `matches`.
unfoldable pub supports : Text → Bool
unfolding valid_relative_path any split_slash
supports pattern =
    valid_relative_path pattern
    && not (any (λ c. c == b'{' || c == b'}') pattern)
    && not (any starts_with_bang (split_slash pattern))

-- `(?:.*/)?`, `.*`, `[^/]*`, `[^/]` and a character.
pub data Part : Type 0 where
  directories anything run one : Part
  literal : ℕ → Part

abbrev pub single : ℕ → Part
single c = if c == b'*' then run else (if c == b'?' then one else literal c)

-- The loop that builds the expression.
unfoldable pub compile : Text → List Part
compile [] = []
compile (c ∷ []) = single c ∷ []
compile (c ∷ d ∷ []) =
    let rest = compile (d ∷ []) in if c == b'*' && d == b'*' then anything ∷ [] else single c ∷ rest
compile (c ∷ d ∷ e ∷ s) =
    let past = compile s in
    let after = compile (e ∷ s) in
    let rest = compile (d ∷ e ∷ s) in
    if c == b'*' && d == b'*'
    then (if e == b'/' then directories ∷ past else anything ∷ after)
    else single c ∷ rest

-- `.` of an expression with no `s` flag: no line terminator.
abbrev pub is_dot : ℕ → Bool
is_dot c = not (c == 10 || c == 13 || c == 8232 || c == 8233)

abbrev pub no_slash : ℕ → Bool
no_slash c = not (c == b'/')

-- A repetition before what has to be met after it.
unfoldable pub many : (ℕ → Bool) → (Text → Bool) → Text → Bool
many p k [] = k []
many p k (c ∷ s) = let more = many p k s in k (c ∷ s) || (p c && more)

-- `.*/` before what has to be met after it.
unfoldable pub some_directory : (Text → Bool) → Text → Bool
some_directory k [] = false
some_directory k (c ∷ s) = let more = some_directory k s in (c == b'/' && k s) || (is_dot c && more)

abbrev met_by : (ℕ → Bool) → (Text → Bool) → Text → Bool
met_by p k [] = false
met_by p k (c ∷ s) = p c && k s

-- `new RegExp(...).test(path)`, from `^` to `$`
unfoldable pub accepts_path : List Part → Text → Bool
unfolding many some_directory
accepts_path [] s = is_empty s
accepts_path (directories ∷ ps) s = accepts_path ps s || some_directory (accepts_path ps) s
accepts_path (anything ∷ ps) s = many is_dot (accepts_path ps) s
accepts_path (run ∷ ps) s = many no_slash (accepts_path ps) s
accepts_path (one ∷ ps) s = met_by no_slash (accepts_path ps) s
accepts_path (literal c ∷ ps) s = met_by (λ d. d == c) (accepts_path ps) s

-- The errors that the policy throws: GLOB, with the pattern, and the two of SCOPE.
pub data PolicyError : Type 0 where
  unsupported_glob : Text → PolicyError
  too_many_new : List Text → PolicyError
  out_of_scope : List Text → PolicyError

-- The test of a supported pattern.
unfoldable pub glob : Text → Text → Bool
unfolding compile accepts_path
glob path pattern = accepts_path (compile pattern) path

-- `matches`
unfoldable pub matches : Text → Text → Result PolicyError Bool
unfolding supports glob
matches path pattern =
    if supports pattern then ok (glob path pattern) else err (unsupported_glob pattern)
