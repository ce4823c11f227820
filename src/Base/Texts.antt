-- ===== src/Base/Texts.antt =====
-- A JavaScript string as the list of its UTF-16 code units, so that `length`, `===`,
-- `startsWith`, `trim` and the character classes of the source are computed as the language does.
use Prim.Native.Nat.{ℕ}
use Prim.Native.Char.{code}
use Prim.Native.String.{String}
use mathlib.Core.Path.{◌≡◌, refl}
use mathlib.Core.Logic.{◌↔◌}
use mathlib.Core.Bool.{Bool, true, false, ◌&&◌, ◌||◌}
use mathlib.Core.List.{List, [], ◌∷◌, reverse}
use native.Mathlib.Omega.{arith}
use agent_pipeline_v.Base.Tests.{◌==◌, leb, if◌then◌else◌}
use agent_pipeline_v.Base.Lists.{all, any}

abbrev pub Text : Type 0
Text = List ℕ

-- A literal: its code points, which are its code units outside the astral planes.
abbrev pub codes : String → Text
codes String.[] = []
codes (String.◌∷◌ c s) = code c ∷ codes s

-- `s === t`
unfoldable pub eq_text : Text → Text → Bool
eq_text [] [] = true
eq_text [] (y ∷ t) = false
eq_text (x ∷ s) [] = false
eq_text (x ∷ s) (y ∷ t) = (x == y) && eq_text s t

pub eq_text_refl : (s : Text) → eq_text s s ≡ true
unfolding eq_text
eq_text_refl [] = refl
eq_text_refl (x ∷ s) = ground (arith, eq_text_refl s)

eq_of_eq_text : (s t : Text) → eq_text s t ≡ true → s ≡ t
unfolding eq_text
eq_of_eq_text [] [] h = refl
eq_of_eq_text [] (y ∷ t) h = ground arith
eq_of_eq_text (x ∷ s) [] h = ground arith
eq_of_eq_text (x ∷ s) (y ∷ t) h = ground (arith, eq_of_eq_text s t)

pub eq_text_iff : (s t : Text) → (eq_text s t ≡ true) ↔ (s ≡ t)
eq_text_iff s t = (eq_of_eq_text s t, λ e. ground (arith, eq_text_refl s))

-- White space of `String.prototype.trim` in the basic plane.
unfoldable pub is_space : ℕ → Bool
is_space c =
    (leb 9 c && leb c 13)
    || c == 32
    || c == 160
    || c == 5760
    || (leb 8192 c && leb c 8202)
    || c == 8232
    || c == 8233
    || c == 8239
    || c == 8287
    || c == 12288
    || c == 65279

-- `Boolean(s.trim())`: some code unit is no white space.
unfoldable pub has_text : Text → Bool
unfolding is_space any
has_text s = any (λ c. if is_space c then false else true) s

trim_start : Text → Text
unfolding is_space
trim_start [] = []
trim_start (c ∷ s) = if is_space c then trim_start s else c ∷ s

-- `s.trim()`
unfoldable pub trim : Text → Text
unfolding trim_start
trim s = reverse (trim_start (reverse (trim_start s)))

-- `s.startsWith(p)`
unfoldable pub starts_with : Text → Text → Bool
starts_with [] s = true
starts_with (c ∷ p) [] = false
starts_with (c ∷ p) (d ∷ s) = (c == d) && starts_with p s

is_alnum : ℕ → Bool
is_alnum c = (leb b'0' c && leb c b'9') || (leb b'A' c && leb c b'Z') || (leb b'a' c && leb c b'z')

is_key_part : ℕ → Bool
unfolding is_alnum
is_key_part c = is_alnum c || c == b'.' || c == b'_' || c == b'-'

-- `/^[A-Za-z0-9][A-Za-z0-9._-]*$/` (the `$` of a pattern with no `m` flag is the end of the text)
unfoldable pub is_key : Text → Bool
unfolding is_alnum is_key_part all
is_key [] = false
is_key (c ∷ s) = is_alnum c && all is_key_part s
