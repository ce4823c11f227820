-- ===== src/Db/Elements/Parts.antt =====
-- src/db/parser.ts: lists written with commas, and read back by `splitTopLevel` and `columnList`.
use agent_pipeline_v.Base.{
  ℕ, ◌≡◌, refl, ap, sym, subst, ◌∙◌, true, false, ◌&&◌, Option, none, some, List, [], ◌∷◌, ◌++◌,
  map, Text, codes, arith, eq_text, all, All, if◌then◌else◌, Bool-cases, inl, inr,
}
use agent_pipeline_v.Db.Tokenizer.Token.{Token, TokenKind, word, qident, string, number, punct, op}
use agent_pipeline_v.Db.Statements.{is_punct, is_punct_kind}
use agent_pipeline_v.Db.Statements.Whole.{append_nil, append_one}
use agent_pipeline_v.Db.Cursor.{is_ident, group, group_over}
use agent_pipeline_v.Db.Elements.{
  Depth, up, move_depth, is_level, split_parts, split_top_level, column_of, column_list, flat_map,
}

-- The depth after a run of tokens with no comma at the top.
unfoldable pub run_depth : Depth → List Token → Option Depth
run_depth d [] = some d
run_depth d (t ∷ ts) =
    let after = move_depth t d in
    let onward = run_depth after ts in
    if is_level after && is_punct (codes ",") t then none else onward

-- The brackets of the part are closed, and no comma is outside of them.
abbrev pub IsItem : List Token → Type 0
IsItem p = run_depth (up 0) p ≡ some (up 0)

abbrev pub sign_token : Text → ℕ → Token
sign_token s line = record { kind = punct; value = s; text = s; line = line }

abbrev pub comma : ℕ → Token
comma line = sign_token (codes ",") line

-- The parts with commas between them.
unfoldable pub interleave : ℕ → List (List Token) → List Token
interleave line [] = []
interleave line (p ∷ []) = p
interleave line (p ∷ q ∷ ps) = p ++ (comma line ∷ interleave line (q ∷ ps))

split_parts-run :
    (d e : Depth) (p current rest : List Token)
    → run_depth d p ≡ some e
    → split_parts d current (p ++ rest) ≡ split_parts e (current ++ p) rest
unfolding run_depth split_parts
split_parts-run d e [] current rest h =
    let same : d ≡ e = ground arith in
    subst (λ x. split_parts d current rest ≡ split_parts x (current ++ []) rest) same
      (ap (λ c. split_parts d c rest) (sym (append_nil current)))
split_parts-run d e (t ∷ p) current rest h =
    let after = move_depth t d in
    elim (Bool-cases (is_level after && is_punct (codes ",") t)) [
      | inl cut ↦ ground arith
      | inr on ↦
          rw (on, split_parts)
            (split_parts-run after e p (current ++ (t ∷ [])) rest (ground arith)
              ∙ ap (λ c. split_parts e c rest) (append_one current t p))
    ]

split_parts-interleave :
    (line : ℕ) (p : List Token) (ps : List (List Token))
    → IsItem p
    → All IsItem ps
    → split_parts (up 0) [] (interleave line (p ∷ ps)) ≡ p ∷ ps
unfolding interleave split_parts eq_text
split_parts-interleave line p [] h a =
    ap (λ x. split_parts (up 0) [] x) (sym (append_nil p)) ∙ split_parts-run (up 0) (up 0) p [] [] h
split_parts-interleave line p (q ∷ ps) h a =
    split_parts-run (up 0) (up 0) p [] (comma line ∷ interleave line (q ∷ ps)) h
    ∙ ap (λ r. p ∷ r) (split_parts-interleave line q ps a.0 a.1)

-- Parts whose brackets are closed and that have no comma outside of them, written with commas between
-- them, are read back as they are by `splitTopLevel`, where the first has a token.
pub split_top_level-interleave :
    (line : ℕ) (t : Token) (p : List Token) (ps : List (List Token))
    → IsItem (t ∷ p)
    → All IsItem ps
    → split_top_level (interleave line ((t ∷ p) ∷ ps)) ≡ (t ∷ p) ∷ ps
unfolding split_top_level interleave
split_top_level-interleave line t p [] h a = split_parts-interleave line (t ∷ p) [] h a
split_top_level-interleave line t p (q ∷ ps) h a = split_parts-interleave line (t ∷ p) (q ∷ ps) h a

ident_not_punct :
    (k : TokenKind)
    → (elim k [ word ↦ true | qident ↦ true | _ ↦ false ]) ≡ true
    → is_punct_kind k ≡ false
ident_not_punct word h = refl
ident_not_punct qident h = refl
ident_not_punct string h = refl
ident_not_punct number h = refl
ident_not_punct punct h = absurd (ground arith)
ident_not_punct op h = refl

ident-IsItem : (t : Token) → is_ident t ≡ true → IsItem (t ∷ [])
unfolding run_depth
ident-IsItem t h = rw (ident_not_punct t.kind h) refl

idents-IsItem : (ts : List Token) → all is_ident ts ≡ true → All IsItem (map (λ t. t ∷ []) ts)
unfolding all
idents-IsItem [] h = tt
idents-IsItem (t ∷ ts) h = (ident-IsItem t (ground arith), idents-IsItem ts (ground arith))

columns_read :
    (ts : List Token)
    → all is_ident ts ≡ true
    → flat_map column_of (map (λ t. t ∷ []) ts) ≡ map (λ t. t.value) ts
unfolding all column_of
columns_read [] h = refl
columns_read (t ∷ ts) h = ground (arith, columns_read ts)

-- The tokens of a list of names, `a, b, c`
abbrev pub names_list : ℕ → List Token → List Token
names_list line ts = interleave line (map (λ t. t ∷ []) ts)

group_over-names :
    (line : ℕ) (t : Token) (ts rest : List Token)
    → all is_ident (t ∷ ts) ≡ true
    → group_over 1 (names_list line (t ∷ ts) ++ (sign_token (codes ")") line ∷ rest))
      ≡ (names_list line (t ∷ ts), rest)
unfolding all group_over interleave eq_text
group_over-names line t [] rest h = rw (ident_not_punct t.kind (ground arith), group_over) refl
group_over-names line t (u ∷ ts) rest h =
    rw (ident_not_punct t.kind (ground arith), group_over)
      (ap (λ (g : List Token × List Token). (t ∷ comma line ∷ g.0, g.1))
        (group_over-names line u ts rest (ground arith)))

-- The columns of an index or of a key, written as names between parentheses with commas, are read back
-- by `group` and `columnList`, and the cursor stands after the parenthesis.
pub column_list-names_list :
    (line : ℕ) (t : Token) (ts rest : List Token)
    → all is_ident (t ∷ ts) ≡ true
    → (group (
          sign_token (codes "(") line
          ∷ (names_list line (t ∷ ts) ++ (sign_token (codes ")") line ∷ rest)))
        ≡ some (names_list line (t ∷ ts), rest))
      × (column_list (names_list line (t ∷ ts)) ≡ map (λ t. t.value) (t ∷ ts))
unfolding all group column_list eq_text
column_list-names_list line t ts rest h = (
  ap (λ g. some g) (group_over-names line t ts rest h),
  ap (λ parts. flat_map column_of parts)
        (split_top_level-interleave line t [] (map (λ t. t ∷ []) ts) (ident-IsItem t (ground arith))
          (idents-IsItem ts (ground arith)))
      ∙ columns_read (t ∷ ts) h,
)
