-- ===== src/Db/Functions/Frame.antt =====
-- src/db/parser.ts: what `functionAttributes` leaves of a function.
use agent_pipeline_v.Base.{
  ℕ, zero, suc, ◌≡◌, refl, false, Option, none, some, List, [], ◌∷◌, Text, codes, arith, eq_text,
  length, if_both, if_cases, Option-cases, inl, inr,
}
use agent_pipeline_v.Db.Tokenizer.Token.{Token}
use agent_pipeline_v.Db.Statements.{is_punct}
use agent_pipeline_v.Db.Model.{DbFunction}
use agent_pipeline_v.Db.Cursor.{
  peeks, accept, accepts, skip_words, ident, ident_name, while_on, while_tokens,
}
use agent_pipeline_v.Db.Functions.{
  FunctionPass, set_parameter, other_attribute, attribute_pass, function_attributes, definer,
  invoker, external,
}

-- What holds at the start and after each pass holds after the loop.
while_on-keeps {ℓ κ} :
    {A : Type ℓ} (P : A → Type κ) (step : List Token → A → List Token × A) (n : ℕ) (c : List Token)
    (a : A)
    → ((c : List Token) (a : A) → P a → P (step c a).1)
    → P a
    → P (while_on n step c a)
unfolding while_on
while_on-keeps P step n [] a k h = h
while_on-keeps P step zero (t ∷ c) a k h = h
while_on-keeps P step (suc n) (t ∷ c) a k h =
    let r = step (t ∷ c) a in while_on-keeps P step n r.0 r.1 k (k (t ∷ c) a h)

-- The schema, the signature and the grants are the same.
abbrev pub IsKept : DbFunction → DbFunction → Type 0
IsKept f g =
    (g.schema ≡ f.schema)
    × (g.arg_count ≡ f.arg_count)
    × (g.arg_types ≡ f.arg_types)
    × (g.execute_grants ≡ f.execute_grants)

-- Where the longer words match, the first of them does.
accepts-first :
    (w : Text) (ws : List Text) (c : List Token)
    → accepts (w ∷ []) c ≡ false
    → accepts (w ∷ ws) c ≡ false
unfolding accept
accepts-first w ws [] h = refl
accepts-first w ws (t ∷ c) h = ground arith

-- The same of what a pass gives.
Keeps : DbFunction → List Token × FunctionPass → Type 0
Keeps f r = IsKept f r.1.fn

keep : (f : DbFunction) (c : List Token) (p : FunctionPass) → IsKept f p.fn → Keeps f (c, p)
unfolding Keeps
keep f c p h = h

kept : (f : DbFunction) (r : List Token × FunctionPass) → Keeps f r → IsKept f r.1.fn
unfolding Keeps
kept f r h = h

set_parameter-Keeps :
    (f : DbFunction) (c : List Token) (p : FunctionPass)
    → IsKept f p.fn
    → Keeps f (set_parameter c p)
unfolding set_parameter
set_parameter-Keeps f c p h = elim (Option-cases (ident c)) [
  | inl e ↦ rw (e, set_parameter) (keep f c p h)
  | inr ((n, d), e) ↦
      rw (e, set_parameter)
        (if_both (Keeps f) (eq_text n.name (codes "search_path")) (keep f _ _ h) (keep f d p h))
]

renamed-IsKept :
    (f g : DbFunction) (o : Option Text)
    → IsKept f g
    → IsKept f (elim o [ none ↦ g | some to ↦ record g { name = to } ])
renamed-IsKept f g none h = h
renamed-IsKept f g (some to) h = h

other_attribute-Keeps :
    (f : DbFunction) (c : List Token) (p : FunctionPass)
    → accepts (codes "set" ∷ []) c ≡ false
    → IsKept f p.fn
    → Keeps f (other_attribute c p)
unfolding other_attribute
other_attribute-Keeps f c p n h =
    let words = codes "rename" ∷ codes "to" ∷ [] in
    if_both (Keeps f) (accepts words c)
      (keep f _ _ (renamed-IsKept f p.fn (ident_name (skip_words words c)).0 h))
      (if_cases (Keeps f) (accepts (codes "set" ∷ codes "schema" ∷ []) c)
        (λ set. absurd (ground (arith, accepts-first (codes "set") (codes "schema" ∷ []) c n)))
        (λ k. if_both (Keeps f) (peeks (is_punct (codes "(")) c) (keep f _ p h) (keep f _ p h)))

attribute_pass-Keeps :
    (lower : Text → Text) (f : DbFunction) (c : List Token) (p : FunctionPass)
    → IsKept f p.fn
    → Keeps f (attribute_pass lower c p)
unfolding attribute_pass
attribute_pass-Keeps lower f c p h =
    let P = Keeps f in
    if_both P (accepts (codes "returns" ∷ []) c) (keep f _ _ h) (
      if_both P (accepts (external definer) c) (keep f _ _ h) (
        if_both P (accepts definer c) (keep f _ _ h) (
          if_both P (accepts (external invoker) c) (keep f _ _ h) (
            if_both P (accepts invoker c) (keep f _ _ h) (
              if_cases P (accepts (codes "set" ∷ []) c)
                (λ set. set_parameter-Keeps f (skip_words (codes "set" ∷ []) c) p h)
                (λ n. if_both P (accepts (codes "reset" ∷ codes "all" ∷ []) c) (keep f _ _ h) (
                  if_both P (accepts (codes "reset" ∷ codes "search_path" ∷ []) c) (keep f _ _ h)
                    (other_attribute-Keeps f c p n h))))))))

-- The attributes of a function never change its schema, its signature or its grants: `set schema` in an
-- `alter function` has no effect, since the test for `set` comes before it.
pub function_attributes-IsKept :
    (lower : Text → Text) (c : List Token) (f : DbFunction)
    → IsKept f (function_attributes lower c f).fn
unfolding function_attributes while_tokens
function_attributes-IsKept lower c f =
    while_on-keeps (λ p. IsKept f p.fn) (attribute_pass lower) (length c) c
      (record { fn = f; assigned = false })
      (λ c p h. kept f (attribute_pass lower c p) (attribute_pass-Keeps lower f c p h))
      (refl, refl, refl, refl)
