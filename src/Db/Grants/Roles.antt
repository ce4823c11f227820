-- ===== src/Db/Grants/Roles.antt =====
-- src/db/parser.ts: `grant` and `revoke` as changes of the set of the roles that may execute a function.
use agent_pipeline_v.Base.{
  ◌≡◌, refl, Bool, true, false, ◌&&◌, ◌||◌, not, none, List, [], ◌∷◌, map, Text, arith, eq_text,
  eq_text_iff, any, filter, if◌then◌else◌, is_some,
}
use agent_pipeline_v.Base.Dict.{Dict, get, put, get-put}
use agent_pipeline_v.Db.Model.{Location, Grant, DbFunction, SchemaModel, remove}
use agent_pipeline_v.Db.Routines.{put_grants}
use agent_pipeline_v.Db.Grants.{remove_grants, write_grants}

-- The abstract view of the grants of a function: the set of its roles.
abbrev pub has_role : Text → Dict Grant → Bool
has_role r grants = is_some (get r grants)

abbrev pub is_among : Text → List Text → Bool
is_among r roles = any (λ s. eq_text s r) roles

pub get-remove {ℓ} :
    {V : Type ℓ} (k j : Text) (m : Dict V)
    → get j (remove k m) ≡ (if eq_text j k then none else get j m)
unfolding get remove filter
get-remove k j [] = ground arith
get-remove k j ((i, v) ∷ m) =
    ground (arith, get-remove k j m, eq_text_iff i k, eq_text_iff i j, eq_text_iff j k)

has_role-put_grants :
    (r : Text) (roles : List Text) (explicit : Bool) (at : Location) (grants : Dict Grant)
    → has_role r (put_grants roles explicit at grants) ≡ is_among r roles || has_role r grants
unfolding put_grants any
has_role-put_grants r [] explicit at grants = refl
has_role-put_grants r (s ∷ roles) explicit at grants =
    let g : Grant = record { role = s; explicit = explicit; loc = at } in
    ground (arith, has_role-put_grants r roles explicit at (put s g grants), get-put s r g grants)

has_role-remove_grants :
    (r : Text) (roles : List Text) (grants : Dict Grant)
    → has_role r (remove_grants roles grants) ≡ has_role r grants && not (is_among r roles)
unfolding remove_grants any
has_role-remove_grants r [] grants = ground arith
has_role-remove_grants r (s ∷ roles) grants = ground (
  arith,
  has_role-remove_grants r roles (remove s grants),
  get-remove s r grants,
  eq_text_iff r s,
  eq_text_iff s r,
)

-- The roles of a function after the statement.
abbrev pub after_statement : Bool → List Text → (DbFunction → Bool) → Text → DbFunction → Bool
after_statement grant roles target r f =
    if target f
    then (if grant
        then is_among r roles || has_role r f.execute_grants
        else has_role r f.execute_grants && not (is_among r roles))
    else has_role r f.execute_grants

write_list :
    (grant : Bool) (at : Location) (roles : List Text) (target : DbFunction → Bool) (r : Text)
    (f : DbFunction)
    → has_role r
        (if target f
          then (record f {
            execute_grants =
                if grant
                then put_grants roles true at f.execute_grants
                else remove_grants roles f.execute_grants;
          })
          else f).execute_grants
      ≡ after_statement grant roles target r f
write_list true at roles target r f =
    ground (arith, has_role-put_grants r roles true at f.execute_grants)
write_list false at roles target r f =
    ground (arith, has_role-remove_grants r roles f.execute_grants)

map_ap {ℓ κ} :
    {A : Type ℓ} {B : Type κ} (f : A → A) (g h : A → B) (xs : List A)
    → ((x : A) → g (f x) ≡ h x)
    → map g (map f xs) ≡ map h xs
map_ap f g h [] e = refl
map_ap f g h (x ∷ xs) e = ground (arith, e x, map_ap f g h xs e)

-- `grant` adds the roles to the set of each function that it names and `revoke` takes them from it; a
-- function that is not named keeps its set.
pub write_grants-has_role :
    (grant : Bool) (at : Location) (roles : List Text) (target : DbFunction → Bool)
    (m : SchemaModel) (r : Text)
    → map (λ f. has_role r f.execute_grants) (write_grants grant at roles target m).functions
      ≡ map (after_statement grant roles target r) m.functions
unfolding write_grants
write_grants-has_role grant at roles target m r =
    map_ap _ (λ f. has_role r f.execute_grants) (after_statement grant roles target r) m.functions
      (write_list grant at roles target r)
