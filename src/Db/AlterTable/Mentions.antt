-- ===== src/Db/AlterTable/Mentions.antt =====
-- src/db/parser.ts: what names a table, after `drop table` and `alter table ... rename to`.
use agent_pipeline_v.Base.{
  ℕ, ◌≡◌, refl, Bool, false, ◌&&◌, ◌||◌, not, some, List, [], ◌∷◌, map, Text, arith, eq_text,
  eq_text_iff, any, filter, is_some, Option-cases, inl, inr,
}
use agent_pipeline_v.Base.Dict.{get, get-put}
use agent_pipeline_v.Db.Tokenizer.Token.{Token}
use agent_pipeline_v.Db.Model.{Table, ForeignKey, SchemaModel, remove}
use agent_pipeline_v.Db.Cursor.{Name, qualified}
use agent_pipeline_v.Db.Tables.{Context, resolve_table, loc_at}
use agent_pipeline_v.Db.Alter.{
  rename_table, key_renamed, index_renamed, policy_renamed, after_point,
}
use agent_pipeline_v.Db.AlterTable.{drop_key, drop_tables}
use agent_pipeline_v.Db.Grants.Roles.{get-remove}

abbrev key_on : Text → ForeignKey → Bool
key_on key fk = eq_text fk.table key || eq_text fk.ref_table key

-- The model has the table, or a foreign key from it or to it, an index or a policy of it.
abbrev pub mentions : Text → SchemaModel → Bool
mentions key m =
    is_some (get key m.tables)
    || any (key_on key) m.foreign_keys
    || any (λ ix. eq_text ix.table key) m.indexes
    || any (λ p. eq_text p.table key) m.policies

module _ {ℓ} {A : Type ℓ} where
  any-filter :
      (p q : A → Bool) (xs : List A) → ((x : A) → p x && q x ≡ false) → any p (filter q xs) ≡ false
  unfolding any filter
  any-filter p q [] h = refl
  any-filter p q (x ∷ xs) h = ground (arith, h x, any-filter p q xs h)

  any-filter_none : (p q : A → Bool) (xs : List A) → any p xs ≡ false → any p (filter q xs) ≡ false
  unfolding any filter
  any-filter_none p q [] h = refl
  any-filter_none p q (x ∷ xs) h = ground (arith, any-filter_none p q xs)

  any-map :
      (p : A → Bool) (f : A → A) (xs : List A)
      → ((x : A) → p (f x) ≡ false)
      → any p (map f xs) ≡ false
  unfolding any
  any-map p f [] h = refl
  any-map p f (x ∷ xs) h = ground (arith, h x, any-map p f xs h)

drop_key-gone : (key : Text) (m : SchemaModel) → mentions key (drop_key key m) ≡ false
unfolding drop_key
drop_key-gone key m = ground (
  arith,
  get-remove key key m.tables,
  eq_text_iff key key,
  any-filter (key_on key) (λ fk. not (eq_text fk.table key) && not (eq_text fk.ref_table key))
      m.foreign_keys (λ fk. ground arith),
  any-filter (λ ix. eq_text ix.table key) (λ ix. not (eq_text ix.table key)) m.indexes
      (λ ix. ground arith),
  any-filter (λ p. eq_text p.table key) (λ p. not (eq_text p.table key)) m.policies
      (λ p. ground arith),
)

drop_key-none :
    (key other : Text) (m : SchemaModel)
    → mentions other m ≡ false
    → mentions other (drop_key key m) ≡ false
unfolding drop_key
drop_key-none key other m h = ground (
  arith,
  get-remove key other m.tables,
  any-filter_none (key_on other)
      (λ fk. not (eq_text fk.table key) && not (eq_text fk.ref_table key)) m.foreign_keys,
  any-filter_none (λ ix. eq_text ix.table other) (λ ix. not (eq_text ix.table key)) m.indexes,
  any-filter_none (λ p. eq_text p.table other) (λ p. not (eq_text p.table key)) m.policies,
)

drop_tables-none :
    (parts : List (List Token)) (key : Text) (m : SchemaModel)
    → mentions key m ≡ false
    → mentions key (drop_tables parts m) ≡ false
unfolding drop_tables
drop_tables-none [] key m h = h
drop_tables-none (part ∷ parts) key m h = elim (Option-cases (qualified part)) [
  | inl e ↦ rw (e, drop_tables) (drop_tables-none parts key m h)
  | inr ((n, d), e) ↦
      rw (e, drop_tables)
        (let dropped = drop_key (resolve_table n m) m in
          drop_tables-none parts key dropped (drop_key-none (resolve_table n m) key m h))
]

-- After `drop table` the model has no table under the key of the first name of the list, and no foreign
-- key from it or to it, no index and no policy of it, whatever else the list drops.
pub drop_tables-gone :
    (part : List Token) (parts : List (List Token)) (m : SchemaModel) (n : Name) (d : List Token)
    → qualified part ≡ some (n, d)
    → mentions (resolve_table n m) (drop_tables (part ∷ parts) m) ≡ false
unfolding drop_tables
drop_tables-gone part parts m n d e =
    rw (e, drop_tables)
      (drop_tables-none parts (resolve_table n m) (drop_key (resolve_table n m) m)
        (drop_key-gone (resolve_table n m) m))

-- A table that is renamed to another key is found under it, with its new name and the rest unchanged, and
-- nothing names the old key.
pub rename_table-gone :
    (x : Context) (from to : Text) (line : ℕ) (m : SchemaModel) (t : Table)
    → get from m.tables ≡ some t
    → eq_text to from ≡ false
    → (mentions from (rename_table x from to line m) ≡ false)
      × (get to (rename_table x from to line m).tables
          ≡ some (record t { name = after_point to; loc = loc_at x line }))
unfolding rename_table
rename_table-gone x from to line m t h n =
    let written : Table = record t { name = after_point to; loc = loc_at x line } in
    rw (h, rename_table)
      (
        ground (
          arith,
          get-put to from written (remove from m.tables),
          get-remove from from m.tables,
          eq_text_iff from from,
          eq_text_iff to from,
          any-map (key_on from) (key_renamed from to) m.foreign_keys (λ fk. ground arith),
          any-map (λ ix. eq_text ix.table from) (index_renamed from to) m.indexes
              (λ ix. ground arith),
          any-map (λ p. eq_text p.table from) (policy_renamed from to) m.policies
              (λ p. ground arith),
        ),
        ground (arith, get-put to to written (remove from m.tables), eq_text_iff to to),
      )
