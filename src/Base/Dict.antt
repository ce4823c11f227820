-- ===== src/Base/Dict.antt =====
-- A JavaScript object or `Map` with text keys, as the list of its entries in enumeration order.
use agent_pipeline_v.Base.Texts.{Text, eq_text, eq_text_iff}
use agent_pipeline_v.Base.Tests.{if◌then◌else◌}
use mathlib.Core.Path.{◌≡◌, refl}
use mathlib.Core.Option.{Option, none, some}
use mathlib.Core.List.{List, [], ◌∷◌, map}
use native.Mathlib.Omega.{arith}

abbrev pub Dict {ℓ} : Type ℓ → Type ℓ
Dict V = List (Text × V)

module _ {ℓ} {V : Type ℓ} where
  -- `m.get(k)`, and `m[k]` on an object with no inherited property of that name
  unfoldable pub get : Text → Dict V → Option V
  get k [] = none
  get k ((j, v) ∷ m) = if eq_text j k then some v else get k m

  -- `m.set(k, v)`: an entry keeps its place, a new one goes last.
  unfoldable pub put : Text → V → Dict V → Dict V
  put k v [] = (k, v) ∷ []
  put k v ((j, w) ∷ m) = if eq_text j k then (j, v) ∷ m else (j, w) ∷ put k v m

  pub get-put :
      (k j : Text) (v : V) (m : Dict V)
      → get j (put k v m) ≡ (if eq_text k j then some v else get j m)
  unfolding get put
  get-put k j v [] = refl
  get-put k j v ((i, w) ∷ m) =
      ground (arith, eq_text_iff k j, eq_text_iff i k, eq_text_iff i j, get-put k j v m)

  abbrev pub keys : Dict V → List Text
  keys m = map (λ e. e.0) m

  -- Replacing the value of a present key leaves the keys and their order.
  pub keys-put : (k : Text) (v w : V) (m : Dict V) → get k m ≡ some w → keys (put k v m) ≡ keys m
  unfolding get put
  keys-put k v w [] h = ground arith
  keys-put k v w ((j, x) ∷ m) h = ground (arith, keys-put k v w m)
