-- ===== src/Common/Dict.antt =====
-- A JavaScript `Map` with string keys: an association list in the order of insertion.
-- `set` on a key that is there keeps its place.
use Prim.Native.String.{String}
use mathlib.Core.Path.{◌≡◌, refl}
use mathlib.Core.Option.{Option, none, some}
use mathlib.Core.List.{List, [], ◌∷◌, map}
use native.Mathlib.Omega.{arith}
use text.Mathlib.TextEquality.{eq_iff}
use text.Mathlib.TextPositions.{eq_refl}
use hwfa.Common.Tests.{◌==◌, if◌then◌else◌}

abbrev pub Dict {ℓ} : Type ℓ → Type ℓ
Dict V = List (String × V)

module _ {ℓ} {V : Type ℓ} where
  unfoldable pub get : Dict V → String → Option V
  get [] k = none
  get ((j, v) ∷ d) k = if j == k then some v else get d k

  unfoldable pub set : Dict V → String → V → Dict V
  set [] k v = (k, v) ∷ []
  set ((j, w) ∷ d) k v = if j == k then (j, v) ∷ d else (j, w) ∷ set d k v

  unfoldable pub delete : Dict V → String → Dict V
  delete [] k = []
  delete ((j, w) ∷ d) k = let rest = delete d k in if j == k then rest else (j, w) ∷ rest

  abbrev pub values : Dict V → List V
  values = map (λ e. e.1)

  abbrev pub keys : Dict V → List String
  keys = map (λ e. e.0)

  pub get-set :
      (d : Dict V) (k j : String) (v : V) → get (set d k v) j ≡ (if k == j then some v else get d j)
  unfolding get set
  get-set [] k j v = refl
  get-set ((i, w) ∷ d) k j v = ground (arith, get-set d k j v, eq_iff i k, eq_iff i j, eq_iff k j)

  pub get-set_self : (d : Dict V) (k : String) (v : V) → get (set d k v) k ≡ some v
  get-set_self d k v = rw (get-set, eq_refl k)

  pub get-delete :
      (d : Dict V) (k j : String) → get (delete d k) j ≡ (if k == j then none else get d j)
  unfolding get delete
  get-delete [] k j = ground arith
  get-delete ((i, w) ∷ d) k j = ground (arith, get-delete d k j, eq_iff i k, eq_iff i j, eq_iff k j)

  pub set-get : (d : Dict V) (k : String) (v : V) → get d k ≡ some v → set d k v ≡ d
  unfolding get set
  set-get [] k v h = cc
  set-get ((i, w) ∷ d) k v h = ground (arith, set-get d k v)

pub ruleset dict_laws = (get-set, get-delete)
