-- ===== src/Common/Map.antt =====
-- Maps with text keys (`HashMap<String, V>`, `BTreeMap<String, V>`) as association lists.
use Prim.Native.String.{String}
use mathlib.Core.Path.{◌≡◌}
use mathlib.Core.Bool.{Bool, true, false}
use mathlib.Core.Option.{Option, none, some}
use mathlib.Core.List.{List, [], ◌∷◌, map}
use native.Mathlib.Omega.{arith}
use text.Mathlib.TextEquality.{eq_iff}
use fraisier_core.Common.Booleans.{if◌then◌else◌}
use fraisier_core.Common.Text.{str_eq}

abbrev pub Map {ℓ} : Type ℓ → Type ℓ
Map V = List (String × V)

module _ {ℓ} {V : Type ℓ} where
  unfoldable pub lookup : String → Map V → Option V
  lookup wanted [] = none
  lookup wanted ((key, value) ∷ rest) =
      let later = lookup wanted rest in if str_eq wanted key then some value else later

  -- The entry takes the place of an older one with its key.
  unfoldable pub insert : String → V → Map V → Map V
  insert key value [] = (key, value) ∷ []
  insert key value ((other, old) ∷ rest) =
      let later = insert key value rest in
      if str_eq key other then (other, value) ∷ rest else (other, old) ∷ later

  -- The values, in some order.
  unfoldable pub values : Map V → List V
  values = map (λ e. e.1)

  pub lookup-insert :
      (key wanted : String) (value : V) (entries : Map V)
      → lookup wanted (insert key value entries)
        ≡ (if str_eq key wanted then some value else lookup wanted entries)
  unfolding lookup insert
  lookup-insert key wanted value [] = ground (arith, eq_iff key wanted, eq_iff wanted key)
  lookup-insert key wanted value ((other, old) ∷ rest) = ground (
    arith,
    lookup-insert key wanted value rest,
    eq_iff key wanted,
    eq_iff wanted other,
    eq_iff key other,
    eq_iff wanted key,
  )

-- Sets of texts (`HashSet<String>`).
unfoldable pub contains : String → List String → Bool
contains k [] = false
contains k (j ∷ s) = if str_eq j k then true else contains k s

unfoldable pub remove : String → List String → List String
remove k [] = []
remove k (j ∷ s) = let rest = remove k s in if str_eq j k then rest else j ∷ rest

pub contains-remove :
    (k j : String) (s : List String)
    → contains j (remove k s) ≡ (if str_eq k j then false else contains j s)
unfolding contains remove
contains-remove k j [] = ground arith
contains-remove k j (i ∷ s) =
    ground (arith, eq_iff k j, eq_iff i k, eq_iff i j, contains-remove k j s)
