-- ===== src/Prelude/Maps.antt =====
-- Go maps with string keys as association lists, and sets of strings as lists.
use mathlib.Core.Path.{◌≡◌, refl}
use mathlib.Core.Bool.{Bool, false, ◌||◌, ◌&&◌, not}
use mathlib.Core.List.{List, [], ◌∷◌, ◌++◌}
use mathlib.Core.Option.{Option, none, some}
use native.Mathlib.Omega.{arith}
use package.envoyingresscontroller.Prelude.Tests.{if◌then◌else◌}
use package.envoyingresscontroller.Prelude.Texts.{Text, ◌==◌, eq_iff, eq_refl}

abbrev pub Map {ℓ} : Type ℓ → Type ℓ
Map V = List (Text × V)

module _ {ℓ} {V : Type ℓ} where
  unfoldable pub lookup : Text → Map V → Option V
  lookup k [] = none
  lookup k ((j, v) ∷ m) = if j == k then some v else lookup k m

  -- m[k] = v
  unfoldable pub put : Text → V → Map V → Map V
  put k v [] = (k, v) ∷ []
  put k v ((j, w) ∷ m) = if j == k then (k, v) ∷ m else (j, w) ∷ put k v m

  -- delete(m, k)
  unfoldable pub remove : Text → Map V → Map V
  remove k [] = []
  remove k ((j, v) ∷ m) = let rest = remove k m in if j == k then rest else (j, v) ∷ rest

  pub lookup-put :
      (k j : Text) (v : V) (m : Map V)
      → lookup j (put k v m) ≡ (if k == j then some v else lookup j m)
  unfolding lookup put
  lookup-put k j v [] = refl
  lookup-put k j v ((i, w) ∷ m) =
      ground (arith, eq_iff k j, eq_iff i k, eq_iff i j, lookup-put k j v m)

  pub lookup-remove :
      (k j : Text) (m : Map V) → lookup j (remove k m) ≡ (if k == j then none else lookup j m)
  unfolding lookup remove
  lookup-remove k j [] = ground arith
  lookup-remove k j ((i, w) ∷ m) =
      ground (arith, eq_iff k j, eq_iff i k, eq_iff i j, lookup-remove k j m)

-- m[k] of a map of strings: the empty string where the key is missing.
unfoldable pub get_text : Text → Map Text → Text
get_text k m = elim (lookup k m) [ none ↦ [] | some v ↦ v ]

abbrev pub TextSet : Type 0
TextSet = List Text

unfoldable pub contains : Text → TextSet → Bool
contains k [] = false
contains k (j ∷ s) = j == k || contains k s

-- s[k] = true
unfoldable pub add : Text → TextSet → TextSet
add k [] = k ∷ []
add k (j ∷ s) = if j == k then j ∷ s else j ∷ add k s

-- delete(s, k)
unfoldable pub discard : Text → TextSet → TextSet
discard k [] = []
discard k (j ∷ s) = let rest = discard k s in if j == k then rest else j ∷ rest

pub contains-add : (k j : Text) (s : TextSet) → contains j (add k s) ≡ (k == j || contains j s)
unfolding contains add
contains-add k j [] = refl
contains-add k j (i ∷ s) = ground (arith, eq_iff k j, eq_iff i k, eq_iff i j, contains-add k j s)

pub contains-discard :
    (k j : Text) (s : TextSet) → contains j (discard k s) ≡ (not (k == j) && contains j s)
unfolding contains discard
contains-discard k j [] = ground arith
contains-discard k j (i ∷ s) =
    ground (arith, eq_iff k j, eq_iff i k, eq_iff i j, contains-discard k j s)

pub contains-append :
    (k : Text) (s t : TextSet) → contains k (s ++ t) ≡ (contains k s || contains k t)
unfolding contains
contains-append k [] t = refl
contains-append k (j ∷ s) t = ground (arith, contains-append k s t)

pub ruleset map_laws = (lookup-put, lookup-remove, contains-add, contains-discard, eq_refl)
