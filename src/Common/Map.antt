-- ===== src/Common/Map.antt =====
-- `HashMap`, `HashSet` and `Vec::contains` as association lists and lists.
use mathlib.Core.Path.{◌≡◌, refl}
use mathlib.Core.Bool.{Bool, false, ◌||◌}
use mathlib.Core.Option.{Option, none, some}
use mathlib.Core.List.{List, [], ◌∷◌}
use native.Mathlib.Omega.{arith}
use msim_dap.Common.Tests.{if◌then◌else◌}
use msim_dap.Common.Eq.{HasEq, ◌==◌}

module _ {ℓ κ} {K : Type ℓ} {V : Type κ} ⦃e : HasEq K⦄ where
  -- `HashMap::get`
  unfoldable pub lookup : K → List (K × V) → Option V
  lookup key [] = none
  lookup key ((first, value) ∷ rest) = if first == key then some value else lookup key rest

  -- `HashMap::insert`: the entry of a key that is there keeps its place.
  unfoldable pub insert : K → V → List (K × V) → List (K × V)
  insert key value [] = (key, value) ∷ []
  insert key value ((first, old) ∷ rest) =
      if first == key then (first, value) ∷ rest else (first, old) ∷ insert key value rest

  -- `HashMap::remove`
  unfoldable pub remove : K → List (K × V) → List (K × V)
  remove key [] = []
  remove key ((first, value) ∷ rest) =
      let kept = remove key rest in if first == key then kept else (first, value) ∷ kept

  -- Reading a map after a write, whichever keys the two name.
  pub lookup-insert :
      (written read : K) (value : V) (dict : List (K × V))
      → lookup read (insert written value dict)
        ≡ (if written == read then some value else lookup read dict)
  unfolding lookup insert
  lookup-insert written read value [] = refl
  lookup-insert written read value ((first, old) ∷ rest) = ground (
    arith,
    e.eq_iff first written,
    e.eq_iff first read,
    e.eq_iff written read,
    lookup-insert written read value rest,
  )

  pub lookup-remove :
      (gone read : K) (dict : List (K × V))
      → lookup read (remove gone dict) ≡ (if gone == read then none else lookup read dict)
  unfolding lookup remove
  lookup-remove gone read [] = ground arith
  lookup-remove gone read ((first, value) ∷ rest) = ground (
    arith,
    e.eq_iff first gone,
    e.eq_iff first read,
    e.eq_iff gone read,
    lookup-remove gone read rest,
  )

  -- `into_iter().collect()` of pairs into a map: a later pair overrides an earlier one.
  unfoldable pub collect_into : List (K × V) → List (K × V) → List (K × V)
  collect_into m [] = m
  collect_into m ((k, v) ∷ l) = collect_into (insert k v m) l

  unfoldable pub collect : List (K × V) → List (K × V)
  collect l = collect_into [] l

module _ {ℓ} {K : Type ℓ} ⦃e : HasEq K⦄ where
  -- `HashSet::contains`, `slice::contains`
  unfoldable pub contains : K → List K → Bool
  contains k [] = false
  contains k (j ∷ s) = (j == k) || contains k s

  -- `HashSet::insert`
  unfoldable pub set_insert : K → List K → List K
  set_insert k s = if contains k s then s else k ∷ s

  -- `HashSet::remove`
  unfoldable pub set_remove : K → List K → List K
  set_remove k [] = []
  set_remove k (j ∷ s) = let rest = set_remove k s in if j == k then rest else j ∷ rest

  pub contains-set_insert :
      (k j : K) (s : List K) → contains j (set_insert k s) ≡ ((k == j) || contains j s)
  unfolding contains set_insert
  contains-set_insert k j s = ground (arith, e.eq_iff k j)

  pub contains-set_remove :
      (k j : K) (s : List K)
      → contains j (set_remove k s) ≡ (if k == j then false else contains j s)
  unfolding contains set_remove
  contains-set_remove k j [] = ground arith
  contains-set_remove k j (i ∷ s) =
      ground (arith, e.eq_iff k j, e.eq_iff i k, e.eq_iff i j, contains-set_remove k j s)
