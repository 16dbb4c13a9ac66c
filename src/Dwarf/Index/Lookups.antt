-- ===== src/Dwarf/Index/Lookups.antt =====
-- The lookups of a `DwarfIndex`, against the list of the rows that were inserted.
use msim_dap.Common.{
  ℕ, ◌≡◌, Bool, true, false, ◌&&◌, ◌||◌, Option, none, some, List, [], ◌∷◌, leb, arith, refl,
  if◌then◌else◌, ◌==◌, nat_eq, int_eq, string_eq, list_eq, pair_eq, eq_self, Bool-cases,
  Option-cases, inl, inr,
}
use msim_dap.Common.Int.{ℤ}
use msim_dap.Common.Map.{lookup, contains, lookup-insert}
use msim_dap.Common.Map
use msim_dap.Target.{FilePath}
use msim_dap.Dwarf.Index.{Builder, LineKey, insert, later_entry, next_back, find_path}

-- What `insert` is called with.
pub record Row : Type 0 where
  pub address : ℕ
  pub path : FilePath
  pub line : ℤ

-- The rows inserted in their order.
unfoldable pub insert_all : List Row → Builder → Builder
insert_all [] b = b
insert_all (row ∷ rows) b = insert_all rows (insert row.address row.path row.line b)

-- The same rows, the latest first, before others.
unfoldable pub latest_first : List Row → List Row → List Row
latest_first [] seen = seen
latest_first (row ∷ rows) seen = latest_first rows (row ∷ seen)

-- The address of the latest row of a line.
unfoldable pub latest_address : FilePath → ℤ → List Row → Option ℕ
latest_address path line [] = none
latest_address path line (row ∷ seen) =
    if (row.path == path) && (row.line == line)
    then some row.address
    else latest_address path line seen

-- The later of a row, if it starts at or before `address`, and the nearest of older ones: on equal
-- addresses the row.
abbrev pub nearer : ℕ → Row → Option Row → Option Row
nearer address row none = if leb row.address address then some row else none
nearer address row (some older) =
    if leb row.address address && leb older.address row.address then some row else some older

-- The row with the greatest address up to `address`, the latest of those.
unfoldable pub nearest : ℕ → List Row → Option Row
nearest address [] = none
nearest address (row ∷ seen) = nearer address row (nearest address seen)

abbrev pub place : Option Row → Option (FilePath × ℤ)
place none = none
place (some row) = some (row.path, row.line)

-- Whether a map from paths to ids has an entry.
unfoldable pub holds : FilePath → ℕ → List (FilePath × ℕ) → Bool
holds path file [] = false
holds path file ((first, id) ∷ ids) = (first == path) && (id == file) || holds path file ids

pub holds-insert :
    (key path : FilePath) (value file : ℕ) (ids : List (FilePath × ℕ))
    → lookup key ids ≡ none
    → holds path file (Map.insert key value ids)
      ≡ ((key == path) && (value == file) || holds path file ids)
unfolding lookup holds Map.insert
holds-insert key path value file [] h = refl
holds-insert key path value file ((first, id) ∷ ids) h = elim (Bool-cases (first == key)) [
  | inl this ↦ ground (arith, this)
  | inr other ↦ ground (arith, other, holds-insert key path value file ids)
]

pub holds-lookup :
    (path : FilePath) (file : ℕ) (ids : List (FilePath × ℕ))
    → lookup path ids ≡ some file
    → holds path file ids ≡ true
unfolding lookup holds
holds-lookup path file [] h = cc
holds-lookup path file ((first, id) ∷ ids) h = elim (Bool-cases (first == path)) [
  | inl this ↦ ground (arith, this)
  | inr other ↦ ground (arith, other, holds-lookup path file ids)
]

-- Finding an entry's id in any list of the entries.
pub find_path-holds :
    (file : ℕ) (path : FilePath) (ids : List (FilePath × ℕ))
    → holds path file ids ≡ true
    → (other : FilePath) × (find_path file ids ≡ some other) × (holds other file ids ≡ true)
unfolding holds find_path
find_path-holds file path [] h = absurd (ground arith)
find_path-holds file path ((first, id) ∷ ids) h = elim (Bool-cases (id == file)) [
  | inl this ↦ (first, ground (arith, this), ground (arith, this, eq_self first))
  | inr other ↦
      let (found, at, held) = find_path-holds file path ids (ground (arith, other)) in
      (found, ground (arith, other), ground (arith, held))
]

pub next_back-insert :
    (address key : ℕ) (value : LineKey) (dict : List (ℕ × LineKey))
    → next_back address (Map.insert key value dict)
      ≡ later_entry address (key, value) (next_back address dict)
unfolding next_back Map.insert
next_back-insert address key value [] = ground arith
next_back-insert address key value ((first, old) ∷ dict) =
    elim (Option-cases (next_back address dict)) [
      | inl nothing ↦ ground (arith, nothing, next_back-insert address key value dict)
      | inr ((other, found), at) ↦ ground (arith, at, next_back-insert address key value dict)
    ]
