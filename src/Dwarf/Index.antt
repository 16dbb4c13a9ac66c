-- ===== src/Dwarf/Index.antt =====
-- src/dwarf/index.rs: `DwarfIndexBuilder` and `DwarfIndex`.
pub mod Lookups
pub mod Numbered
pub mod Inserted
use msim_dap.Common.{
  ℕ, ◌≡◌, ◌+◌, ◌%◌, ◌^◌, Bool, true, false, ◌&&◌, Option, none, some, List, [], ◌∷◌, leb,
  if◌then◌else◌, ◌==◌, nat_eq, int_eq, string_eq, list_eq, pair_eq,
}
use msim_dap.Common.Int.{ℤ}
use msim_dap.Common.Map.{lookup}
use msim_dap.Common.Map
use msim_dap.Target.{FilePath, DebugIndex}

-- A file's id, a `u32`, with a line of it.
abbrev pub LineKey : Type 0
LineKey = ℕ × ℤ

-- `DwarfIndexBuilder`. The `BTreeMap` too is an association list: of its order, `next_back` alone
-- makes use.
pub record Builder : Type 0 where
  pub current_id : ℕ
  pub file_ids : List (FilePath × ℕ)
  pub line_to_address : List (LineKey × ℕ)
  pub address_to_line : List (ℕ × LineKey)

-- `DwarfIndex`
pub record DwarfIndex : Type 0 where
  pub file_ids : List (FilePath × ℕ)
  pub line_to_address : List (LineKey × ℕ)
  pub address_to_line : List (ℕ × LineKey)

-- `DwarfIndexBuilder::new`
abbrev pub new : Builder
new = record { current_id = 0; file_ids = []; line_to_address = []; address_to_line = [] }

-- The closure of `or_insert_with`, and the insertion of what it returns.
unfoldable pub add_id : FilePath → Builder → Builder
add_id path b =
    let current_id = (b.current_id + 1) % 2 ^ 32 in
    record {
      current_id = current_id;
      file_ids = Map.insert path current_id b.file_ids;
      line_to_address = b.line_to_address;
      address_to_line = b.address_to_line;
    }

-- `file_ids.entry(path).or_insert_with(…)`: the file's id, and the builder that has it.
unfoldable pub file_id : FilePath → Builder → ℕ × Builder
unfolding add_id
file_id path b = elim (lookup path b.file_ids) [
  | some file ↦ (file, b)
  | none ↦ ((add_id path b).current_id, add_id path b)
]

-- The two insertions under a key.
unfoldable pub note_line : ℕ → LineKey → Builder → Builder
note_line address key b = record {
  current_id = b.current_id;
  file_ids = b.file_ids;
  line_to_address = Map.insert key address b.line_to_address;
  address_to_line = Map.insert address key b.address_to_line;
}

-- `DwarfIndexBuilder::insert`
unfoldable pub insert : ℕ → FilePath → ℤ → Builder → Builder
unfolding file_id note_line
insert address path line b = let (file, b') = file_id path b in note_line address (file, line) b'

-- `DwarfIndexBuilder::build`
abbrev pub build : Builder → DwarfIndex
build b = record {
  file_ids = b.file_ids;
  line_to_address = b.line_to_address;
  address_to_line = b.address_to_line;
}

-- `get_address` of `DwarfIndex`
unfoldable pub get_address : DwarfIndex → FilePath → ℤ → Option ℕ
get_address index path line = elim (lookup path index.file_ids) [
  | none ↦ none
  | some id ↦ lookup (id, line) index.line_to_address
]

-- The larger by key of an entry, if its key is at most `address`, and what the others gave.
abbrev pub later_entry {ℓ} : {V : Type ℓ} → ℕ → ℕ × V → Option (ℕ × V) → Option (ℕ × V)
later_entry address (key, value) none = if leb key address then some (key, value) else none
later_entry address (key, value) (some (other, found)) =
    if leb key address && leb other key then some (key, value) else some (other, found)

-- `range(..=address).next_back()`
unfoldable pub next_back {ℓ} : {V : Type ℓ} → ℕ → List (ℕ × V) → Option (ℕ × V)
next_back address [] = none
next_back address (entry ∷ entries) = later_entry address entry (next_back address entries)

-- `file_ids.iter().find(|&(_, v)| *v == key.file)?.0`
unfoldable pub find_path : ℕ → List (FilePath × ℕ) → Option FilePath
find_path file [] = none
find_path file ((path, id) ∷ ids) = if id == file then some path else find_path file ids

module _ (order : List (FilePath × ℕ) → List (FilePath × ℕ)) where
  -- `resolve_address` of `DwarfIndex`. `order` is the order in which the `HashMap` of ids is iterated.
  unfoldable pub resolve_address : DwarfIndex → ℕ → Option (FilePath × ℤ)
  resolve_address index address = elim (next_back address index.address_to_line) [
    | none ↦ none
    | some (_, (file, line)) ↦ elim (find_path file (order index.file_ids)) [
      | none ↦ none
      | some path ↦ some (path, line)
    ]
  ]

  -- `impl DebugIndex for DwarfIndex`
  abbrev pub debug_index : DwarfIndex → DebugIndex
  debug_index index = record {
    get_address = get_address index;
    resolve_address = resolve_address index;
  }
