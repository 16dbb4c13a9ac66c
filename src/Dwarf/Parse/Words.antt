-- ===== src/Dwarf/Parse/Words.antt =====
-- src/dwarf/parse.rs and index.rs: an index of rows with 64-bit addresses has 64-bit addresses.
use msim_dap.Common.{
  HasEq, ℕ, ◌≡◌, Bool-cases, inl, inr, Option-cases, List, [], ◌∷◌, String, not, ◌&&◌, ◌==◌, All,
  nat_eq, int_eq, string_eq, list_eq, pair_eq, subst,
}
use msim_dap.Common.Int.{ℤ, IsU64}
use msim_dap.Common.Map.{lookup, insert as map_insert}
use msim_dap.Common.Results.{Result, ok, err, map_err}
use msim_dap.Common.Ensures.{OnOk, Anything, OnOk-Anything, OnOk-bind, OnOk-then, OnOk-if, OnSome}
use msim_dap.Target.{FilePath}
use msim_dap.Target.Sent.{HasWords}
use msim_dap.Dwarf.Index.{
  Builder, DwarfIndex, new, add_id, file_id, note_line, insert, get_address, debug_index,
}
use msim_dap.Dwarf.Parse.{
  LineRow, UnitRef, row_path, row_line, parse_row, parse_rows, parse_unit, parse_units, parse_lines,
  dir_or_empty, ObjectFiles, RunTimeEndian, parse_sections, parse_dwarf,
}

-- Rows, programs and units whose addresses have 64 bits.
abbrev IsWordRow : Result String LineRow → Type 0
IsWordRow = OnOk (λ (row : LineRow). IsU64 row.address)

abbrev IsWordUnit : UnitRef → Type 0
IsWordUnit unit = OnSome (All IsWordRow) unit.line_program

abbrev pub AreWordUnits : List (Result String UnitRef) → Type 0
AreWordUnits = All (OnOk IsWordUnit)

module _ {K : Type 0} ⦃e : HasEq K⦄ where
  -- Maps with such values.
  abbrev HasWordValues : List (K × ℕ) → Type 0
  HasWordValues = All (λ entry. IsU64 entry.1)

  insert-HasWordValues :
      (key : K) (value : ℕ) (m : List (K × ℕ))
      → IsU64 value
      → HasWordValues m
      → HasWordValues (map_insert key value m)
  unfolding map_insert
  insert-HasWordValues key value [] v h = (v, tt)
  insert-HasWordValues key value ((first, old) ∷ m) v (o, h) = elim (Bool-cases (first == key)) [
    | inl here ↦ rw (here, map_insert) (v, h)
    | inr there ↦ rw (there, map_insert) (o, insert-HasWordValues key value m v h)
  ]

  lookup-IsU64 : (key : K) (m : List (K × ℕ)) → HasWordValues m → OnSome IsU64 (lookup key m)
  unfolding lookup
  lookup-IsU64 key [] h = tt
  lookup-IsU64 key ((first, value) ∷ m) (v, h) = elim (Bool-cases (first == key)) [
    | inl here ↦ rw (here, lookup) v
    | inr there ↦ rw (there, lookup) (lookup-IsU64 key m h)
  ]

abbrev IsWordBuilder : Builder → Type 0
IsWordBuilder b = HasWordValues b.line_to_address

file_id-IsWordBuilder :
    (path : FilePath) (b : Builder) → IsWordBuilder b → IsWordBuilder (file_id path b).1
unfolding file_id add_id
file_id-IsWordBuilder path b h = elim (Option-cases (lookup path b.file_ids)) [
  | inl new ↦ rw (new, file_id) h
  | inr (file, known) ↦ rw (known, file_id) h
]

insert-IsWordBuilder :
    (address : ℕ) (path : FilePath) (line : ℤ) (b : Builder)
    → IsU64 address
    → IsWordBuilder b
    → IsWordBuilder (insert address path line b)
unfolding insert note_line
insert-IsWordBuilder address path line b a h =
    insert-HasWordValues _ address _ a (file_id-IsWordBuilder path b h)

parse_row-IsWordBuilder :
    (comp_dir : FilePath) (row : LineRow) (b : Builder)
    → IsU64 row.address
    → IsWordBuilder b
    → OnOk IsWordBuilder (parse_row comp_dir row b)
unfolding parse_row
parse_row-IsWordBuilder comp_dir row b a h = OnOk-if IsWordBuilder row.end_sequence _ _ h (
    OnOk-bind Anything IsWordBuilder (row_path comp_dir row) _ (OnOk-Anything _) (λ path _.
      OnOk-if IsWordBuilder (not row.end_sequence && row.is_stmt) _ _
        (insert-IsWordBuilder row.address path (row_line row) b a h) h))

parse_rows-IsWordBuilder :
    (comp_dir : FilePath) (rows : List (Result String LineRow)) (b : Builder)
    → All IsWordRow rows
    → IsWordBuilder b
    → OnOk IsWordBuilder (parse_rows comp_dir rows b)
unfolding parse_rows
parse_rows-IsWordBuilder comp_dir [] b all h = h
parse_rows-IsWordBuilder comp_dir (err e ∷ rows) b all h = tt
parse_rows-IsWordBuilder comp_dir (ok row ∷ rows) b (a, all) h =
    OnOk-bind IsWordBuilder IsWordBuilder _ _ (parse_row-IsWordBuilder comp_dir row b a h)
      (λ b'. parse_rows-IsWordBuilder comp_dir rows b' all)

parse_unit-IsWordBuilder :
    (unit : UnitRef) (b : Builder)
    → IsWordUnit unit
    → IsWordBuilder b
    → OnOk IsWordBuilder (parse_unit unit b)
unfolding parse_unit
parse_unit-IsWordBuilder unit b u h = elim (Option-cases unit.line_program) [
  | inl nothing ↦ rw (nothing, parse_unit) h
  | inr (rows, program) ↦
      rw (program, parse_unit)
        (parse_rows-IsWordBuilder (dir_or_empty unit.comp_dir) rows b
          (subst (OnSome (All IsWordRow)) program u) h)
]

parse_units-IsWordBuilder :
    (units : List (Result String UnitRef)) (b : Builder)
    → AreWordUnits units
    → IsWordBuilder b
    → OnOk IsWordBuilder (parse_units units b)
unfolding parse_units
parse_units-IsWordBuilder [] b all h = h
parse_units-IsWordBuilder (err e ∷ units) b all h = tt
parse_units-IsWordBuilder (ok unit ∷ units) b (u, all) h =
    OnOk-bind IsWordBuilder IsWordBuilder _ _ (parse_unit-IsWordBuilder unit b u h)
      (λ b'. parse_units-IsWordBuilder units b' all)

-- An index whose addresses have 64 bits.
abbrev IsWordIndex : DwarfIndex → Type 0
IsWordIndex index = HasWordValues index.line_to_address

get_address-IsU64 :
    (index : DwarfIndex) (path : FilePath) (line : ℤ)
    → IsWordIndex index
    → OnSome IsU64 (get_address index path line)
unfolding get_address
get_address-IsU64 index path line h = elim (Option-cases (lookup path index.file_ids)) [
  | inl unknown ↦ rw (unknown, get_address) tt
  | inr (id, known) ↦ rw (known, get_address) (lookup-IsU64 (id, line) index.line_to_address h)
]

parse_lines-IsWordIndex :
    (units : List (Result String UnitRef))
    → AreWordUnits units
    → OnOk IsWordIndex (parse_lines units)
unfolding parse_lines
parse_lines-IsWordIndex units all =
    OnOk-bind IsWordBuilder IsWordIndex _ _ (parse_units-IsWordBuilder units new all tt) (λ b h. h)

map_err-OnOk :
    {E F A : Type 0} (Q : A → Type 0) (f : E → F) (r : Result E A) → OnOk Q r → OnOk Q (map_err f r)
map_err-OnOk Q f (ok a) h = h
map_err-OnOk Q f (err e) h = tt

module _ (files : ObjectFiles)
    (rows : (endian : RunTimeEndian) (sections : files.DwarfSections)
      → AreWordUnits (files.units endian sections)) where
  parse_dwarf-IsWordIndex : (path : FilePath) → OnOk IsWordIndex (parse_dwarf files path)
  unfolding parse_dwarf parse_sections
  parse_dwarf-IsWordIndex path =
      search (OnOk-then, map_err-OnOk, parse_lines-IsWordIndex, rows) depth 9

  -- The index of a file whose rows have 64-bit addresses.
  pub parse_dwarf-HasWords :
      (path : FilePath) (order : List (FilePath × ℕ) → List (FilePath × ℕ)) (index : DwarfIndex)
      → parse_dwarf files path ≡ ok index
      → HasWords (debug_index order index)
  parse_dwarf-HasWords path order index parsed source line a found =
      let all : IsWordIndex index =
        subst (OnOk IsWordIndex) parsed (parse_dwarf-IsWordIndex path) in
      subst (OnSome IsU64) found (get_address-IsU64 index source line all)
