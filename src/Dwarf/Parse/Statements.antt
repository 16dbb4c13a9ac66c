-- ===== src/Dwarf/Parse/Statements.antt =====
-- The rows that `parse_lines` inserts: the statements of all line programs, in order.
use msim_dap.Common.{
  fun_ext, Option-cases, ◌≡◌, refl, arith, none, some, List, [], ◌∷◌, ◌++◌, String, Bool-cases, inl,
  inr, if◌then◌else◌, ap,
}
use msim_dap.Common.Results.{Result, Result-cases, ok, err, ◌>>=◌}
use msim_dap.Target.{FilePath}
use msim_dap.Dwarf.Index.{Builder, DwarfIndex, new}
use msim_dap.Dwarf.Index.Lookups.{Row, insert_all}
use msim_dap.Dwarf.Index.Inserted.{index_of}
use msim_dap.Dwarf.Parse.{
  LineRow, UnitRef, row_path, row_line, parse_row, parse_rows, parse_unit, parse_units, parse_lines,
  dir_or_empty,
}

-- Lists of rows one after the other, unless reading one failed.
abbrev join : Result String (List Row) → Result String (List Row) → Result String (List Row)
join (err e) more = err e
join (ok rows) (err e) = err e
join (ok rows) (ok more) = ok (rows ++ more)

-- The statement of a row, if it is one. The path of any row but the end of a sequence is read.
unfoldable pub statement : FilePath → LineRow → Result String (List Row)
statement comp_dir row = if row.end_sequence then ok [] else elim (row_path comp_dir row) [
  | err e ↦ err e
  | ok path ↦ ok (
      if row.is_stmt
      then record { address = row.address; path = path; line = row_line row } ∷ []
      else [])
]

unfoldable pub program_statements :
    FilePath → List (Result String LineRow) → Result String (List Row)
program_statements comp_dir [] = ok []
program_statements comp_dir (err e ∷ rows) = err e
program_statements comp_dir (ok row ∷ rows) =
    join (statement comp_dir row) (program_statements comp_dir rows)

abbrev unit_statements : UnitRef → Result String (List Row)
unit_statements unit = elim unit.line_program [
  | none ↦ ok []
  | some rows ↦ program_statements (dir_or_empty unit.comp_dir) rows
]

unfoldable pub statements : List (Result String UnitRef) → Result String (List Row)
statements [] = ok []
statements (err e ∷ units) = err e
statements (ok unit ∷ units) = join (unit_statements unit) (statements units)

-- Inserting what was read.
abbrev inserted : Result String (List Row) → Builder → Result String Builder
inserted (err e) b = err e
inserted (ok rows) b = ok (insert_all rows b)

abbrev pub indexed : Result String (List Row) → Result String DwarfIndex
indexed (err e) = err e
indexed (ok rows) = ok (index_of rows)

insert_all-append :
    (rows more : List Row) (b : Builder)
    → insert_all (rows ++ more) b ≡ insert_all more (insert_all rows b)
unfolding insert_all
insert_all-append [] more b = refl
insert_all-append (row ∷ rows) more b = insert_all-append rows more _

inserted-join :
    (first rest : Result String (List Row)) (b : Builder)
    → inserted (join first rest) b ≡ (inserted first b >>= λ b'. inserted rest b')
inserted-join (err e) rest b = refl
inserted-join (ok rows) (err e) b = refl
inserted-join (ok rows) (ok more) b = ap ok (insert_all-append rows more b)

parse_row-inserted :
    (comp_dir : FilePath) (row : LineRow) (b : Builder)
    → parse_row comp_dir row b ≡ inserted (statement comp_dir row) b
unfolding parse_row statement insert_all
parse_row-inserted comp_dir row b = elim (Bool-cases row.end_sequence) [
  | inl end ↦ rw (end, parse_row, statement) refl
  | inr more ↦ elim (Result-cases (row_path comp_dir row)) [
    | inl (path, at) ↦ ground (arith, more, at)
    | inr (e, failed) ↦ ground (arith, more, failed)
  ]
]

parse_rows-inserted :
    (comp_dir : FilePath) (rows : List (Result String LineRow)) (b : Builder)
    → parse_rows comp_dir rows b ≡ inserted (program_statements comp_dir rows) b
unfolding parse_rows program_statements insert_all
parse_rows-inserted comp_dir [] b = refl
parse_rows-inserted comp_dir (err e ∷ rows) b = refl
parse_rows-inserted comp_dir (ok row ∷ rows) b =
    rw
      (
        parse_row-inserted comp_dir row b,
        inserted-join (statement comp_dir row) (program_statements comp_dir rows) b,
      )
      (ap (λ k. inserted (statement comp_dir row) b >>= k)
        (fun_ext (λ b'. parse_rows-inserted comp_dir rows b')))

parse_unit-inserted :
    (unit : UnitRef) (b : Builder) → parse_unit unit b ≡ inserted (unit_statements unit) b
unfolding parse_unit insert_all
parse_unit-inserted unit b = elim (Option-cases unit.line_program) [
  | inl nothing ↦ rw (nothing, parse_unit) refl
  | inr (rows, program) ↦
      rw (program, parse_unit) (parse_rows-inserted (dir_or_empty unit.comp_dir) rows b)
]

parse_units-inserted :
    (units : List (Result String UnitRef)) (b : Builder)
    → parse_units units b ≡ inserted (statements units) b
unfolding parse_units statements insert_all
parse_units-inserted [] b = refl
parse_units-inserted (err e ∷ units) b = refl
parse_units-inserted (ok unit ∷ units) b =
    rw (parse_unit-inserted unit b, inserted-join (unit_statements unit) (statements units) b)
      (ap (λ k. inserted (unit_statements unit) b >>= k)
        (fun_ext (λ b'. parse_units-inserted units b')))

-- Parsing gives the index of all statements of all units in order, the ends of sequences left out,
-- and fails with the first error met on the way.
pub parse_lines-indexed :
    (units : List (Result String UnitRef)) → parse_lines units ≡ indexed (statements units)
unfolding parse_lines
parse_lines-indexed units = elim (Result-cases (statements units)) [
  | inl (rows, read) ↦ rw (parse_units-inserted units new, read) refl
  | inr (e, failed) ↦ rw (parse_units-inserted units new, failed) refl
]
