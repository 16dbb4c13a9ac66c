-- ===== src/Dwarf/Parse.antt =====
-- src/dwarf/parse.rs: `parse_dwarf` and `parse_lines` over what object and gimli read, the units of a
-- file and the rows of their line programs. Reading may fail, with an error that is kept as its text.
pub mod Statements
pub mod Words
use msim_dap.Common.{
  ℕ, ◌≡◌, Bool, true, false, not, ◌&&◌, Option, none, some, List, [], ◌∷◌, ◌++◌, String,
  if◌then◌else◌, ◌==◌, nat_eq, string_eq,
}
use msim_dap.Common.Int.{ℤ, cast_signed}
use msim_dap.Common.Results.{Result, ok, err, map_err, ◌>>=◌}
use msim_dap.Net.{IoFault}
use msim_dap.Target.{FilePath}
use msim_dap.Dwarf.Index.{Builder, DwarfIndex, new, insert, build}

-- `gimli::FileEntry`, with `unit.attr_string` of its directory and its name, as paths.
pub record FileEntry : Type 0 where
  pub directory_index : ℕ
  pub directory : Option (Result String FilePath)
  pub path_name : Result String FilePath

-- `gimli::LineRow`, with `row.file(header)`.
pub record LineRow : Type 0 where
  pub address : ℕ
  pub file : Option FileEntry
  pub line : Option ℕ
  pub end_sequence : Bool
  pub is_stmt : Bool

-- A unit: its compilation directory, and what `next_row` gives until it ends.
pub record UnitRef : Type 0 where
  pub comp_dir : Option FilePath
  pub line_program : Option (List (Result String LineRow))

-- `PathBuf::push` on components: an absolute path replaces the one before, and a leading `.` goes.
unfoldable pub push : FilePath → FilePath → FilePath
push path [] = path
push [] other = other
push (p ∷ path) (q ∷ other) =
    if q == "/"
    then q ∷ other
    else if q == "."
    then (p ∷ path) ++ other
    else (p ∷ path) ++ (q ∷ other)

abbrev dir_or_empty : Option FilePath → FilePath
dir_or_empty none = []
dir_or_empty (some dir) = dir

-- `if file.directory_index() != 0 && let Some(dir) = file.directory(header) { path.push(…?) }`
unfoldable pub push_directory : FilePath → FileEntry → Result String FilePath
push_directory path file = if file.directory_index == 0 then ok path else elim file.directory [
  | none ↦ ok path
  | some (err e) ↦ err e
  | some (ok dir) ↦ ok (push path dir)
]

-- The path of a row.
unfoldable pub row_path : FilePath → LineRow → Result String FilePath
row_path comp_dir row = elim row.file [
  | none ↦ ok []
  | some file ↦ do path ← push_directory comp_dir file; name ← file.path_name; ok (push path name)
]

-- `row.line().map_or(0, NonZero::get).cast_signed()`
abbrev pub row_line : LineRow → ℤ
row_line row = elim row.line [ none ↦ cast_signed 0 | some line ↦ cast_signed line ]

-- One round of the loop over the rows.
unfoldable pub parse_row : FilePath → LineRow → Builder → Result String Builder
parse_row comp_dir row b = if row.end_sequence then ok b else do
  path ← row_path comp_dir row
  if not row.end_sequence && row.is_stmt
      then ok (insert row.address path (row_line row) b)
      else ok b

unfoldable pub parse_rows :
    FilePath → List (Result String LineRow) → Builder → Result String Builder
parse_rows comp_dir [] b = ok b
parse_rows comp_dir (err e ∷ rows) b = err e
parse_rows comp_dir (ok row ∷ rows) b = do
  b' ← parse_row comp_dir row b
  parse_rows comp_dir rows b'

-- One round of the loop over the units.
unfoldable pub parse_unit : UnitRef → Builder → Result String Builder
parse_unit unit b = elim unit.line_program [
  | none ↦ ok b
  | some rows ↦ parse_rows (dir_or_empty unit.comp_dir) rows b
]

unfoldable pub parse_units : List (Result String UnitRef) → Builder → Result String Builder
parse_units [] b = ok b
parse_units (err e ∷ units) b = err e
parse_units (ok unit ∷ units) b = do b' ← parse_unit unit b; parse_units units b'

-- `parse_lines`, and the `build` of `parse_dwarf`
unfoldable pub parse_lines : List (Result String UnitRef) → Result String DwarfIndex
parse_lines units = do b ← parse_units units new; ok (build b)

-- `DwarfError` of src/dwarf/mod.rs
pub data DwarfError : Type 0 where
  parse object io : String → DwarfError

-- `gimli::RunTimeEndian`
pub data RunTimeEndian : Type 0 where
  little big : RunTimeEndian

-- What the operating system, object and gimli make of a file: its bytes; the object file in them, its
-- byte order and its sections, uncompressed, by name; the DWARF sections, loaded by a function that
-- gives the bytes of one; and their units.
pub record ObjectFiles : Type 1 where
  pub File : Type 0
  pub DwarfSections : Type 0
  pub read : FilePath → Result IoFault (List ℕ)
  pub parse_file : List ℕ → Result String File
  pub is_little_endian : File → Bool
  pub section_by_name : File → String → Option (Result String (List ℕ))
  pub load : (String → Result String (List ℕ)) → Result String DwarfSections
  pub units : RunTimeEndian → DwarfSections → List (Result String UnitRef)

module _ (files : ObjectFiles) where
  -- The closure `load_section` of `parse_lines`: a section that is not there is empty.
  unfoldable pub load_section : files.File → String → Result String (List ℕ)
  load_section object_file name = elim (files.section_by_name object_file name) [
    | some section ↦ section
    | none ↦ ok []
  ]

  abbrev endian_of : files.File → RunTimeEndian
  endian_of object_file = if files.is_little_endian object_file then little else big

  -- `parse_lines` from the object file on, and `build`
  unfoldable pub parse_sections : files.File → Result String DwarfIndex
  parse_sections object_file = do
    sections ← files.load (load_section object_file)
    parse_lines (files.units (endian_of object_file) sections)

  -- `parse_dwarf`
  unfoldable pub parse_dwarf : FilePath → Result DwarfError DwarfIndex
  parse_dwarf path = do
    file ← map_err (λ (fault : IoFault). io fault.text) (files.read path)
    object_file ← map_err DwarfError.object (files.parse_file file)
    map_err DwarfError.parse (parse_sections object_file)
