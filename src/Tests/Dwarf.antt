-- ===== src/Tests/Dwarf.antt =====
-- The index of src/dwarf over a small line program.
use msim_dap.Common.{ℕ, ◌≡◌, refl, true, false, none, some, List, [], ◌∷◌, arith, String}
use msim_dap.Common.Int.{pos}
use msim_dap.Common.Results.{Result, ok}
use msim_dap.Target.{FilePath}
use msim_dap.Dwarf.Index.{get_address, resolve_address}
use msim_dap.Dwarf.Index.Lookups.{Row, latest_address, latest_first, nearest, place}
use msim_dap.Dwarf.Index.Inserted.{index_of, index_lookups}
use msim_dap.Dwarf.Parse.{FileEntry, LineRow, UnitRef, parse_lines}
use msim_dap.Dwarf.Parse.Statements.{indexed, statements, parse_lines-indexed}

abbrev lib_c : FilePath
lib_c = "/" ∷ "kernel" ∷ "lib.c" ∷ []

abbrev rows : List Row
rows =
    record { address = 0x100; path = lib_c; line = pos 3 }
    ∷ record { address = 0x108; path = lib_c; line = pos 4 }
    ∷ record { address = 0x104; path = lib_c; line = pos 3 }
    ∷ []

-- Line 3 has the address of its last row, and a byte after the last address is in line 4.
index_lookups_example :
    (get_address (index_of rows) lib_c (pos 3)
      ≡ latest_address lib_c (pos 3) (latest_first rows []))
    × (resolve_address (λ ids. ids) (index_of rows) 0x109
        ≡ place (nearest 0x109 (latest_first rows [])))
index_lookups_example =
    index_lookups (λ ids. ids) rows (omega arith) (λ ids path file. refl) lib_c (pos 3) 0x109

two_rows :
    (latest_address lib_c (pos 3) (latest_first rows []) ≡ some 0x104)
    × (place (nearest 0x109 (latest_first rows [])) ≡ some (lib_c, pos 4))
unfolding latest_address latest_first nearest
two_rows = (refl, refl)

abbrev lib_entry : FileEntry
lib_entry = record { directory_index = 0; directory = none; path_name = ok ("lib.c" ∷ []) }

abbrev row_at : ℕ → LineRow
row_at address = record {
  address = address;
  file = some lib_entry;
  line = some 3;
  end_sequence = false;
  is_stmt = true;
}

abbrev units : List (Result String UnitRef)
units =
    ok (record {
      comp_dir = some ("/" ∷ "kernel" ∷ []);
      line_program = some (ok (row_at 0x100) ∷ ok (row_at 0x104) ∷ []);
    })
    ∷ []

parse_lines-indexed_example : parse_lines units ≡ indexed (statements units)
parse_lines-indexed_example = parse_lines-indexed units
