-- ===== src/Dwarf/Index/Inserted.antt =====
-- A `DwarfIndex` built from a list of rows, and what it answers.
use msim_dap.Common.{
  subst, ℕ, ◌≡◌, ◌+◌, ◌^◌, ◌<◌, true, false, ◌&&◌, Option, none, some, List, [], ◌∷◌, leb, arith,
  refl, sym, ap, ◌∙◌, ◌==◌, nat_eq, int_eq, string_eq, list_eq, pair_eq, same, eq_self, differ,
  Bool-cases, Option-cases, inl, inr, length,
}
use msim_dap.Common.Int.{ℤ}
use msim_dap.Common.Map.{lookup, lookup-insert}
use msim_dap.Target.{FilePath}
use msim_dap.Dwarf.Index.{
  Builder, DwarfIndex, LineKey, new, note_line, insert, build, get_address, later_entry, next_back,
  find_path, resolve_address,
}
use msim_dap.Dwarf.Index.Lookups.{
  Row, insert_all, latest_first, latest_address, nearer, nearest, place, holds, holds-lookup,
  find_path-holds, next_back-insert,
}
use msim_dap.Dwarf.Index.Numbered.{
  IsNumbered, Agrees, IsEntryOf, new-IsNumbered, new-Agrees, file_id-IsNumbered, file_id-lookup,
  file_id-Agrees,
}

IsEntryOf-nearer :
    (ids : List (FilePath × ℕ)) (at : ℕ) (row : Row) (file : ℕ) (entry : Option (ℕ × LineKey))
    (older : Option Row)
    → lookup row.path ids ≡ some file
    → IsEntryOf ids entry older
    → IsEntryOf ids (later_entry at (row.address, (file, row.line)) entry) (nearer at row older)
IsEntryOf-nearer ids at row file none none found h = elim (Bool-cases (leb row.address at)) [
  | inl below ↦ rw below (refl, refl, found)
  | inr above ↦ rw above tt
]
IsEntryOf-nearer ids at row file none (some old) found h = absurd (ground (arith, h))
IsEntryOf-nearer ids at row file (some (a, (i, l))) none found h = absurd (ground (arith, h))
IsEntryOf-nearer ids at row file (some (a, (i, l))) (some old) found
      (same_address, same_line, known) =
    elim (Bool-cases (leb row.address at && leb a row.address)) [
      | inl nearer_row ↦ rw (sym same_address, nearer_row) (refl, refl, found)
      | inr farther ↦ rw (sym same_address, farther) (refl, same_line, known)
    ]

module _ (row : Row) (file : ℕ) (b : Builder) (found : lookup row.path b.file_ids ≡ some file) where
  note_line-IsNumbered :
      (n : ℕ) → IsNumbered n b → IsNumbered n (note_line row.address (file, row.line) b)
  unfolding note_line
  note_line-IsNumbered n nb = record {
    few = nb.few;
    given = nb.given;
    distinct = nb.distinct;
    held = nb.held;
    unused = λ other line h. ground (
      arith,
      lookup-insert (file, row.line) (other, line) row.address b.line_to_address,
      nb.given row.path file found,
      h,
      nb.unused other line h,
    );
  }

  not_shared :
      {n : ℕ} (path : FilePath) (id : ℕ)
      → IsNumbered n b
      → (row.path == path) ≡ false
      → lookup path b.file_ids ≡ some id
      → (file == id) ≡ false
  not_shared path id nb other known = differ file id (λ shared.
      let one =
        nb.distinct row.path path id (subst (λ i. lookup row.path b.file_ids ≡ some i) shared found)
          known in
      absurd (cc (other, one, eq_self path)))

  note_line-lines :
      (n : ℕ) (seen : List Row)
      → IsNumbered n b
      → Agrees b seen
      → (path : FilePath) (line : ℤ)
      → get_address (build (note_line row.address (file, row.line) b)) path line
        ≡ latest_address path line (row ∷ seen)
  unfolding note_line latest_address get_address
  note_line-lines n seen nb agrees path line =
      let before = agrees.lines path line in
      elim (Bool-cases (row.path == path)) [
        | inl this ↦
            let known =
              subst (λ p. lookup p b.file_ids ≡ some file) (same row.path path this) found in
            ground (
              arith,
              this,
              known,
              before,
              lookup-insert (file, row.line) (file, line) row.address b.line_to_address,
            )
        | inr other ↦ elim (Option-cases (lookup path b.file_ids)) [
          | inl unknown ↦ ground (arith, other, unknown, before)
          | inr (id, known) ↦ ground (
            arith,
            other,
            known,
            before,
            lookup-insert (file, row.line) (id, line) row.address b.line_to_address,
            not_shared path id nb other known,
          )
        ]
      ]

  note_line-Agrees :
      (n : ℕ) (seen : List Row)
      → IsNumbered n b
      → Agrees b seen
      → Agrees (note_line row.address (file, row.line) b) (row ∷ seen)
  unfolding note_line latest_address nearest get_address
  note_line-Agrees n seen nb agrees = record {
    lines = note_line-lines n seen nb agrees;
    places = λ at. rw (next_back-insert at row.address (file, row.line) b.address_to_line) (
        IsEntryOf-nearer b.file_ids at row file (next_back at b.address_to_line) (nearest at seen)
          found (agrees.places at));
  }

insert_keeps :
    (n : ℕ) (seen : List Row) (row : Row) (b : Builder)
    → n + 1 < 2 ^ 32
    → IsNumbered n b
    → Agrees b seen
    → IsNumbered (n + 1) (insert row.address row.path row.line b)
      × Agrees (insert row.address row.path row.line b) (row ∷ seen)
unfolding insert
insert_keeps n seen row b room nb agrees =
    let found = file_id-lookup n row.path b room nb in
    let nb' = file_id-IsNumbered n row.path b room nb in
    let agrees' = file_id-Agrees n row.path b room nb seen agrees in
    (
      note_line-IsNumbered row _ _ found (n + 1) nb',
      note_line-Agrees row _ _ found (n + 1) seen nb' agrees',
    )

insert_all_keeps :
    (n : ℕ) (rows seen : List Row) (b : Builder)
    → n + length rows < 2 ^ 32
    → IsNumbered n b
    → Agrees b seen
    → (m : ℕ) × IsNumbered m (insert_all rows b)
      × Agrees (insert_all rows b) (latest_first rows seen)
unfolding insert_all latest_first
insert_all_keeps n [] seen b room nb agrees = (n, nb, agrees)
insert_all_keeps n (row ∷ rows) seen b room nb agrees =
    let (nb', agrees') = insert_keeps n seen row b (omega arith) nb agrees in
    insert_all_keeps (n + 1) rows (row ∷ seen) _ (omega arith) nb' agrees'

-- The index of rows.
abbrev pub index_of : List Row → DwarfIndex
index_of rows = build (insert_all rows new)

module _ (order : List (FilePath × ℕ) → List (FilePath × ℕ)) (ids : List (FilePath × ℕ)) where
  unfoldable place_of : Option (ℕ × LineKey) → Option (FilePath × ℤ)
  place_of none = none
  place_of (some (_, (file, line))) = elim (find_path file (order ids)) [
    | none ↦ none
    | some path ↦ some (path, line)
  ]

module _ (order : List (FilePath × ℕ) → List (FilePath × ℕ)) (ids : List (FilePath × ℕ))
    (permuted : (path : FilePath) (file : ℕ) → holds path file (order ids) ≡ holds path file ids)
    (held : (path : FilePath) (file : ℕ) → holds path file ids ≡ true → lookup path ids ≡ some file)
    (distinct : (p q : FilePath) (file : ℕ)
      → lookup p ids ≡ some file
      → lookup q ids ≡ some file
      → p ≡ q) where
  find_path-lookup :
      (path : FilePath) (file : ℕ)
      → lookup path ids ≡ some file
      → find_path file (order ids) ≡ some path
  find_path-lookup path file known =
      let (other, found, holds_other) =
        find_path-holds file path (order ids)
          (permuted path file ∙ holds-lookup path file ids known) in
      found
      ∙ ap (λ p. some p)
          (distinct other path file (held other file (sym (permuted other file) ∙ holds_other))
            known)

  place_of-IsEntryOf :
      (entry : Option (ℕ × LineKey)) (row : Option Row)
      → IsEntryOf ids entry row
      → place_of order ids entry ≡ place row
  unfolding place_of
  place_of-IsEntryOf none none h = refl
  place_of-IsEntryOf none (some row) h = absurd (ground (arith, h))
  place_of-IsEntryOf (some (a, (file, line))) none h = absurd (ground (arith, h))
  place_of-IsEntryOf (some (a, (file, line))) (some row) (_, same_line, known) =
      ground (arith, same_line, find_path-lookup row.path file known)

resolve_address-place_of :
    (order : List (FilePath × ℕ) → List (FilePath × ℕ)) (index : DwarfIndex) (address : ℕ)
    → resolve_address order index address
      ≡ place_of order index.file_ids (next_back address index.address_to_line)
unfolding resolve_address place_of
resolve_address-place_of order index address =
    elim (Option-cases (next_back address index.address_to_line)) [
      | inl nothing ↦ rw (nothing, resolve_address) refl
      | inr ((key, (file, line)), at) ↦ rw (at, resolve_address) refl
    ]

-- After any rows, fewer than 2^32, were inserted, and in whatever order the map of file ids is iterated:
-- a line has the address of its latest row, and an address the place of the row with the greatest
-- address up to it, the latest of those.
pub index_lookups :
    (order : List (FilePath × ℕ) → List (FilePath × ℕ)) (rows : List Row)
    → length rows < 2 ^ 32
    → ((ids : List (FilePath × ℕ)) (path : FilePath) (file : ℕ)
        → holds path file (order ids) ≡ holds path file ids)
    → (path : FilePath) (line : ℤ) (address : ℕ)
    → (get_address (index_of rows) path line ≡ latest_address path line (latest_first rows []))
      × (resolve_address order (index_of rows) address
          ≡ place (nearest address (latest_first rows [])))
index_lookups order rows few permuted path line address =
    let (_, nb, agrees) =
      insert_all_keeps 0 rows [] new (omega (arith, few)) new-IsNumbered new-Agrees in
    let index = index_of rows in
    let entry = next_back address index.address_to_line in
    (
      agrees.lines path line,
      resolve_address-place_of order index address
          ∙ place_of-IsEntryOf order index.file_ids (permuted _) nb.held nb.distinct entry
              (nearest address (latest_first rows [])) (agrees.places address),
    )
