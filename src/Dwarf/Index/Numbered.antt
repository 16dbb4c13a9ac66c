-- ===== src/Dwarf/Index/Numbered.antt =====
-- File ids and lookups of a `DwarfIndexBuilder`, kept right by every insertion.
use msim_dap.Common.{
  ℕ, ◌≡◌, ◌+◌, ◌^◌, ◌<◌, ◌≤◌, ◌%◌, true, false, Option, none, some, List, [], arith, refl, sym, ◌∙◌,
  if◌then◌else◌, ◌==◌, nat_eq, int_eq, string_eq, list_eq, pair_eq, same, eq_self, Bool-cases,
  Option-cases, ◌⊎◌, inl, inr,
}
use msim_dap.Common.Int.{ℤ}
use msim_dap.Common.Map.{lookup, lookup-insert}
use msim_dap.Target.{FilePath}
use msim_dap.Dwarf.Index.{Builder, LineKey, new, add_id, file_id, build, get_address, next_back}
use msim_dap.Dwarf.Index.Lookups.{Row, latest_address, nearest, holds, holds-insert}

-- The ids: at most `n` were given, no two paths share one, and none has a line before it is given.
pub record IsNumbered (n : ℕ) (b : Builder) : Type 0 where
  pub few : b.current_id ≤ n
  pub given :
      (path : FilePath) (file : ℕ) → lookup path b.file_ids ≡ some file → file ≤ b.current_id
  pub distinct :
      (p q : FilePath) (file : ℕ)
      → lookup p b.file_ids ≡ some file
      → lookup q b.file_ids ≡ some file
      → p ≡ q
  pub held :
      (path : FilePath) (file : ℕ)
      → holds path file b.file_ids ≡ true
      → lookup path b.file_ids ≡ some file
  pub unused :
      (file : ℕ) (line : ℤ) → b.current_id < file → lookup (file, line) b.line_to_address ≡ none

-- The same entry, on either side.
abbrev pub IsEntryOf : List (FilePath × ℕ) → Option (ℕ × LineKey) → Option Row → Type 0
IsEntryOf ids none none = Unit
IsEntryOf ids none (some row) = true ≡ false
IsEntryOf ids (some entry) none = true ≡ false
IsEntryOf ids (some (address, (file, line))) (some row) =
    (address ≡ row.address) × (line ≡ row.line) × (lookup row.path ids ≡ some file)

-- Both lookups agree with the rows inserted, the latest first.
pub record Agrees (b : Builder) (seen : List Row) : Type 0 where
  pub lines :
      (path : FilePath) (line : ℤ) → get_address (build b) path line ≡ latest_address path line seen
  pub places :
      (address : ℕ)
      → IsEntryOf b.file_ids (next_back address b.address_to_line) (nearest address seen)

pub new-IsNumbered : IsNumbered 0 new
unfolding lookup holds
new-IsNumbered = record {
  few = omega arith;
  given = λ path file h. absurd (ground arith);
  distinct = λ p q file h k. absurd (ground arith);
  held = λ path file h. absurd (ground arith);
  unused = λ file line h. refl;
}

pub new-Agrees : Agrees new []
unfolding lookup get_address next_back latest_address nearest
new-Agrees = record { lines = λ path line. refl; places = λ address. tt }

IsEntryOf-grows :
    (ids more : List (FilePath × ℕ)) (entry : Option (ℕ × LineKey)) (row : Option Row)
    → ((path : FilePath) (file : ℕ) → lookup path ids ≡ some file → lookup path more ≡ some file)
    → IsEntryOf ids entry row
    → IsEntryOf more entry row
IsEntryOf-grows ids more none none grows h = h
IsEntryOf-grows ids more none (some row) grows h = h
IsEntryOf-grows ids more (some entry) none grows h = h
IsEntryOf-grows ids more (some (address, (file, line))) (some row) grows (a, l, p) =
    (a, l, grows row.path file p)

module _ (n : ℕ) (path : FilePath) (b : Builder) (room : n + 1 < 2 ^ 32) (nb : IsNumbered n b) where
  -- The id of a path that has none is the next number.
  current : (b.current_id + 1) % 2 ^ 32 ≡ b.current_id + 1
  current = omega (arith, nb.few, room)

  module _ (none_yet : lookup path b.file_ids ≡ none) where
    lookup-add_id :
        (p : FilePath)
        → lookup p (add_id path b).file_ids
          ≡ (if path == p then some (b.current_id + 1) else lookup p b.file_ids)
    unfolding add_id
    lookup-add_id p = rw current (lookup-insert path p (b.current_id + 1) b.file_ids)

    lookup-add_id_old :
        (p : FilePath) (file : ℕ)
        → lookup p b.file_ids ≡ some file
        → lookup p (add_id path b).file_ids ≡ some file
    lookup-add_id_old p file h = elim (Bool-cases (path == p)) [
      | inl this ↦ absurd (cc (none_yet, same path p this, h))
      | inr other ↦ ground (arith, lookup-add_id p, other, h)
    ]

    -- An id after that is the new one or an old one.
    lookup-add_id_cases :
        (p : FilePath) (file : ℕ)
        → lookup p (add_id path b).file_ids ≡ some file
        → ((path ≡ p) × (file ≡ b.current_id + 1)) ⊎ (lookup p b.file_ids ≡ some file)
    lookup-add_id_cases p file h = elim (Bool-cases (path == p)) [
      | inl this ↦ inl (same path p this, ground (arith, h, lookup-add_id p, this))
      | inr other ↦ inr (ground (arith, h, lookup-add_id p, other))
    ]

    few' : (add_id path b).current_id ≤ n + 1
    unfolding add_id
    few' = omega (arith, nb.few, room)

    given' :
        (p : FilePath) (file : ℕ)
        → lookup p (add_id path b).file_ids ≡ some file
        → file ≤ (add_id path b).current_id
    unfolding add_id
    given' p file h = elim (lookup-add_id_cases p file h) [
      | inl (_, new_id) ↦ omega (arith, new_id, current)
      | inr old ↦ omega (arith, nb.given p file old, current)
    ]

    distinct' :
        (p q : FilePath) (file : ℕ)
        → lookup p (add_id path b).file_ids ≡ some file
        → lookup q (add_id path b).file_ids ≡ some file
        → p ≡ q
    distinct' p q file h k = elim (lookup-add_id_cases p file h) [
      | inl (this, new_id) ↦ elim (lookup-add_id_cases q file k) [
        | inl (that, _) ↦ sym this ∙ that
        | inr old ↦ absurd (omega (arith, new_id, nb.given q file old))
      ]
      | inr old ↦ elim (lookup-add_id_cases q file k) [
        | inl (_, new_id) ↦ absurd (omega (arith, new_id, nb.given p file old))
        | inr older ↦ nb.distinct p q file old older
      ]
    ]

    none_at : (p : FilePath) → (path == p) ≡ true → lookup p b.file_ids ≡ none
    none_at p this = rw (sym (same path p this)) none_yet

    not_held : (p : FilePath) (file : ℕ) → (path == p) ≡ true → holds p file b.file_ids ≡ false
    not_held p file this = elim (Bool-cases (holds p file b.file_ids)) [
      | inl old ↦ absurd (cc (nb.held p file old, none_at p this))
      | inr absent ↦ absent
    ]

    held' :
        (p : FilePath) (file : ℕ)
        → holds p file (add_id path b).file_ids ≡ true
        → lookup p (add_id path b).file_ids ≡ some file
    unfolding add_id
    held' p file h =
        let entry = holds-insert path p ((b.current_id + 1) % 2 ^ 32) file b.file_ids none_yet in
        let found = lookup-insert path p ((b.current_id + 1) % 2 ^ 32) b.file_ids in
        elim (Bool-cases (path == p)) [
          | inl this ↦ ground (arith, h, entry, found, this, not_held p file this)
          | inr other ↦ ground (arith, h, entry, found, other, nb.held p file)
        ]

    unused' :
        (file : ℕ) (line : ℤ)
        → (add_id path b).current_id < file
        → lookup (file, line) (add_id path b).line_to_address ≡ none
    unfolding add_id
    unused' file line h = nb.unused file line (omega (arith, h, current))

    add_id-IsNumbered : IsNumbered (n + 1) (add_id path b)
    add_id-IsNumbered = record {
      few = few';
      given = given';
      distinct = distinct';
      held = held';
      unused = unused';
    }

    lines' :
        (seen : List Row) (agrees : Agrees b seen) (p : FilePath) (line : ℤ)
        → get_address (build (add_id path b)) p line ≡ latest_address p line seen
    unfolding get_address add_id
    lines' seen agrees p line = elim (Bool-cases (path == p)) [
      | inl this ↦ ground (
        arith,
        lookup-add_id p,
        this,
        none_at p this,
        agrees.lines p line,
        nb.unused (b.current_id + 1) line (omega arith),
      )
      | inr other ↦ ground (arith, lookup-add_id p, other, agrees.lines p line)
    ]

    add_id-Agrees : (seen : List Row) → Agrees b seen → Agrees (add_id path b) seen
    unfolding get_address add_id
    add_id-Agrees seen agrees = record {
      lines = lines' seen agrees;
      places = λ address.
          IsEntryOf-grows b.file_ids _ (next_back address b.address_to_line) (nearest address seen)
            lookup-add_id_old (agrees.places address);
    }

  pub file_id-IsNumbered : IsNumbered (n + 1) (file_id path b).1
  unfolding file_id
  file_id-IsNumbered = elim (Option-cases (lookup path b.file_ids)) [
    | inr (file, known) ↦
        rw (known, file_id)
          (record {
            few = ground (arith, nb.few);
            given = nb.given;
            distinct = nb.distinct;
            held = nb.held;
            unused = nb.unused;
          })
    | inl none_yet ↦ rw (none_yet, file_id) (add_id-IsNumbered none_yet)
  ]

  pub file_id-lookup : lookup path (file_id path b).1.file_ids ≡ some (file_id path b).0
  unfolding file_id
  file_id-lookup = elim (Option-cases (lookup path b.file_ids)) [
    | inr (file, known) ↦ rw (known, file_id) known
    | inl none_yet ↦
        rw (none_yet, file_id) (ground (arith, eq_self path, lookup-add_id none_yet path))
  ]

  pub file_id-Agrees : (seen : List Row) → Agrees b seen → Agrees (file_id path b).1 seen
  unfolding file_id
  file_id-Agrees seen agrees = elim (Option-cases (lookup path b.file_ids)) [
    | inr (file, known) ↦ rw (known, file_id) agrees
    | inl none_yet ↦ rw (none_yet, file_id) (add_id-Agrees none_yet seen agrees)
  ]
