-- ===== src/Debugger/Registries/Ids.antt =====
-- The ids of threads, variable scopes and breakpoints.
use msim_dap.Common.{
  ◌⊎◌, ◌↔◌, ℕ, ◌+◌, ◌*◌, ◌^◌, ◌<◌, ◌≤◌, ◌%◌, ◌/◌, ◌≡◌, refl, arith, none, some, List, [], ◌∷◌,
  length, ◌==◌, nat_eq, int_eq, string_eq, list_eq, pair_eq, inl, inr, Option-cases, Bool-cases,
  same, eq_self, sym, ◌∙◌, ap,
}
use msim_dap.Common.Int.{ℤ, pos, ◌-i64◌, ◌+i64◌, ◌*i64◌, div_i64, rem_i64}
use msim_dap.Common.Map.{lookup, insert, lookup-insert}
use msim_dap.Common.Results.{ok}
use msim_dap.Target.{FilePath}
use msim_dap.Debugger.{BpRegistry, general_registers, csr_registers}
use msim_dap.Debugger.Registries.{
  new, get_id, cpu_to_thread_id, thread_to_cpu_id, thread_to_frame_id, reg_scope_var_ref,
  csr_scope_var_ref, resolve_var_ref,
}

cpu_to_thread_id-small : (cpu : ℕ) → cpu + 1 < 2 ^ 63 → cpu_to_thread_id cpu ≡ pos (cpu + 1)
unfolding cpu_to_thread_id
cpu_to_thread_id-small cpu small = ground arith

thread_to_cpu_id-small : (cpu : ℕ) → cpu + 1 < 2 ^ 63 → thread_to_cpu_id (pos (cpu + 1)) ≡ ok cpu
unfolding thread_to_cpu_id ◌-i64◌
thread_to_cpu_id-small cpu small = ground arith

var_refs-small :
    (cpu : ℕ)
    → cpu * 10 + 12 < 2 ^ 63
    → (reg_scope_var_ref (pos (cpu + 1)) ≡ pos (cpu * 10 + 11))
      × (csr_scope_var_ref (pos (cpu + 1)) ≡ pos (cpu * 10 + 12))
unfolding reg_scope_var_ref csr_scope_var_ref ◌*i64◌ ◌+i64◌
var_refs-small cpu small = (ground arith, ground arith)

resolve-small :
    (cpu : ℕ)
    → cpu * 10 + 12 < 2 ^ 63
    → (resolve_var_ref (pos (cpu * 10 + 11)) ≡ ok (general_registers cpu))
      × (resolve_var_ref (pos (cpu * 10 + 12)) ≡ ok (csr_registers cpu))
unfolding resolve_var_ref div_i64 rem_i64
resolve-small cpu small =
    let cpu_id = thread_to_cpu_id-small cpu (omega arith) in
    let reg = ◌≡◌ {A = ℕ} ((cpu * 10 + 11) / 10) (cpu + 1) in
    let csr = ◌≡◌ {A = ℕ} ((cpu * 10 + 12) / 10) (cpu + 1) in
    let r : reg = omega arith in
    let c : csr = omega arith in (rw (r, cpu_id) (ground arith), rw (c, cpu_id) (ground arith))

-- For a CPU below 2^63 / 10: its thread id leads back to it, and the variable references of its two
-- scopes to these scopes.
thread_ids :
    (cpu : ℕ)
    → cpu * 10 + 12 < 2 ^ 63
    → (thread_to_cpu_id (cpu_to_thread_id cpu) ≡ ok cpu)
      × (resolve_var_ref (reg_scope_var_ref (thread_to_frame_id (cpu_to_thread_id cpu)))
          ≡ ok (general_registers cpu))
      × (resolve_var_ref (csr_scope_var_ref (thread_to_frame_id (cpu_to_thread_id cpu)))
          ≡ ok (csr_registers cpu))
thread_ids cpu small =
    let (reg, csr) = var_refs-small cpu small in
    let (general, control) = resolve-small cpu small in
    rw (cpu_to_thread_id-small cpu (omega arith))
      (thread_to_cpu_id-small cpu (omega arith), rw reg general, rw csr control)

-- At most `n` ids were given, every one is below the next, and no two places share one.
pub record IsNumbered (n : ℕ) (r : BpRegistry) : Type 0 where
  pub few : r.next_id ≤ n
  pub below : (place : FilePath × ℤ) (id : ℕ) → lookup place r.ids ≡ some id → id < r.next_id
  pub distinct :
      (p q : FilePath × ℤ) (id : ℕ) → lookup p r.ids ≡ some id → lookup q r.ids ≡ some id → p ≡ q

pub new-IsNumbered : IsNumbered 0 new
unfolding lookup
new-IsNumbered = record {
  few = omega arith;
  below = λ place id h. absurd (ground (arith, h));
  distinct = λ p q id h k. absurd (ground (arith, h));
}

module _ (place : FilePath × ℤ) (r : BpRegistry) (unknown : lookup place r.ids ≡ none) where
  -- An id after a new one is that or an old one.
  insert-cases :
      (p : FilePath × ℤ) (id : ℕ)
      → lookup p (insert place r.next_id r.ids) ≡ some id
      → ((place ≡ p) × (id ≡ r.next_id)) ⊎ (lookup p r.ids ≡ some id)
  insert-cases p id h = elim (Bool-cases (place == p)) [
    | inl this ↦
        inl (same place p this, ground (arith, h, lookup-insert place p r.next_id r.ids, this))
    | inr other ↦ inr (ground (arith, h, lookup-insert place p r.next_id r.ids, other))
  ]

  pub insert_old :
      (p : FilePath × ℤ) (id : ℕ)
      → lookup p r.ids ≡ some id
      → lookup p (insert place r.next_id r.ids) ≡ some id
  insert_old p id h = elim (Bool-cases (place == p)) [
    | inl this ↦ absurd (cc (unknown, same place p this, h))
    | inr other ↦ ground (arith, h, lookup-insert place p r.next_id r.ids, other)
  ]

  insert-distinct :
      (n : ℕ) (p q : FilePath × ℤ) (id : ℕ)
      → IsNumbered n r
      → lookup p (insert place r.next_id r.ids) ≡ some id
      → lookup q (insert place r.next_id r.ids) ≡ some id
      → p ≡ q
  insert-distinct n p q id numbered h k = elim (insert-cases p id h) [
    | inl (this, new_id) ↦ elim (insert-cases q id k) [
      | inl (that, _) ↦ sym this ∙ that
      | inr old ↦ absurd (omega (arith, new_id, numbered.below q id old))
    ]
    | inr old ↦ elim (insert-cases q id k) [
      | inl (_, new_id) ↦ absurd (omega (arith, new_id, numbered.below p id old))
      | inr older ↦ numbered.distinct p q id old older
    ]
  ]

  insert-below :
      (n : ℕ) (p : FilePath × ℤ) (id : ℕ)
      → n + 1 < 2 ^ 32
      → IsNumbered n r
      → lookup p (insert place r.next_id r.ids) ≡ some id
      → id < (r.next_id + 1) % 2 ^ 32
  insert-below n p id room numbered h = elim (insert-cases p id h) [
    | inl (_, new_id) ↦ omega (arith, new_id, numbered.few)
    | inr old ↦ omega (arith, numbered.below p id old, numbered.few)
  ]

module _ (path : FilePath) (line : ℤ) (r : BpRegistry) where
  get_id-IsNumbered :
      (n : ℕ) → n + 1 < 2 ^ 32 → IsNumbered n r → IsNumbered (n + 1) (get_id path line r).1
  unfolding get_id
  get_id-IsNumbered n room numbered = elim (Option-cases (lookup (path, line) r.ids)) [
    | inr (id, known) ↦
        rw (known, get_id)
          (record {
            few = omega (arith, numbered.few);
            below = numbered.below;
            distinct = numbered.distinct;
          })
    | inl unknown ↦
        rw (unknown, get_id)
          (record {
            few = omega (arith, numbered.few);
            below = λ p id. insert-below (path, line) r unknown n p id room numbered;
            distinct = λ p q id. insert-distinct (path, line) r unknown n p q id numbered;
          })
  ]

  get_id-lookup : lookup (path, line) (get_id path line r).1.ids ≡ some (get_id path line r).0
  unfolding get_id
  get_id-lookup = elim (Option-cases (lookup (path, line) r.ids)) [
    | inr (id, known) ↦ rw (known, get_id) known
    | inl unknown ↦
        rw (unknown, get_id)
          (lookup-insert (path, line) (path, line) r.next_id r.ids
            ∙ rw (eq_self {A = FilePath × ℤ} (path, line)) refl)
  ]

  get_id_old :
      (p : FilePath × ℤ) (id : ℕ)
      → lookup p r.ids ≡ some id
      → lookup p (get_id path line r).1.ids ≡ some id
  unfolding get_id
  get_id_old p id h = elim (Option-cases (lookup (path, line) r.ids)) [
    | inr (other, known) ↦ rw (known, get_id) h
    | inl unknown ↦ rw (unknown, get_id) (insert_old (path, line) r unknown p id h)
  ]

-- The registry after ids were asked for.
unfoldable pub after : List (FilePath × ℤ) → BpRegistry → BpRegistry
after [] r = r
after ((path, line) ∷ places) r = after places (get_id path line r).1

pub after-IsNumbered :
    (n : ℕ) (places : List (FilePath × ℤ)) (r : BpRegistry)
    → n + length places < 2 ^ 32
    → IsNumbered n r
    → (m : ℕ) × (m ≡ n + length places) × IsNumbered m (after places r)
unfolding after
after-IsNumbered n [] r room numbered = (n, omega arith, numbered)
after-IsNumbered n ((path, line) ∷ places) r room numbered =
    let (m, total, last) =
      after-IsNumbered (n + 1) places (get_id path line r).1 (omega arith)
        (get_id-IsNumbered path line r n (omega arith) numbered) in
    (m, omega (arith, total), last)

pub after_old :
    (places : List (FilePath × ℤ)) (r : BpRegistry) (p : FilePath × ℤ) (id : ℕ)
    → lookup p r.ids ≡ some id
    → lookup p (after places r).ids ≡ some id
unfolding after
after_old [] r p id h = h
after_old ((path, line) ∷ places) r p id h =
    after_old places (get_id path line r).1 p id (get_id_old path line r p id h)

pub some_injective : {a b : ℕ} → some a ≡ some b → a ≡ b
some_injective h = cc

-- An id below the next, against the id of a place.
same_id :
    (n id : ℕ) (p : FilePath × ℤ) (path : FilePath) (line : ℤ) (r : BpRegistry)
    → IsNumbered n r
    → lookup p r.ids ≡ some id
    → (id ≡ (get_id path line r).0) ↔ (p ≡ (path, line))
unfolding get_id
same_id n id p path line r numbered h = elim (Option-cases (lookup (path, line) r.ids)) [
  | inr (other, known) ↦
      rw (known, get_id)
        (
          λ same_ids.
              numbered.distinct p (path, line) id h (known ∙ ap (λ i. some i) (sym same_ids)),
          λ same_place. some_injective (sym h ∙ ap (λ q. lookup q r.ids) same_place ∙ known),
        )
  | inl unknown ↦
      rw (unknown, get_id)
        (
          λ same_ids. absurd (omega (arith, same_ids, numbered.below p id h)),
          λ same_place. absurd (cc (unknown, same_place, h)),
        )
]

-- Whatever ids were asked for before and in between, fewer than 2^32 - 1 in all: two places have the
-- same id exactly if they are the same place.
bp_ids :
    (before between : List (FilePath × ℤ)) (path path' : FilePath) (line line' : ℤ)
    → length before + length between + 1 < 2 ^ 32
    → ((get_id path line (after before new)).0
        ≡ (get_id path' line' (after between (get_id path line (after before new)).1)).0)
      ↔ ◌≡◌ {A = FilePath × ℤ} (path, line) (path', line')
bp_ids before between path path' line line' room =
    let (m, total, first) = after-IsNumbered 0 before new (omega arith) new-IsNumbered in
    let second = get_id-IsNumbered path line (after before new) m (omega (arith, total)) first in
    let (k, _, third) =
      after-IsNumbered (m + 1) between (get_id path line (after before new)).1
        (omega (arith, total)) second in
    same_id k _ (path, line) path' line' _ third
      (after_old between _ (path, line) _ (get_id-lookup path line (after before new)))
