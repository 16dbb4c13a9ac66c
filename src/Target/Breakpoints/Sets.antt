-- ===== src/Target/Breakpoints/Sets.antt =====
-- The sets of lines and addresses that `replace_code_bps` goes by.
use msim_dap.Common.{
  ℕ, ◌≡◌, refl, ap₂, subst, arith, Bool, true, false, not, ◌&&◌, ◌||◌, Option, none, some, List, [],
  ◌∷◌, map, All, ◌==◌, nat_eq, int_eq, string_eq, list_eq, Bool-cases, Option-cases, same, eq_self,
  inl, inr,
}
use msim_dap.Common.Int.{ℤ}
use msim_dap.Common.Map.{lookup, insert, contains, collect_into, lookup-insert}
use msim_dap.Target.{FilePath, Env}
use msim_dap.Target.Breakpoints.Acknowledged.{stands_at, is_gone}
use msim_dap.Target.Breakpoints.Rounds.{is_wanted, is_new}

abbrev pub lines_in : List (ℤ × ℕ) → List ℤ
lines_in = map (λ bp. bp.0)

abbrev pub addresses_in : List (ℤ × ℕ) → List ℕ
addresses_in = map (λ bp. bp.1)

abbrev pub is_some : Option ℕ → Bool
is_some none = false
is_some (some a) = true

-- A line has an entry in a map if it is among the lines.
pub contains-lines_in :
    (line : ℤ) (bps : List (ℤ × ℕ)) → contains line (lines_in bps) ≡ is_some (lookup line bps)
unfolding contains lookup
contains-lines_in line [] = refl
contains-lines_in line ((l, a) ∷ bps) = ground (arith, contains-lines_in line bps)

pub collect_into-is_some :
    (line : ℤ) (m bps : List (ℤ × ℕ))
    → is_some (lookup line (collect_into m bps))
      ≡ (is_some (lookup line m) || contains line (lines_in bps))
unfolding collect_into contains
collect_into-is_some line m [] = ground arith
collect_into-is_some line m ((l, a) ∷ bps) =
    ground (arith, collect_into-is_some line (insert l a m) bps, lookup-insert l line a m)

insert-All :
    (P : ℤ × ℕ → Type 0) (l : ℤ) (b : ℕ) (m : List (ℤ × ℕ))
    → P (l, b)
    → ((line : ℤ) (a : ℕ) → lookup line m ≡ some a → P (line, a))
    → (line : ℤ) (a : ℕ) → lookup line (insert l b m) ≡ some a
    → P (line, a)
insert-All P l b m h hm line a e = elim (Bool-cases (l == line)) [
  | inl here ↦
      subst P
        (ap₂ (λ x y. (x, y)) (same l line here) (ground (arith, e, lookup-insert l line b m, here)))
        h
  | inr other ↦ hm line a (ground (arith, e, lookup-insert l line b m, other))
]

-- What holds of the pairs holds of the map that they are collected into.
pub collect_into-All :
    (P : ℤ × ℕ → Type 0) (m bps : List (ℤ × ℕ))
    → ((line : ℤ) (a : ℕ) → lookup line m ≡ some a → P (line, a))
    → All P bps
    → (line : ℤ) (a : ℕ) → lookup line (collect_into m bps) ≡ some a
    → P (line, a)
unfolding collect_into
collect_into-All P m [] hm hs line a e = hm line a e
collect_into-All P m ((l, b) ∷ bps) hm (h, hs) line a e =
    collect_into-All P (insert l b m) bps (insert-All P l b m h hm) hs line a e

module _ (env : Env) (source : FilePath) where
  pub is_gone-true :
      (lines : List ℤ) (bps : List (ℤ × ℕ)) (b : ℕ)
      → is_gone env source lines bps b ≡ true
      → (line : ℤ) × (contains line (lines_in bps) ≡ true)
        × (contains line lines ≡ false)
        × (stands_at env source line b ≡ true)
  unfolding contains
  is_gone-true lines [] b h = absurd (ground (arith, h))
  is_gone-true lines ((l, a) ∷ bps) b h =
      elim (Bool-cases (not (contains l lines) && stands_at env source l b)) [
        | inl here ↦ (l, ground (arith, eq_self l), ground (arith, here), ground (arith, here))
        | inr later ↦
            let (line, among, dropped, at) = is_gone-true lines bps b (ground (arith, h, later)) in
            (line, ground (arith, among), dropped, at)
      ]

  pub is_gone-intro :
      (lines : List ℤ) (bps : List (ℤ × ℕ)) (b : ℕ) (line : ℤ)
      → contains line (lines_in bps) ≡ true
      → contains line lines ≡ false
      → stands_at env source line b ≡ true
      → is_gone env source lines bps b ≡ true
  unfolding contains
  is_gone-intro lines [] b line among dropped at = absurd (ground (arith, among))
  is_gone-intro lines ((l, a) ∷ bps) b line among dropped at = elim (Bool-cases (l == line)) [
    | inl here ↦ rw (same l line here) (ground (arith, dropped, at))
    | inr other ↦
        ground (arith, is_gone-intro lines bps b line (ground (arith, among, other)) dropped at)
  ]

  pub is_wanted-true :
      (lines : List ℤ) (b : ℕ)
      → is_wanted env source lines b ≡ true
      → (line : ℤ) × (contains line lines ≡ true) × (stands_at env source line b ≡ true)
  unfolding contains
  is_wanted-true [] b h = absurd (ground (arith, h))
  is_wanted-true (l ∷ lines) b h = elim (Bool-cases (stands_at env source l b)) [
    | inl here ↦ (l, ground (arith, eq_self l), here)
    | inr later ↦
        let (line, among, at) = is_wanted-true lines b (ground (arith, h, later)) in
        (line, ground (arith, among), at)
  ]

  pub is_wanted-intro :
      (lines : List ℤ) (b : ℕ) (line : ℤ)
      → contains line lines ≡ true
      → stands_at env source line b ≡ true
      → is_wanted env source lines b ≡ true
  unfolding contains
  is_wanted-intro [] b line among at = absurd (ground (arith, among))
  is_wanted-intro (l ∷ lines) b line among at = elim (Bool-cases (l == line)) [
    | inl here ↦ rw (same l line here) (ground (arith, at))
    | inr other ↦ ground (arith, is_wanted-intro lines b line (ground (arith, among, other)) at)
  ]

  -- The second loop sets what is wanted of the lines that had no breakpoint.
  pub is_new-wanted :
      (old : List (ℤ × ℕ)) (lines : List ℤ) (b : ℕ)
      → is_new env source old lines b ≡ true
      → is_wanted env source lines b ≡ true
  is_new-wanted old [] b h = h
  is_new-wanted old (l ∷ lines) b h = elim (Option-cases (lookup l old)) [
    | inl none_there ↦ ground (arith, h, none_there, is_new-wanted old lines b)
    | inr (a, there) ↦ ground (arith, h, there, is_new-wanted old lines b)
  ]

  pub is_new-intro :
      (old : List (ℤ × ℕ)) (lines : List ℤ) (b : ℕ) (line : ℤ)
      → contains line lines ≡ true
      → lookup line old ≡ none
      → stands_at env source line b ≡ true
      → is_new env source old lines b ≡ true
  unfolding contains
  is_new-intro old [] b line among new at = absurd (ground (arith, among))
  is_new-intro old (l ∷ lines) b line among new at = elim (Bool-cases (l == line)) [
    | inl here ↦ rw (same l line here, new) (ground (arith, at))
    | inr other ↦
        ground (arith, is_new-intro old lines b line (ground (arith, among, other)) new at)
  ]
