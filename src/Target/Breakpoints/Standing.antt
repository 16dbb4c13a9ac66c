-- ===== src/Target/Breakpoints/Standing.antt =====
-- Exactly which breakpoints stand after `replace_code_bps`.
use msim_dap.Common.{
  ℕ, ◌≡◌, sym, ap, ◌∙◌, arith, Bool, true, false, not, ◌&&◌, ◌||◌, ◌⊎◌, some, List, [], ◌∷◌, All,
  ◌==◌, nat_eq, int_eq, string_eq, list_eq, Bool-cases, Option-cases, same, eq_self, inl, inr,
}
use msim_dap.Common.Int.{ℤ}
use msim_dap.Common.Map.{lookup, contains, collect}
use msim_dap.Target.{FilePath, Env, MsimTarget}
use msim_dap.Target.Breakpoints.{or_default}
use msim_dap.Target.Breakpoints.Acknowledged.{
  is_armed, bps_of, stands_at, stands_at-found, stands_at-missing, is_gone,
}
use msim_dap.Target.Breakpoints.Rounds.{is_wanted, is_new, IsIndexed}
use msim_dap.Target.Breakpoints.Sets.{
  lines_in, addresses_in, contains-lines_in, collect_into-is_some, collect_into-All, is_gone-true,
  is_gone-intro, is_wanted-true, is_wanted-intro, is_new-wanted, is_new-intro,
}

module _ (env : Env) (source : FilePath) where
  stands_at-true :
      (line : ℤ) (b : ℕ)
      → stands_at env source line b ≡ true
      → env.index.get_address source line ≡ some b
  stands_at-true line b h = elim (Option-cases (env.index.get_address source line)) [
    | inl missing ↦ absurd (ground (arith, h, stands_at-missing env source line b missing))
    | inr (a, at) ↦ ground (arith, h, at, stands_at-found env source line a b at, same a b)
  ]

  -- A line that is stored has its address stored, and a stored address has its line.
  among-address :
      (bps : List (ℤ × ℕ)) (line : ℤ) (b : ℕ)
      → All (IsIndexed env source) bps
      → contains line (lines_in bps) ≡ true
      → env.index.get_address source line ≡ some b
      → contains b (addresses_in bps) ≡ true
  unfolding contains
  among-address [] line b h among at = absurd (ground (arith, among))
  among-address ((l, a) ∷ bps) line b (h, hs) among at = elim (Bool-cases (l == line)) [
    | inl here ↦
        let at' : env.index.get_address source l ≡ some b = rw (same l line here) at in
        ground (arith, h, at', eq_self b)
    | inr other ↦ ground (arith, among-address bps line b hs (ground (arith, among, other)) at)
  ]

  address-among :
      (bps : List (ℤ × ℕ)) (b : ℕ)
      → All (IsIndexed env source) bps
      → contains b (addresses_in bps) ≡ true
      → (line : ℤ) × (contains line (lines_in bps) ≡ true)
        × (env.index.get_address source line ≡ some b)
  unfolding contains
  address-among [] b h among = absurd (ground (arith, among))
  address-among ((l, a) ∷ bps) b (h, hs) among = elim (Bool-cases (a == b)) [
    | inl here ↦ (l, ground (arith, eq_self l), rw (← same a b here) h)
    | inr other ↦
        let (line, in_rest, at) = address-among bps b hs (ground (arith, among, other)) in
        (line, ground (arith, in_rest), at)
  ]

  -- The breakpoints stored for the file are where the index has their lines, and are armed.
  pub record IsConsistent (t : MsimTarget) : Type 0 where
    pub indexed : All (IsIndexed env source) (or_default (bps_of source t))
    pub armed : All (λ (bp : ℤ × ℕ). is_armed bp.1 t ≡ true) (or_default (bps_of source t))

  module _
      (ordered : (m : List (ℤ × ℕ)) (line : ℤ)
        → contains line (lines_in (env.order m)) ≡ contains line (lines_in m))
      (distinct : (line line' : ℤ) (a : ℕ)
        → env.index.get_address source line ≡ some a
        → env.index.get_address source line' ≡ some a
        → line ≡ line')
      (lines : List ℤ) (t : MsimTarget) (consistent : IsConsistent t) where
    abbrev stored : List (ℤ × ℕ)
    stored = or_default (bps_of source t)

    pub old-indexed :
        (line : ℤ) (a : ℕ)
        → lookup line (collect stored) ≡ some a
        → env.index.get_address source line ≡ some a
    unfolding collect lookup
    old-indexed =
        collect_into-All (IsIndexed env source) [] stored (λ line a e. absurd (ground (arith, e)))
          consistent.indexed

    old-armed : (line : ℤ) (a : ℕ) → lookup line (collect stored) ≡ some a → is_armed a t ≡ true
    unfolding collect lookup
    old-armed =
        collect_into-All (λ bp. is_armed bp.1 t ≡ true) [] stored
          (λ line a e. absurd (ground (arith, e))) consistent.armed

    order-keeps :
        (line : ℤ)
        → contains line (lines_in (env.order (collect stored))) ≡ contains line (lines_in stored)
    unfolding collect lookup
    order-keeps line =
        ordered (collect stored) line
        ∙ contains-lines_in line (collect stored)
        ∙ collect_into-is_some line [] stored

    abbrev gone : ℕ → Bool
    gone = is_gone env source lines (env.order (collect stored))

    abbrev wanted : ℕ → Bool
    wanted = is_wanted env source lines

    wanted-kept :
        (b : ℕ)
        → wanted b ≡ true
        → (is_new env source (collect stored) lines b ≡ true)
          ⊎ ((is_armed b t ≡ true) × (gone b ≡ false))
    wanted-kept b h =
        let (line, among, at) = is_wanted-true env source lines b h in
        elim (Option-cases (lookup line (collect stored))) [
          | inl new ↦ inl (is_new-intro env source (collect stored) lines b line among new at)
          | inr (a, known) ↦
              let here = stands_at-true line b at in
              let there = old-indexed line a known in
              let a_b : a ≡ b = ground (arith, here, there) in
              inr (
                rw (← a_b) (old-armed line a known),
                elim (Bool-cases (gone b)) [
                  | inr kept ↦ kept
                  | inl removed ↦
                      let (line', _, dropped, at') =
                        is_gone-true env source lines (env.order (collect stored)) b removed in
                      let e = distinct line line' b here (stands_at-true line' b at') in
                      absurd (ground (arith, ap (λ l. contains l lines) e, among, dropped))
                ],
              )
        ]

    gone-old : (b : ℕ) → gone b ≡ true → contains b (addresses_in stored) ≡ true
    gone-old b h =
        let (line, among, _, at) = is_gone-true env source lines (env.order (collect stored)) b h in
        among-address stored line b consistent.indexed (sym (order-keeps line) ∙ among)
          (stands_at-true line b at)

    old-gone : (b : ℕ) → contains b (addresses_in stored) ≡ true → wanted b ≡ false → gone b ≡ true
    old-gone b h unwanted =
        let (line, among, at) = address-among stored b consistent.indexed h in
        let here : stands_at env source line b ≡ true =
          stands_at-found env source line b b at ∙ eq_self b in
        is_gone-intro env source lines (env.order (collect stored)) b line
          (order-keeps line ∙ among)
          (elim (Bool-cases (contains line lines)) [
            | inr dropped ↦ dropped
            | inl kept ↦
                absurd (ground (arith, is_wanted-intro env source lines b line kept here, unwanted))
          ])
          here

    -- The two loops together.
    pub both_loops :
        (b : ℕ)
        → ((is_armed b t && not (gone b)) || is_new env source (collect stored) lines b)
          ≡ (wanted b || (is_armed b t && not (contains b (addresses_in stored))))
    both_loops b = ground (
      arith,
      wanted-kept b,
      gone-old b,
      old-gone b,
      is_new-wanted env source (collect stored) lines b,
    )
