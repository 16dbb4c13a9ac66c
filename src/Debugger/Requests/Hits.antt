-- ===== src/Debugger/Requests/Hits.antt =====
-- `set_breakpoints` over the target of src/target/msim_target.rs, and the breakpoints hit after it.
use msim_dap.Common.{
  ℕ, ◌≡◌, refl, subst, ◌∙◌, arith, true, false, Option, none, some, List, [], ◌∷◌, map, ◌==◌,
  nat_eq, int_eq, string_eq, list_eq, pair_eq, Bool-cases, Option-cases, same, eq_self, inl, inr,
}
use msim_dap.Common.Int.{ℤ, pos}
use msim_dap.Common.Map.{lookup, contains, lookup-insert}
use msim_dap.Common.Results.{ok}
use msim_dap.Target.{FilePath, Env}
use msim_dap.Target.Breakpoints.Rounds.{outcome}
use msim_dap.Debugger.{BpRegistry}
use msim_dap.Debugger.Registries.{get_id}
use msim_dap.Debugger.Registries.Ids.{insert_old}
use msim_dap.Debugger.Commands.{SourceBreakpoint}
use msim_dap.Debugger.Protocol
use msim_dap.Debugger.Protocol.{Debugger, Breakpoint}
use msim_dap.Debugger.BpInfos.{bp_id, bp_info, bp_infos, bp_message}

-- An id that was given stays, and the id that is given is kept.
get_id_kept :
    (path : FilePath) (line : ℤ) (r : BpRegistry)
    → (lookup (path, line) (get_id path line r).1.ids ≡ some (get_id path line r).0)
      × ((p : FilePath × ℤ) (n : ℕ)
          → lookup p r.ids ≡ some n
          → lookup p (get_id path line r).1.ids ≡ some n)
unfolding get_id
get_id_kept path line r = elim (Option-cases (lookup (path, line) r.ids)) [
  | inr (id, known) ↦ rw (known, get_id) (known, λ p n h. h)
  | inl unknown ↦
      rw (unknown, get_id)
        (
          lookup-insert (path, line) (path, line) r.next_id r.ids
              ∙ rw (eq_self {A = FilePath × ℤ} (path, line)) refl,
          insert_old (path, line) r unknown,
        )
]

module _ (env : Env) (path : FilePath) where
  -- What the client is told of a breakpoint: whether the index has its line, and then its id.
  abbrev pub IsInfo : BpRegistry → Option ℕ → SourceBreakpoint → Breakpoint → Type 0
  IsInfo registry none bp info =
      (info.verified ≡ false)
      × (info.id ≡ none)
      × (info.message ≡ some (Protocol.address_not_found path bp.line))
      × (info.line ≡ bp.line)
  IsInfo registry (some a) bp info =
      (info.verified ≡ true)
      × ((n : ℕ) × (info.id ≡ some (pos n)) × (lookup (path, bp.line) registry.ids ≡ some n))
      × (info.message ≡ none)
      × (info.line ≡ bp.line)

  -- The client is told of each breakpoint, in their order.
  abbrev pub IsListed : BpRegistry → List SourceBreakpoint → List Breakpoint → Type 0
  IsListed registry [] infos = infos ≡ []
  IsListed registry (bp ∷ bps) infos =
      (info : Breakpoint) × (rest : List Breakpoint) × (infos ≡ info ∷ rest)
      × IsInfo registry (env.index.get_address path bp.line) bp info
      × IsListed registry bps rest

  abbrev Kept : BpRegistry → BpRegistry → Type 0
  Kept r r' = (p : FilePath × ℤ) (n : ℕ) → lookup p r.ids ≡ some n → lookup p r'.ids ≡ some n

  IsInfo-Kept :
      (r r' : BpRegistry) (place : Option ℕ) (bp : SourceBreakpoint) (info : Breakpoint)
      → Kept r r'
      → IsInfo r place bp info
      → IsInfo r' place bp info
  IsInfo-Kept r r' none bp info k h = h
  IsInfo-Kept r r' (some a) bp info k (v, (n, i, l), m, at) =
      (v, (n, i, k (path, bp.line) n l), m, at)

  module _ {S : Type 0} where
    bp_info-IsInfo :
        (bp : SourceBreakpoint) (d : Debugger S)
        → (info : Breakpoint) × (r : BpRegistry) × (bp_info path bp (outcome env path bp.line) d
            ≡ (ok info, record d { bp_registry = r }))
          × IsInfo r (env.index.get_address path bp.line) bp info
          × Kept d.bp_registry r
    unfolding bp_info bp_id bp_message
    bp_info-IsInfo bp d = elim (Option-cases (env.index.get_address path bp.line)) [
      | inl missing ↦ (
        record {
          id = none;
          verified = false;
          message = some (Protocol.address_not_found path bp.line);
          line = bp.line;
          column = bp.column;
        },
        d.bp_registry,
        rw (outcome, missing) refl,
        rw missing (refl, refl, refl, refl),
        λ p n h. h,
      )
      | inr (a, found) ↦
          let (id, registry) = get_id path bp.line d.bp_registry in
          let (known, kept) = get_id_kept path bp.line d.bp_registry in
          (
            record {
              id = some (pos id);
              verified = true;
              message = none;
              line = bp.line;
              column = bp.column;
            },
            registry,
            rw (outcome, found) refl,
            rw found (refl, (id, refl, known), refl, refl),
            kept,
          )
    ]

    pub bp_infos-IsListed :
        (bps : List SourceBreakpoint) (d : Debugger S)
        → (infos : List Breakpoint) × (r : BpRegistry) × (bp_infos path bps
              (map (outcome env path) (map (λ (bp : SourceBreakpoint). bp.line) bps))
              d
            ≡ (ok infos, record d { bp_registry = r }))
          × IsListed r bps infos
          × Kept d.bp_registry r
    unfolding bp_infos
    bp_infos-IsListed [] d = ([], d.bp_registry, refl, refl, λ p n h. h)
    bp_infos-IsListed (bp ∷ bps) d =
        let (info, r, first, told, kept) = bp_info-IsInfo bp d in
        let (rest, r', later, listed, kept') =
          bp_infos-IsListed bps (record d { bp_registry = r }) in
        (
          info ∷ rest,
          r',
          rw (first, later) refl,
          (
            info,
            rest,
            refl,
            IsInfo-Kept r r' (env.index.get_address path bp.line) bp info kept' told,
            listed,
          ),
          λ p n h. kept' p n (kept p n h),
        )

  -- A line that was asked for and is in the index has an id.
  pub listed_id :
      (r : BpRegistry) (bps : List SourceBreakpoint) (infos : List Breakpoint) (line : ℤ) (a : ℕ)
      → IsListed r bps infos
      → contains line (map (λ (bp : SourceBreakpoint). bp.line) bps) ≡ true
      → env.index.get_address path line ≡ some a
      → (n : ℕ) × (lookup (path, line) r.ids ≡ some n)
  unfolding contains
  listed_id r [] infos line a listed among at = absurd (ground (arith, among))
  listed_id r (bp ∷ bps) infos line a (info, rest, e, told, listed) among at =
      elim (Bool-cases (bp.line == line)) [
        | inl here ↦
            let at_bp : env.index.get_address path bp.line ≡ some a =
              rw (same bp.line line here) at in
            let (_, (n, _, known), _, _) = subst (λ o. IsInfo r o bp info) at_bp told in
            (n, rw (← same bp.line line here) known)
        | inr other ↦ listed_id r bps rest line a listed (ground (arith, among, other)) at
      ]
