-- ===== src/Target/Breakpoints/Rounds.antt =====
-- The second loop of `replace_code_bps`, where MSIM acknowledges every request.
use msim_dap.Common.{
  ℕ, ◌≡◌, ◌≢◌, refl, ap, ◌∙◌, arith, Bool, false, ◌||◌, Option, none, some, List, [], ◌∷◌, map,
  nat_eq, int_eq, string_eq, list_eq, Option-cases, inl, inr,
}
use msim_dap.Common.Int.{ℤ}
use msim_dap.Common.Map.{lookup}
use msim_dap.Common.Results.{Result, ok, err, ok_or}
use msim_dap.Target.{FilePath, TargetError, address_not_found, Env, MsimTarget}
use msim_dap.Target.Breakpoints.{Replaced, after_line, replace_line, replace_lines}
use msim_dap.Target.Breakpoints.Acknowledged.{
  Acknowledges, is_armed, bps_of, set_code_bp-IsBpSet, set_code_bp-missing, stands_at,
  stands_at-found, stands_at-missing,
}

module _ (env : Env) (source : FilePath) where
  abbrev outcome_at : ℤ → Option ℕ → Result TargetError (Unit {0})
  outcome_at line none = err (address_not_found source line)
  outcome_at line (some a) = ok tt

  -- The result for a line: whether the index has it.
  abbrev pub outcome : ℤ → Result TargetError (Unit {0})
  outcome line = outcome_at line (env.index.get_address source line)

  abbrev found_at : ℤ → Option ℕ → List (ℤ × ℕ) → List (ℤ × ℕ)
  found_at line none bps = bps
  found_at line (some a) bps = (line, a) ∷ bps

  -- The lines that the index has, with their addresses.
  abbrev pub found : List ℤ → List (ℤ × ℕ)
  found [] = []
  found (line ∷ lines) = found_at line (env.index.get_address source line) (found lines)

  -- Whether one of the lines stands at an address.
  abbrev pub is_wanted : List ℤ → ℕ → Bool
  is_wanted [] b = false
  is_wanted (line ∷ lines) b = stands_at env source line b || is_wanted lines b

  abbrev pub is_new_at : Option ℕ → ℤ → ℕ → Bool
  is_new_at none line b = stands_at env source line b
  is_new_at (some a) line b = false

  -- Whether the second loop sets a breakpoint at an address.
  abbrev pub is_new : List (ℤ × ℕ) → List ℤ → ℕ → Bool
  is_new old [] b = false
  is_new old (line ∷ lines) b = is_new_at (lookup line old) line b || is_new old lines b

  -- A line has the address that the index gives it.
  abbrev pub IsIndexed : ℤ × ℕ → Type 0
  IsIndexed (line, a) = env.index.get_address source line ≡ some a

  -- What the second loop comes to.
  abbrev IsLooped : List (ℤ × ℕ) → List ℤ → MsimTarget → Replaced → Type 0
  IsLooped old lines t (new_by_file, results, t') =
      (new_by_file ≡ found lines)
      × (results ≡ map outcome lines)
      × ((b : ℕ) → is_armed b t' ≡ (is_armed b t || is_new old lines b))
      × ((other : FilePath) → source ≢ other → bps_of other t' ≡ bps_of other t)

  module _ (acks : Acknowledges env) (old : List (ℤ × ℕ))
      (indexed : (line : ℤ) (a : ℕ)
        → lookup line old ≡ some a
        → env.index.get_address source line ≡ some a) where
    -- A round for a line that the index has, and one for a line that it has not.
    abbrev IsRound : ℤ → MsimTarget → Result TargetError ℕ × MsimTarget → Type 0
    IsRound line t (result, t') =
        (result ≡ ok_or (address_not_found source line) (env.index.get_address source line))
        × ((b : ℕ) → is_armed b t' ≡ (is_armed b t || is_new_at (lookup line old) line b))
        × ((other : FilePath) → source ≢ other → bps_of other t' ≡ bps_of other t)

    replace_line-IsRound :
        (line : ℤ) (t : MsimTarget) → IsRound line t (replace_line env source old line t)
    unfolding replace_line
    replace_line-IsRound line t = elim (Option-cases (lookup line old)) [
      | inr (a, known) ↦
          rw (known, replace_line, indexed line a known) (refl, λ b. ground arith, λ other h. refl)
      | inl new ↦ elim (Option-cases (env.index.get_address source line)) [
        | inl missing ↦
            rw (new, replace_line, set_code_bp-missing env acks source line t missing, missing)
              (
                refl,
                λ b. ground (arith, stands_at-missing env source line b missing),
                λ other h. refl,
              )
        | inr (a, at) ↦
            let (result, armed, others) = set_code_bp-IsBpSet env acks source line a t at in
            rw (new, replace_line, at)
              (result, λ b. ground (arith, armed b, stands_at-found env source line a b at), others)
      ]
    ]

    after_line-IsLooped :
        (line : ℤ) (lines : List ℤ) (t t' : MsimTarget) (rest : Replaced)
        (result : Result TargetError ℕ)
        → IsRound line t (result, t')
        → IsLooped old lines t' rest
        → IsLooped old (line ∷ lines) t (after_line line result t' rest)
    after_line-IsLooped line lines t t' rest result (r, armed, others)
          (new, results, armed', others') =
        elim (Option-cases (env.index.get_address source line)) [
          | inl missing ↦
              rw (r, missing, found, outcome)
                (
                  new,
                  ap (λ rs. err (address_not_found source line) ∷ rs) results,
                  λ b. ground (arith, armed b, armed' b),
                  λ other h. others' other h ∙ others other h,
                )
          | inr (a, at) ↦
              rw (r, at, found, outcome)
                (
                  ap (λ bps. (line, a) ∷ bps) new,
                  ap (λ rs. ok tt ∷ rs) results,
                  λ b. ground (arith, armed b, armed' b),
                  λ other h. others' other h ∙ others other h,
                )
        ]

    pub replace_lines-IsLooped :
        (lines : List ℤ) (t : MsimTarget)
        → IsLooped old lines t (replace_lines env source old lines t)
    unfolding replace_lines
    replace_lines-IsLooped [] t = (refl, refl, λ b. ground arith, λ other h. refl)
    replace_lines-IsLooped (line ∷ lines) t =
        let (result, t') = replace_line env source old line t in
        after_line-IsLooped line lines t t' (replace_lines env source old lines t') result
          (replace_line-IsRound line t) (replace_lines-IsLooped lines t')
