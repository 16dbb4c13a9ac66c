-- ===== src/Target/Sent/Breakpoints.antt =====
-- src/target/msim_target.rs: breakpoints are requested at addresses of 64 bits.
use msim_dap.Common.{
  ℕ, List, [], ◌∷◌, Bool-cases, inl, inr, Option-cases, nat_eq, int_eq, string_eq, list_eq,
}
use msim_dap.Common.Int.{ℤ, IsU64}
use msim_dap.Common.Map.{lookup, contains}
use msim_dap.Common.Ensures.{
  OnOk, Anything, Ensures, Ensures-pure, Ensures-bind, Ensures-lift, ensures_rules,
}
use msim_dap.Msim.Frame.{set_code_breakpoint, remove_code_breakpoint}
use msim_dap.Target.{FilePath, Exchange, Env, MsimTarget}
use msim_dap.Target.Breakpoints.{
  add_bp, drop_address, drop_entry, drop_file, store_file, find_address, set_new, set_code_bp,
  disarm, remove_code_bp, remove_missing, replace_line, replace_lines, replace_code_bps,
}
use msim_dap.Target.Breakpoints.Log.{after_line-keeps}
use msim_dap.Target.Sent.{Holds, Grows, AnswersWords, HasWords, request-Holds}

module _ (P : List Exchange → Type 0) where
  drop_entry-Holds :
      (source : FilePath) (a : ℕ) (t : MsimTarget) → P t.exchanges → Holds P (drop_entry source a t)
  unfolding drop_entry
  drop_entry-Holds source a t w = elim (Option-cases (lookup source t.bp_store.bps_per_file)) [
    | inl new ↦ rw (new, drop_entry) w
    | inr (bps, known) ↦ rw (known, drop_entry) w
  ]

  store_file-Holds :
      (source : FilePath) (bps : List (ℤ × ℕ)) (t : MsimTarget)
      → P t.exchanges
      → Holds P (store_file source bps t)
  unfolding store_file
  store_file-Holds source [] t w = w
  store_file-Holds source (bp ∷ bps) t w = w

module _ (env : Env) (replies : AnswersWords env.answer) (P : List Exchange → Type 0)
    (grows : Grows env P) (index : HasWords env.index) (source : FilePath) where
  find_address-IsU64 : (line : ℤ) → OnOk IsU64 (find_address env source line)
  find_address-IsU64 line = elim (Option-cases (env.index.get_address source line)) [
    | inl missing ↦ rw missing tt
    | inr (a, found) ↦ rw found (index source line a found)
  ]

  set_new-Holds :
      (line : ℤ) (a : ℕ) → IsU64 a → Ensures (Holds P) Anything (set_new env source line a)
  unfolding add_bp
  set_new-Holds line a h =
      let first = request-Holds env replies P grows (set_code_breakpoint a) h in
      search ensures_rules

  pub set_code_bp-Holds : (line : ℤ) → Ensures (Holds P) Anything (set_code_bp env source line)
  unfolding set_code_bp
  set_code_bp-Holds line =
      Ensures-bind IsU64 Anything _ _ (Ensures-lift IsU64 _ (find_address-IsU64 line))
        (λ a h. let new = set_new-Holds line a h in search ensures_rules)

  disarm-Holds : (a : ℕ) → IsU64 a → Ensures (Holds P) Anything (disarm env source a)
  unfolding drop_address
  disarm-Holds a h =
      let first = request-Holds env replies P grows (remove_code_breakpoint a) h in
      search ensures_rules

  pub remove_code_bp-Holds :
      (line : ℤ) → Ensures (Holds P) Anything (remove_code_bp env source line)
  unfolding remove_code_bp
  remove_code_bp-Holds line =
      Ensures-bind IsU64 Anything _ _ (Ensures-lift IsU64 _ (find_address-IsU64 line))
        (λ a h. let first = disarm-Holds a h in search (ensures_rules, drop_entry-Holds P source a))

  remove_missing-Holds :
      (lines : List ℤ) (old : List (ℤ × ℕ)) (t : MsimTarget)
      → P t.exchanges
      → Holds P (remove_missing env source lines old t)
  unfolding remove_missing
  remove_missing-Holds lines [] t w = w
  remove_missing-Holds lines ((line, a) ∷ old) t w = elim (Bool-cases (contains line lines)) [
    | inl kept ↦ rw (kept, remove_missing) (remove_missing-Holds lines old t w)
    | inr gone ↦
        rw (gone, remove_missing)
          (remove_missing-Holds lines old _ ((remove_code_bp-Holds line).at t w).0)
  ]

  replace_line-Holds :
      (old : List (ℤ × ℕ)) (line : ℤ)
      → Ensures (Holds P) Anything (replace_line env source old line)
  unfolding replace_line
  replace_line-Holds old line = elim (Option-cases (lookup line old)) [
    | inl new ↦ rw (new, replace_line) (set_code_bp-Holds line)
    | inr (a, known) ↦ rw (known, replace_line) (Ensures-pure Anything a tt)
  ]

  replace_lines-Holds :
      (old : List (ℤ × ℕ)) (lines : List ℤ) (t : MsimTarget)
      → P t.exchanges
      → Holds P (replace_lines env source old lines t).2
  unfolding replace_lines
  replace_lines-Holds old [] t w = w
  replace_lines-Holds old (line ∷ lines) t w =
      let (result, t') = replace_line env source old line t in
      let w' = ((replace_line-Holds old line).at t w).0 in
      after_line-keeps (Holds P) line result t' _ w' (replace_lines-Holds old lines t' w')

  pub replace_code_bps-Holds :
      (lines : List ℤ) (t : MsimTarget)
      → P t.exchanges
      → Holds P (replace_code_bps env source lines t).1
  unfolding replace_code_bps drop_file
  replace_code_bps-Holds lines t w =
      store_file-Holds P source _ _
        (replace_lines-Holds _ lines _ (remove_missing-Holds lines _ _ w))
