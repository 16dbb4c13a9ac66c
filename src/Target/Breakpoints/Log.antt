-- ===== src/Target/Breakpoints/Log.antt =====
-- The addresses that a target remembers, against the requests that it has sent.
use msim_dap.Common.{
  ℕ, ◌≡◌, Bool, true, false, not, ◌||◌, ◌&&◌, List, [], ◌∷◌, arith, if◌then◌else◌, ◌==◌, nat_eq,
  int_eq, string_eq, list_eq, Bool-cases, same, Option-cases, inl, inr,
}
use msim_dap.Common.Int.{ℤ}
use msim_dap.Common.Map.{contains, contains-set_insert, contains-set_remove, lookup}
use msim_dap.Common.Results.{Result, ok, err}
use msim_dap.Common.Exec.{Keeps-bind}
use msim_dap.Msim.Frame.{ResponseStatus, set_code_breakpoint, remove_code_breakpoint}
use msim_dap.Msim.Messages.{MsimError, RawResponse, to_result}
use msim_dap.Target.{FilePath, TargetError, Exchange, Env, MsimTarget, new, send_raw, send, request}
use msim_dap.Target.Breakpoints.{
  Replaced, after_line, add_bp, disarm, disarm_known, drop_address, drop_entry, store_file,
  set_code_bp, remove_code_bp, remove_missing, replace_line, replace_lines, replace_code_bps,
  is_session_lost,
}

-- Whether a reply acknowledges the request.
abbrev pub acknowledged : Result MsimError RawResponse → Bool
acknowledged (err e) = false
acknowledged (ok r) = elim r.status [ ResponseStatus.ok ↦ true | _ ↦ false ]

-- Whether MSIM has a code breakpoint at an address, by what it has acknowledged.
unfoldable pub is_set : ℕ → List Exchange → Bool
is_set a [] = false
is_set a ((set_code_breakpoint b, reply) ∷ log) = (acknowledged reply && (b == a)) || is_set a log
is_set a ((remove_code_breakpoint b, reply) ∷ log) =
    if acknowledged reply && (b == a) then false else is_set a log
is_set a (_ ∷ log) = is_set a log

-- Whether it was asked to remove the breakpoint at an address, has not acknowledged that, and has
-- acknowledged no request to set or remove it since.
unfoldable pub is_abandoned : ℕ → List Exchange → Bool
is_abandoned a [] = false
is_abandoned a ((set_code_breakpoint b, reply) ∷ log) =
    if acknowledged reply && (b == a) then false else is_abandoned a log
is_abandoned a ((remove_code_breakpoint b, reply) ∷ log) =
    if b == a then not (acknowledged reply) else is_abandoned a log
is_abandoned a (_ ∷ log) = is_abandoned a log

-- Whether a target remembers an address: it is set, and not abandoned.
abbrev pub is_kept : ℕ → List Exchange → Bool
is_kept a log = is_set a log && not (is_abandoned a log)

-- The remembered addresses are those that the exchanges leave set and not abandoned.
abbrev pub IsLogged : MsimTarget → Type 0
IsLogged t = (a : ℕ) → contains a t.bp_store.bps_addresses ≡ is_kept a t.exchanges

pub after_line-keeps :
    (P : MsimTarget → Type 0) (line : ℤ) (result : Result TargetError ℕ) (t : MsimTarget)
    (rest : Replaced)
    → P t
    → P rest.2
    → P (after_line line result t rest).2
after_line-keeps P line (ok addr) t rest h k = k
after_line-keeps P line (err e) t rest h k = elim (Bool-cases (is_session_lost e)) [
  | inl lost ↦ rw lost h
  | inr other ↦ rw other k
]

module _ (env : Env) (source : FilePath) where
  pub set_code_bp-IsLogged :
      (line : ℤ) (t : MsimTarget) → IsLogged t → IsLogged (set_code_bp env source line t).1
  unfolding set_code_bp add_bp request send send_raw to_result is_set is_abandoned
  set_code_bp-IsLogged line t h a = elim (Option-cases (env.index.get_address source line)) [
    | inl missing ↦ rw missing (h a)
    | inr (b, found) ↦
        rw found
          (ground (arith, h a, h b, contains-set_insert b a t.bp_store.bps_addresses, same b a))
  ]

  drop_entry-IsLogged : (b : ℕ) (t : MsimTarget) → IsLogged t → IsLogged (drop_entry source b t)
  unfolding drop_entry
  drop_entry-IsLogged b t h a = ground (arith, h a)

  disarm_known-IsLogged :
      (b : ℕ) (t : MsimTarget) → IsLogged t → IsLogged (disarm_known env source b t).1
  unfolding drop_address request send send_raw to_result is_set is_abandoned
  disarm_known-IsLogged b t h a =
      ground (arith, h a, contains-set_remove b a t.bp_store.bps_addresses)

  disarm-IsLogged : (b : ℕ) (t : MsimTarget) → IsLogged t → IsLogged (disarm env source b t).1
  disarm-IsLogged b t h = elim (Bool-cases (contains b t.bp_store.bps_addresses)) [
    | inl known ↦ rw known (disarm_known-IsLogged b t h)
    | inr new ↦ rw new h
  ]

  pub remove_code_bp-IsLogged :
      (line : ℤ) (t : MsimTarget) → IsLogged t → IsLogged (remove_code_bp env source line t).1
  unfolding remove_code_bp
  remove_code_bp-IsLogged line t h = elim (Option-cases (env.index.get_address source line)) [
    | inl missing ↦ rw missing h
    | inr (b, found) ↦ rw found (
        (Keeps-bind {P = IsLogged} (disarm env source b) _ (record { at = disarm-IsLogged b })
            (λ _. record { at = drop_entry-IsLogged b })).at
          t h)
  ]

  remove_missing-IsLogged :
      (lines : List ℤ) (old : List (ℤ × ℕ)) (t : MsimTarget)
      → IsLogged t
      → IsLogged (remove_missing env source lines old t)
  unfolding remove_missing
  remove_missing-IsLogged lines [] t h = h
  remove_missing-IsLogged lines ((line, b) ∷ old) t h = elim (Bool-cases (contains line lines)) [
    | inl kept ↦ rw (kept, remove_missing) (remove_missing-IsLogged lines old t h)
    | inr gone ↦
        rw (gone, remove_missing)
          (remove_missing-IsLogged lines old _ (remove_code_bp-IsLogged line t h))
  ]

  replace_line-IsLogged :
      (old : List (ℤ × ℕ)) (line : ℤ) (t : MsimTarget)
      → IsLogged t
      → IsLogged (replace_line env source old line t).1
  unfolding replace_line
  replace_line-IsLogged old line t h = elim (Option-cases (lookup line old)) [
    | inl new ↦ rw (new, replace_line) (set_code_bp-IsLogged line t h)
    | inr (addr, known) ↦ rw (known, replace_line) h
  ]

  replace_lines-IsLogged :
      (old : List (ℤ × ℕ)) (lines : List ℤ) (t : MsimTarget)
      → IsLogged t
      → IsLogged (replace_lines env source old lines t).2
  unfolding replace_lines
  replace_lines-IsLogged old [] t h = h
  replace_lines-IsLogged old (line ∷ lines) t h =
      let (result, t') = replace_line env source old line t in
      let h' = replace_line-IsLogged old line t h in
      after_line-keeps IsLogged line result t' _ h' (replace_lines-IsLogged old lines t' h')

  store_file-IsLogged :
      (bps : List (ℤ × ℕ)) (t : MsimTarget) → IsLogged t → IsLogged (store_file source bps t)
  unfolding store_file
  store_file-IsLogged [] t h = h
  store_file-IsLogged (bp ∷ bps) t h = h

  pub replace_code_bps-IsLogged :
      (lines : List ℤ) (t : MsimTarget)
      → IsLogged t
      → IsLogged (replace_code_bps env source lines t).1
  unfolding replace_code_bps
  replace_code_bps-IsLogged lines t h =
      store_file-IsLogged _ _
        (replace_lines-IsLogged _ lines _ (remove_missing-IsLogged lines _ _ h))
