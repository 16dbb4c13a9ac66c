-- ===== src/Target/Breakpoints.antt =====
-- src/target/msim_target.rs, the code breakpoints of `MsimTarget`.
pub mod Log
pub mod Outcomes
pub mod Acknowledged
pub mod Rounds
pub mod Sets
pub mod Standing
pub mod Replacing
use msim_dap.Common.{
  ℕ, ◌≡◌, Bool, true, false, Option, none, some, List, [], ◌∷◌, ◌++◌, if◌then◌else◌, ◌==◌, nat_eq,
  int_eq, string_eq, list_eq,
}
use msim_dap.Common.Int.{ℤ}
use msim_dap.Common.Map.{lookup, insert, remove, collect, contains, set_insert, set_remove}
use msim_dap.Common.Results.{Result, ok, err, ok_or}
use msim_dap.Common.Exec.{Exec, pure, lift, modify, gets, ◌>>=◌, ◌>>◌}
use msim_dap.Msim.Frame.{set_code_breakpoint, remove_code_breakpoint}
use msim_dap.Target.{
  FilePath, TargetError, session_lost, address_not_found, Env, BpStore, MsimTarget, request,
}

-- `bps.iter().position(|&(_, addr)| addr == address)`, and `bps.remove(i)` there
unfoldable pub remove_position : ℕ → List (ℤ × ℕ) → List (ℤ × ℕ)
remove_position address [] = []
remove_position address ((line, addr) ∷ bps) =
    if addr == address then bps else (line, addr) ∷ remove_position address bps

abbrev pub or_default : Option (List (ℤ × ℕ)) → List (ℤ × ℕ)
or_default none = []
or_default (some bps) = bps

-- `entry(source).or_default().push((line, address))`, with the address noted in `bps_addresses`
unfoldable pub add_bp : FilePath → ℤ → ℕ → MsimTarget → MsimTarget
add_bp source line address t =
    let bps = or_default (lookup source t.bp_store.bps_per_file) in
    record t {
      bp_store = record {
        bps_addresses = set_insert address t.bp_store.bps_addresses;
        bps_per_file = insert source (bps ++ ((line, address) ∷ [])) t.bp_store.bps_per_file;
      };
    }

unfoldable pub drop_address : ℕ → MsimTarget → MsimTarget
drop_address address t = record t {
  bp_store = record {
    bps_addresses = set_remove address t.bp_store.bps_addresses;
    bps_per_file = t.bp_store.bps_per_file;
  };
}

-- The `if let Some(bps) = bps_per_file.get_mut(source) && …` of `remove_code_bp`
unfoldable pub drop_entry : FilePath → ℕ → MsimTarget → MsimTarget
drop_entry source address t = elim (lookup source t.bp_store.bps_per_file) [
  | none ↦ t
  | some bps ↦ record t {
    bp_store = record {
      bps_addresses = t.bp_store.bps_addresses;
      bps_per_file = insert source (remove_position address bps) t.bp_store.bps_per_file;
    };
  }
]

-- `bps_per_file.remove(source)`
unfoldable pub drop_file : FilePath → MsimTarget → MsimTarget
drop_file source t = record t {
  bp_store = record {
    bps_addresses = t.bp_store.bps_addresses;
    bps_per_file = remove source t.bp_store.bps_per_file;
  };
}

-- `bps_per_file.insert(source, new_by_file)`, unless that is empty
unfoldable pub store_file : FilePath → List (ℤ × ℕ) → MsimTarget → MsimTarget
store_file source [] t = t
store_file source (bp ∷ new_by_file) t = record t {
  bp_store = record {
    bps_addresses = t.bp_store.bps_addresses;
    bps_per_file = insert source (bp ∷ new_by_file) t.bp_store.bps_per_file;
  };
}

-- `matches!(…, Some(Err(TargetError::SessionLost)))`
abbrev pub is_session_lost : TargetError → Bool
is_session_lost session_lost = true
is_session_lost _ = false

-- The new breakpoints, the results and the target.
abbrev pub Replaced : Type 0
Replaced = List (ℤ × ℕ) × List (Result TargetError (Unit {0})) × MsimTarget

-- The end of a round of that loop: push the result, and `break` if the session is lost. `t` is the
-- target after the round, and `rest` what the rounds that follow make of it.
abbrev pub after_line : ℤ → Result TargetError ℕ → MsimTarget → Replaced → Replaced
after_line line (ok addr) t (new_by_file, results, t') =
    ((line, addr) ∷ new_by_file, ok tt ∷ results, t')
after_line line (err e) t (new_by_file, results, t') =
    if is_session_lost e then ([], err e ∷ [], t) else (new_by_file, err e ∷ results, t')

module _ (env : Env) (source : FilePath) where
  -- `self.index.get_address(source, line).ok_or_else(…)`
  abbrev pub find_address : ℤ → Result TargetError ℕ
  find_address line = ok_or (address_not_found source line) (env.index.get_address source line)

  abbrev pub set_new : ℤ → ℕ → Exec MsimTarget TargetError ℕ
  set_new line address = do
    request env (set_code_breakpoint address)
    modify (add_bp source line address)
    pure address

  -- `DebugTarget::set_code_bp`
  unfoldable pub set_code_bp : ℤ → Exec MsimTarget TargetError ℕ
  set_code_bp line = do
    address ← lift (find_address line)
    known ← gets (λ t. contains address t.bp_store.bps_addresses)
    if known then pure address else set_new line address

  abbrev disarm_known : ℕ → Exec MsimTarget TargetError (Unit {0})
  disarm_known address = do
    modify (drop_address address)
    request env (remove_code_breakpoint address)
    pure tt

  -- `if bps_addresses.remove(&address) { send(RemoveCodeBreakpoint(address))?.to_result()?; }`
  abbrev pub disarm : ℕ → Exec MsimTarget TargetError (Unit {0})
  disarm address = do
    known ← gets (λ t. contains address t.bp_store.bps_addresses)
    if known then disarm_known address else pure tt

  -- `DebugTarget::remove_code_bp`
  unfoldable pub remove_code_bp : ℤ → Exec MsimTarget TargetError ℕ
  remove_code_bp line = do
    address ← lift (find_address line)
    disarm address
    modify (drop_entry source address)
    pure address

  -- The first loop of `replace_code_bps`, over the old breakpoints: errors are dropped.
  unfoldable pub remove_missing : List ℤ → List (ℤ × ℕ) → MsimTarget → MsimTarget
  remove_missing lines [] t = t
  remove_missing lines ((line, _) ∷ old) t =
      remove_missing lines old (if contains line lines then t else (remove_code_bp line t).1)

  -- The closure of `replace_code_bps`, with the address that it pushes.
  unfoldable pub replace_line : List (ℤ × ℕ) → ℤ → Exec MsimTarget TargetError ℕ
  replace_line old_by_file line = elim (lookup line old_by_file) [
    | some addr ↦ pure addr
    | none ↦ set_code_bp line
  ]

  -- The second loop of `replace_code_bps`: the new breakpoints and the results.
  unfoldable pub replace_lines : List (ℤ × ℕ) → List ℤ → MsimTarget → Replaced
  replace_lines old_by_file [] t = ([], [], t)
  replace_lines old_by_file (line ∷ lines) t =
      let (result, t') = replace_line old_by_file line t in
      let rest = replace_lines old_by_file lines t' in after_line line result t' rest

  -- `DebugTarget::replace_code_bps`
  unfoldable pub replace_code_bps :
      List ℤ → MsimTarget → List (Result TargetError (Unit {0})) × MsimTarget
  unfolding drop_file store_file
  replace_code_bps lines t =
      let old_by_file = collect (or_default (lookup source t.bp_store.bps_per_file)) in
      let cleared = remove_missing lines (env.order old_by_file) (drop_file source t) in
      let (new_by_file, results, t') = replace_lines old_by_file lines cleared in
      (results, store_file source new_by_file t')

-- `DebugTarget::resolve_code_bp`
unfoldable pub resolve_code_bp : Env → ℕ → MsimTarget → Option (FilePath × ℤ)
resolve_code_bp env address t =
    if contains address t.bp_store.bps_addresses then env.index.resolve_address address else none

-- `DebugTarget::resolve_address`
abbrev pub resolve_address : Env → ℕ → MsimTarget → Option (FilePath × ℤ)
resolve_address env address t = env.index.resolve_address address
