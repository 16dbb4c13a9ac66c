-- ===== src/Debugger/Numbered/Asking.antt =====
-- src/debugger/requests.rs, `set_breakpoints`: for how many ids it asks at most.
use msim_dap.Common.{
  ℕ, ◌+◌, ◌≤◌, ◌≡◌, refl, sym, ap, ◌∙◌, Option, none, some, List, [], ◌∷◌, ◌++◌, length,
  length-append, arith, map,
}
use msim_dap.Common.Int.{ℤ}
use msim_dap.Common.Results.{Result, ok, err}
use msim_dap.Common.Exec.{Exec, continue, pure, ◌>>=◌}
use msim_dap.Target.{FilePath, TargetError}
use msim_dap.Target.Interface.{DebugTarget}
use msim_dap.Debugger.{BpRegistry, DebuggerError}
use msim_dap.Debugger.Registries.{get_id}
use msim_dap.Debugger.Registries.Ids.{after}
use msim_dap.Debugger.Commands.{Command, SourceBreakpoint}
use msim_dap.Debugger.Protocol.{Debugger, ResponseBody}
use msim_dap.Debugger.BpInfos.{bp_id, bp_info, bp_infos}
use msim_dap.Debugger.Requests
use msim_dap.Debugger.Numbered.{Leaves}

-- From one registry to another by asking for at most a number of ids.
abbrev pub Gives : ℕ → BpRegistry → BpRegistry → Type 0
Gives n r r' = (places : List (FilePath × ℤ)) × (length places ≤ n) × (r' ≡ after places r)

pub Gives-none : (n : ℕ) (r r' : BpRegistry) → r' ≡ r → Gives n r r'
unfolding after
Gives-none n r r' h = ([], omega arith, h)

pub Gives-one :
    (n : ℕ) (path : FilePath) (line : ℤ) (r : BpRegistry) → 1 ≤ n → Gives n r (get_id path line r).1
unfolding after
Gives-one n path line r h = ((path, line) ∷ [], omega (arith, h), refl)

after-append :
    (ps qs : List (FilePath × ℤ)) (r : BpRegistry) → after (ps ++ qs) r ≡ after qs (after ps r)
unfolding after
after-append [] qs r = refl
after-append ((path, line) ∷ ps) qs r = after-append ps qs (get_id path line r).1

pub Gives-append :
    (n k : ℕ) (r r' r'' : BpRegistry) → Gives n r r' → Gives k r' r'' → Gives (n + k) r r''
Gives-append n k r r' r'' (ps, few, p) (qs, few', q) = (
  ps ++ qs,
  omega (arith, few, few', length-append ps qs),
  q ∙ ap (after qs) p ∙ sym (after-append ps qs r),
)

module _ {S : Type 0} where
  -- An action that asks for at most a number of ids, whatever the outcome.
  abbrev pub Asks : {A : Type 0} → ℕ → Exec (Debugger S) DebuggerError A → Type 0
  Asks n m = (d : Debugger S) → Gives n d.bp_registry (m d).1.bp_registry

  continue-Gives :
      {A B : Type 0} (n k : ℕ) (r : BpRegistry) (result : Result DebuggerError A) (d : Debugger S)
      (f : A → Exec (Debugger S) DebuggerError B)
      → Gives n r d.bp_registry
      → ((a : A) → Asks k (f a))
      → Gives (n + k) r (continue (result, d) f).1.bp_registry
  continue-Gives n k r (ok a) d f (ps, few, p) h =
      Gives-append n k r d.bp_registry _ (ps, few, p) (h a d)
  continue-Gives n k r (err e) d f (ps, few, p) h = (ps, omega (arith, few), p)

  pub Asks-bind :
      {A B : Type 0} (n k : ℕ) (m : Exec (Debugger S) DebuggerError A)
      (f : A → Exec (Debugger S) DebuggerError B)
      → Asks n m
      → ((a : A) → Asks k (f a))
      → Asks (n + k) (m >>= f)
  Asks-bind n k m f h hf d = continue-Gives n k d.bp_registry (m d).0 (m d).1 f (h d) hf

  bp_info-Asks :
      (path : FilePath) (bp : SourceBreakpoint) (r : Result TargetError (Unit {0}))
      → Asks 1 (bp_info {S = S} path bp r)
  unfolding bp_info bp_id
  bp_info-Asks path bp (ok u) d = Gives-one 1 path bp.line d.bp_registry (omega arith)
  bp_info-Asks path bp (err TargetError.session_lost) d = Gives-none 1 _ _ refl
  bp_info-Asks path bp (err _) d = Gives-none 1 _ _ refl

  pub bp_infos-Asks :
      (path : FilePath) (bps : List SourceBreakpoint)
      (results : List (Result TargetError (Unit {0})))
      → Asks (length bps + 0) (bp_infos {S = S} path bps results)
  unfolding bp_infos
  bp_infos-Asks path [] results d = Gives-none _ _ _ refl
  bp_infos-Asks path (bp ∷ bps) [] d = Gives-none _ _ _ refl
  bp_infos-Asks path (bp ∷ bps) (result ∷ results) d =
      let (ps, few, p) =
        Asks-bind 1 (length bps + 0 + 0) (bp_info path bp result) _ (bp_info-Asks path bp result)
          (λ info.
            Asks-bind (length bps + 0) 0 (bp_infos path bps results) _
              (bp_infos-Asks path bps results) (λ infos d. Gives-none 0 _ _ refl))
          d in
      (ps, omega (arith, few), p)

-- How many breakpoints a request names.
abbrev pub breakpoints_in : Command → ℕ
breakpoints_in (Command.set_breakpoints path (some bps)) = length bps
breakpoints_in _ = 0

module _ (T : DebugTarget) where
  -- What leaves the registry alone asks for no id.
  pub Leaves-Asks :
      {A : Type 0} (m : Exec (Debugger T.State) DebuggerError A)
      → ((r : BpRegistry) → Leaves T r m)
      → Asks 0 m
  Leaves-Asks m h d = Gives-none 0 _ _ ((h d.bp_registry).at d refl)

  set_bps-Asks :
      (path : FilePath) (bps : List SourceBreakpoint)
      → Asks (length bps) (Requests.set_bps T path bps)
  set_bps-Asks path bps d =
      let (ps, few, p) =
        Asks-bind 0 (length bps + 0 + 0)
          (Requests.replace_code_bps T path (map (λ (bp : SourceBreakpoint). bp.line) bps))
          (λ results. bp_infos path bps results >>= λ infos.
            pure (Requests.reply (ResponseBody.set_breakpoints infos)))
          (λ (d' : Debugger T.State). Gives-none 0 d'.bp_registry d'.bp_registry refl)
          (λ results.
            Asks-bind (length bps + 0) 0 (bp_infos path bps results) _
              (bp_infos-Asks path bps results) (λ infos d. Gives-none 0 _ _ refl))
          d in
      (ps, omega (arith, few), p)

  pub set_breakpoints-Asks :
      (path : Option FilePath) (bps : Option (List SourceBreakpoint))
      → Asks
          (breakpoints_in (Command.set_breakpoints path bps))
          (Requests.set_breakpoints T path bps)
  unfolding Requests.set_breakpoints
  set_breakpoints-Asks none none d = Gives-none _ _ _ refl
  set_breakpoints-Asks none (some bps) d = Gives-none _ _ _ refl
  set_breakpoints-Asks (some path) none d = set_bps-Asks path [] d
  set_breakpoints-Asks (some path) (some bps) d = set_bps-Asks path bps d
