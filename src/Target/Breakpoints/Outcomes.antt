-- ===== src/Target/Breakpoints/Outcomes.antt =====
-- The results of `replace_code_bps`.
use msim_dap.Common.{
  ℕ, ◌≡◌, ◌≢◌, refl, subst, arith, true, false, none, some, List, [], ◌∷◌, ◌⊎◌, inl, inr,
  Bool-cases, Option-cases, int_eq, string_eq, list_eq, nat_eq,
}
use msim_dap.Common.Int.{ℤ}
use msim_dap.Common.Map.{lookup, contains, collect}
use msim_dap.Common.Results.{Result, ok, err, Result-cases}
use msim_dap.Msim.Frame.{Request, set_code_breakpoint}
use msim_dap.Msim.Messages.{MsimError, RawResponse, to_result}
use msim_dap.Target.{
  FilePath, TargetError, session_lost, address_not_found, Env, MsimTarget, request, send, send_raw,
  from_msim,
}
use msim_dap.Target.Breakpoints.{
  Replaced, after_line, is_session_lost, or_default, set_code_bp, replace_line, replace_lines,
  replace_code_bps,
}
use msim_dap.Target.Breakpoints.Acknowledged.{bps_of}

-- What one line may be answered with, where these breakpoints of the file were stored.
pub data Answers (env : Env) (source : FilePath) (old : List (ℤ × ℕ)) (line : ℤ)
    : Result TargetError (Unit {0}) → Type 0 where
  -- A stored line: success.
  kept : (addr : ℕ) → lookup line old ≡ some addr → Answers env source old line (ok tt)
  -- A line that the index lacks: that error.
  missing :
      lookup line old ≡ none
      → env.index.get_address source line ≡ none
      → Answers env source old line (err (address_not_found source line))
  -- Any other line: success, or what became of the request to MSIM.
  set :
      (addr : ℕ)
      → lookup line old ≡ none
      → env.index.get_address source line ≡ some addr
      → Answers env source old line (ok tt)
  refused :
      (addr : ℕ)
      → lookup line old ≡ none
      → env.index.get_address source line ≡ some addr
      → Answers env source old line (err TargetError.request_failed)
  lost :
      (addr : ℕ)
      → lookup line old ≡ none
      → env.index.get_address source line ≡ some addr
      → Answers env source old line (err session_lost)

-- Lines and their results, in the same order. A lost session is the last result.
pub data IsAnswered (env : Env) (source : FilePath) (old : List (ℤ × ℕ))
    : List ℤ → List (Result TargetError (Unit {0})) → Type 0 where
  all : IsAnswered env source old [] []
  cut :
      (line : ℤ) (lines : List ℤ)
      → Answers env source old line (err session_lost)
      → IsAnswered env source old (line ∷ lines) (err session_lost ∷ [])
  next :
      (line : ℤ) (lines : List ℤ) (result : Result TargetError (Unit {0}))
      (results : List (Result TargetError (Unit {0})))
      → Answers env source old line result
      → result ≢ err session_lost
      → IsAnswered env source old lines results
      → IsAnswered env source old (line ∷ lines) (result ∷ results)

lost_only : (e : TargetError) → is_session_lost e ≡ true → e ≡ session_lost
lost_only TargetError.session_lost h = refl
lost_only _ h = absurd (ground (arith, h))

abbrev failure : TargetError → Result TargetError (Unit {0})
failure e = err e

not_lost : (e : TargetError) → is_session_lost e ≡ false → failure e ≢ err session_lost
not_lost TargetError.session_lost h = absurd (ground (arith, h))
not_lost _ h = λ same. cc

from_msim-cases :
    (e : MsimError)
    → (from_msim e ≡ TargetError.request_failed) ⊎ (from_msim e ≡ TargetError.session_lost)
unfolding from_msim
from_msim-cases MsimError.request_failed = inl refl
from_msim-cases _ = inr refl

-- What became of a request to MSIM.
abbrev IsRequested : Result TargetError RawResponse × MsimTarget → Type 0
IsRequested done =
    ((response : RawResponse) × (t : MsimTarget) × (done ≡ (ok response, t)))
    ⊎ (((t : MsimTarget) × (done ≡ (err TargetError.request_failed, t)))
        ⊎ ((t : MsimTarget) × (done ≡ (err TargetError.session_lost, t))))

failed-IsRequested : (e : MsimError) (t : MsimTarget) → IsRequested (err (from_msim e), t)
failed-IsRequested e t = elim (from_msim-cases e) [
  | inl same ↦ inr (inl (t, rw same refl))
  | inr same ↦ inr (inr (t, rw same refl))
]

request-IsRequested : (env : Env) (r : Request) (t : MsimTarget) → IsRequested (request env r t)
unfolding request send send_raw
request-IsRequested env r t = elim (Result-cases (env.answer t.exchanges r)) [
  | inl (response, answered) ↦ elim (Result-cases (to_result response)) [
    | inl (x, fine) ↦ rw (answered, fine) (inl (x, _, refl))
    | inr (e, bad) ↦ rw (answered, bad) (failed-IsRequested e _)
  ]
  | inr (e, answered) ↦ rw answered (failed-IsRequested e _)
]

-- The result that `replace_code_bps` pushes.
abbrev told : Result TargetError ℕ → Result TargetError (Unit {0})
told (ok addr) = ok tt
told (err e) = err e

module _ (env : Env) (source : FilePath) (old : List (ℤ × ℕ)) where
  set_code_bp-Answers :
      (line : ℤ) (t : MsimTarget)
      → lookup line old ≡ none
      → Answers env source old line (told (set_code_bp env source line t).0)
  unfolding set_code_bp
  set_code_bp-Answers line t fresh = elim (Option-cases (env.index.get_address source line)) [
    | inl lacks ↦ rw (lacks, set_code_bp) (missing fresh lacks)
    | inr (a, found) ↦ elim (Bool-cases (contains a t.bp_store.bps_addresses)) [
      | inl known ↦ rw (found, set_code_bp, known) (set a fresh found)
      | inr new ↦ elim (request-IsRequested env (set_code_breakpoint a) t) [
        | inl (_, t', e) ↦ rw (found, set_code_bp, new, e) (set a fresh found)
        | inr (inl (t', e)) ↦ rw (found, set_code_bp, new, e) (refused a fresh found)
        | inr (inr (t', e)) ↦ rw (found, set_code_bp, new, e) (lost a fresh found)
      ]
    ]
  ]

  replace_line-Answers :
      (line : ℤ) (t : MsimTarget)
      → Answers env source old line (told (replace_line env source old line t).0)
  unfolding replace_line
  replace_line-Answers line t = elim (Option-cases (lookup line old)) [
    | inl fresh ↦ rw (fresh, replace_line) (set_code_bp-Answers line t fresh)
    | inr (a, stored) ↦ rw (stored, replace_line) (kept a stored)
  ]

  after_line-IsAnswered :
      (line : ℤ) (lines : List ℤ) (result : Result TargetError ℕ) (t : MsimTarget) (rest : Replaced)
      → Answers env source old line (told result)
      → IsAnswered env source old lines rest.1
      → IsAnswered env source old (line ∷ lines) (after_line line result t rest).1
  after_line-IsAnswered line lines (ok addr) t rest h others =
      next line lines (ok tt) rest.1 h (λ same. cc) others
  after_line-IsAnswered line lines (err e) t rest h others = elim (Bool-cases (is_session_lost e)) [
    | inl ends ↦
        rw (ends, lost_only e ends)
          (cut line lines (subst (λ e. Answers env source old line (err e)) (lost_only e ends) h))
    | inr goes_on ↦ rw goes_on (next line lines (err e) rest.1 h (not_lost e goes_on) others)
  ]

  replace_lines-IsAnswered :
      (lines : List ℤ) (t : MsimTarget)
      → IsAnswered env source old lines (replace_lines env source old lines t).1
  unfolding replace_lines
  replace_lines-IsAnswered [] t = all
  replace_lines-IsAnswered (line ∷ lines) t =
      let (result, t') = replace_line env source old line t in
      after_line-IsAnswered line lines result t' _ (replace_line-Answers line t)
        (replace_lines-IsAnswered lines t')

-- Replacing breakpoints gives one result for each line, in the order of the lines, up to the end
-- of the lines or the first that says that the session is lost. The result of a line is success
-- if the line was stored for the file before; or else the error that no address was found for
-- it, if the index lacks the line; or else success or the error of the request to MSIM, that it
-- failed or that the session is lost.
pub replace_code_bps-IsAnswered :
    (env : Env) (source : FilePath) (lines : List ℤ) (t : MsimTarget)
    → IsAnswered env source
        (collect (or_default (bps_of source t)))
        lines
        (replace_code_bps env source lines t).0
unfolding replace_code_bps
replace_code_bps-IsAnswered env source lines t = replace_lines-IsAnswered env source _ lines _
