-- ===== src/Debugger/EventLoop/Usual.antt =====
-- The results that handlers of requests put together: an error is a lost session or a failed request.
use msim_dap.Common.{
  arith, if◌then◌else◌, list_eq, nat_eq, int_eq, Bool-cases, ℕ, ◌≡◌, Bool, true, false, Option,
  none, some, List, [], ◌∷◌, inl, inr,
}
use msim_dap.Common.Int.{ℤ, pos, negsuc, div_i64, rem_i64}
use msim_dap.Common.Results.{Result, ok, err, ok_or, ◌>>=◌}
use msim_dap.Target.{TargetError}
use msim_dap.Debugger.{
  invalid_cpu_id, DebuggerError, Failure, request_failed, dap_error, received_fatal_error,
  from_target, physical, virtual,
}
use msim_dap.Debugger.Strings.{Text, from_str_radix}
use msim_dap.Debugger.Registries
use msim_dap.Debugger.Registries.{thread_to_cpu_id, resolve_var_ref, scope_kind}
use msim_dap.Debugger.MemoryRefs.{parse, parse_hex, parse_phys, parse_virt, parse_virt_address}
use msim_dap.Debugger.Protocol.{HandlerAction}
use msim_dap.Debugger.Requests
use msim_dap.Debugger.Requests.{parse_value}

-- A result: what `Q` says of a value, and an error that is a lost session or a failed request.
abbrev pub IsUsual : {A : Type 0} → (A → Type 0) → Result DebuggerError A → Type 0
IsUsual Q (ok a) = Q a
IsUsual Q (err DebuggerError.session_lost) = Unit
IsUsual Q (err (request_failed e)) = Unit
IsUsual Q (err DebuggerError.dap_disconnected) = true ≡ false
IsUsual Q (err (dap_error e)) = true ≡ false
IsUsual Q (err (received_fatal_error e)) = true ≡ false

abbrev pub Any : {A : Type 0} → A → Type 0
Any a = Unit

pub from_target-IsUsual :
    {A : Type 0} (Q : A → Type 0) (e : TargetError) → IsUsual Q (err (from_target e))
unfolding from_target
from_target-IsUsual Q TargetError.session_lost = tt
from_target-IsUsual Q _ = tt

pub bind-IsUsual :
    {A B : Type 0} (r : Result DebuggerError A) (f : A → Result DebuggerError B)
    → IsUsual Any r
    → ((a : A) → IsUsual Any (f a))
    → IsUsual Any (r >>= f)
bind-IsUsual (ok a) f q k = k a
bind-IsUsual (err DebuggerError.session_lost) f q k = tt
bind-IsUsual (err (request_failed e)) f q k = tt
bind-IsUsual (err DebuggerError.dap_disconnected) f q k = q
bind-IsUsual (err (dap_error e)) f q k = q
bind-IsUsual (err (received_fatal_error e)) f q k = q

pub thread_to_cpu_id-IsUsual : (thread_id : ℤ) → IsUsual Any (thread_to_cpu_id thread_id)
unfolding thread_to_cpu_id
thread_to_cpu_id-IsUsual thread_id = elim (Bool-cases (Registries.is_positive thread_id)) [
  | inl positive ↦ rw (positive, thread_to_cpu_id) tt
  | inr other ↦ rw (other, thread_to_cpu_id) tt
]

pub ok_or-IsUsual :
    {A : Type 0} (e : Failure) (o : Option A) → IsUsual Any (ok_or (request_failed e) o)
ok_or-IsUsual e none = tt
ok_or-IsUsual e (some a) = tt

-- An action with no message to send after the response.
abbrev pub IsPlain : HandlerAction → Type 0
IsPlain action = action.post_action ≡ none

if-IsUsual :
    {A : Type 0} (b : Bool) (r r' : Result DebuggerError A)
    → IsUsual Any r
    → IsUsual Any r'
    → IsUsual Any (if b then r else r')
if-IsUsual true r r' q q' = q
if-IsUsual false r r' q q' = q'

pub scope_kind-IsUsual :
    (var_ref kind : ℤ) (cpu_id : ℕ) → IsUsual Any (scope_kind var_ref kind cpu_id)
scope_kind-IsUsual var_ref kind cpu_id = ground arith

pub resolve_var_ref-IsUsual : (var_ref : ℤ) → IsUsual Any (resolve_var_ref var_ref)
unfolding resolve_var_ref
resolve_var_ref-IsUsual var_ref =
    bind-IsUsual (thread_to_cpu_id (Registries.frame_to_thread_id (div_i64 var_ref 10)))
      (scope_kind var_ref (rem_i64 var_ref 10)) (thread_to_cpu_id-IsUsual _)
      (scope_kind-IsUsual var_ref (rem_i64 var_ref 10))

pub parse_hex-IsUsual : (s : Text) → IsUsual Any (parse_hex s)
unfolding parse_hex
parse_hex-IsUsual s = ok_or-IsUsual _ _

pub parse_phys-IsUsual : (s : Text) (parts : List Text) → IsUsual Any (parse_phys s parts)
parse_phys-IsUsual s [] = tt
parse_phys-IsUsual s (addr ∷ parts) =
    bind-IsUsual (parse_hex addr) (λ a. ok (physical a)) (parse_hex-IsUsual addr) (λ a. tt)

pub parse_virt_address-IsUsual :
    (s : Text) (cpu_id : ℕ) (parts : List Text) → IsUsual Any (parse_virt_address s cpu_id parts)
parse_virt_address-IsUsual s cpu_id [] = tt
parse_virt_address-IsUsual s cpu_id (addr ∷ parts) =
    bind-IsUsual (parse_hex addr) (λ a. ok (virtual cpu_id a)) (parse_hex-IsUsual addr) (λ a. tt)

pub parse_virt-IsUsual : (s : Text) (parts : List Text) → IsUsual Any (parse_virt s parts)
parse_virt-IsUsual s [] = tt
parse_virt-IsUsual s (cpu ∷ parts) =
    bind-IsUsual (ok_or (request_failed (invalid_cpu_id s)) (from_str_radix 10 cpu))
      (λ cpu_id. parse_virt_address s cpu_id parts) (ok_or-IsUsual _ _)
      (λ cpu_id. parse_virt_address-IsUsual s cpu_id parts)

pub parse-IsUsual : (s : Text) → IsUsual Any (parse s)
unfolding parse
parse-IsUsual s = search (if-IsUsual, parse_phys-IsUsual, parse_virt-IsUsual)

pub parse_value-IsUsual : (v : Text) → IsUsual Any (parse_value v)
unfolding parse_value
parse_value-IsUsual v = search (if-IsUsual, ok_or-IsUsual)

pub byte_count-IsUsual : (count : ℤ) → IsUsual Any (Requests.byte_count count)
byte_count-IsUsual (pos n) = tt
byte_count-IsUsual (negsuc n) = tt

pub ruleset usual_rules = (
  thread_to_cpu_id-IsUsual, resolve_var_ref-IsUsual, parse-IsUsual, parse_value-IsUsual,
  byte_count-IsUsual, ok_or-IsUsual,
)
