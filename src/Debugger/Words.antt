-- ===== src/Debugger/Words.antt =====
-- src/debugger/core.rs and requests.rs: what is parsed or converted to a CPU, a value or an address has
-- 64 bits.
use msim_dap.Common.{
  ℕ, ◌≡◌, Bool-cases, inl, inr, some, Option-cases, List, [], ◌∷◌, arith, ◌==◌, nat_eq, int_eq,
  list_eq,
}
use msim_dap.Common.Int.{ℤ, pos, negsuc, IsU64, cast_unsigned, ◌-i64◌, div_i64, rem_i64}
use msim_dap.Common.Results.{ok, ok_or}
use msim_dap.Common.Ensures.{OnOk, OnOk-bind, OnOk-if, OnSome, OnOk-ok_or}
use msim_dap.Debugger.{
  MemoryRef, physical, virtual, VarScopeKind, general_registers, csr_registers, DebuggerError,
}
use msim_dap.Debugger.Strings.{Text, to_digit, add_digit, parse_digits, from_str_radix}
use msim_dap.Debugger.Registries.{
  is_positive, thread_to_cpu_id, frame_to_thread_id, scope_kind, resolve_var_ref,
}
use msim_dap.Debugger.MemoryRefs.{parse, parse_hex, parse_phys, parse_virt, parse_virt_address}
use msim_dap.Debugger.Requests.{parse_value}

abbrev pub IsScope : VarScopeKind → Type 0
IsScope (general_registers cpu) = IsU64 cpu
IsScope (csr_registers cpu) = IsU64 cpu

abbrev pub IsRef : MemoryRef → Type 0
IsRef (physical a) = IsU64 a
IsRef (virtual cpu a) = IsU64 cpu × IsU64 a

pub cast_unsigned-IsU64 : (a : ℤ) → IsU64 (cast_unsigned a)
cast_unsigned-IsU64 (pos n) = omega arith
cast_unsigned-IsU64 (negsuc n) = omega arith

pub thread_to_cpu_id-IsU64 : (thread_id : ℤ) → OnOk IsU64 (thread_to_cpu_id thread_id)
unfolding thread_to_cpu_id
thread_to_cpu_id-IsU64 thread_id =
    OnOk-if IsU64 (is_positive thread_id) _ _ (cast_unsigned-IsU64 (thread_id -i64 pos 1)) tt

scope_kind-IsScope :
    (var_ref kind : ℤ) (cpu : ℕ) → IsU64 cpu → OnOk IsScope (scope_kind var_ref kind cpu)
scope_kind-IsScope var_ref kind cpu h =
    OnOk-if IsScope (kind == pos 1) _ _ h (OnOk-if IsScope (kind == pos 2) _ _ h tt)

pub resolve_var_ref-IsScope : (var_ref : ℤ) → OnOk IsScope (resolve_var_ref var_ref)
unfolding resolve_var_ref
resolve_var_ref-IsScope var_ref =
    OnOk-bind IsU64 IsScope _ _ (thread_to_cpu_id-IsU64 (frame_to_thread_id (div_i64 var_ref 10)))
      (scope_kind-IsScope var_ref (rem_i64 var_ref 10))

add_digit-IsU64 : (radix n digit more : ℕ) → add_digit radix n digit ≡ some more → IsU64 more
unfolding add_digit
add_digit-IsU64 radix n digit more e = ground arith

parse_digits-IsU64 : (radix n : ℕ) (s : Text) → IsU64 n → OnSome IsU64 (parse_digits radix n s)
unfolding parse_digits
parse_digits-IsU64 radix n [] h = h
parse_digits-IsU64 radix n (c ∷ s) h = elim (Option-cases (to_digit radix c)) [
  | inl other ↦ rw (other, parse_digits) tt
  | inr (digit, read) ↦ elim (Option-cases (add_digit radix n digit)) [
    | inl large ↦ rw (read, parse_digits, large) tt
    | inr (more, fits) ↦
        rw (read, parse_digits, fits)
          (parse_digits-IsU64 radix more s (add_digit-IsU64 radix n digit more fits))
  ]
]

from_str_radix-IsU64 : (radix : ℕ) (s : Text) → OnSome IsU64 (from_str_radix radix s)
unfolding from_str_radix
from_str_radix-IsU64 radix [] = tt
from_str_radix-IsU64 radix (c ∷ []) = parse_digits-IsU64 radix 0 (c ∷ []) (omega arith)
from_str_radix-IsU64 radix (c ∷ d ∷ s) = elim (Bool-cases (c == 43)) [
  | inl plus ↦ rw plus (parse_digits-IsU64 radix 0 (d ∷ s) (omega arith))
  | inr other ↦ rw other (parse_digits-IsU64 radix 0 (c ∷ d ∷ s) (omega arith))
]

parsed-IsU64 :
    (radix : ℕ) (s : Text) (e : DebuggerError) → OnOk IsU64 (ok_or e (from_str_radix radix s))
parsed-IsU64 radix s e = OnOk-ok_or IsU64 e _ (from_str_radix-IsU64 radix s)

pub parse_value-IsU64 : (v : Text) → OnOk IsU64 (parse_value v)
unfolding parse_value
parse_value-IsU64 v = search (OnOk-if, parsed-IsU64)

parse_hex-IsU64 : (s : Text) → OnOk IsU64 (parse_hex s)
unfolding parse_hex
parse_hex-IsU64 s = parsed-IsU64 16 _ _

parse_phys-IsRef : (s : Text) (parts : List Text) → OnOk IsRef (parse_phys s parts)
parse_phys-IsRef s [] = tt
parse_phys-IsRef s (addr ∷ parts) =
    OnOk-bind IsU64 IsRef (parse_hex addr) (λ a. ok (physical a)) (parse_hex-IsU64 addr) (λ a h. h)

parse_virt_address-IsRef :
    (s : Text) (cpu : ℕ) (parts : List Text)
    → IsU64 cpu
    → OnOk IsRef (parse_virt_address s cpu parts)
parse_virt_address-IsRef s cpu [] c = tt
parse_virt_address-IsRef s cpu (addr ∷ parts) c =
    OnOk-bind IsU64 IsRef (parse_hex addr) (λ a. ok (virtual cpu a)) (parse_hex-IsU64 addr)
      (λ a h. (c, h))

parse_virt-IsRef : (s : Text) (parts : List Text) → OnOk IsRef (parse_virt s parts)
parse_virt-IsRef s [] = tt
parse_virt-IsRef s (cpu ∷ parts) =
    OnOk-bind IsU64 IsRef _ (λ cpu_id. parse_virt_address s cpu_id parts) (parsed-IsU64 10 cpu _)
      (λ cpu_id. parse_virt_address-IsRef s cpu_id parts)

pub parse-IsRef : (s : Text) → OnOk IsRef (parse s)
unfolding parse
parse-IsRef s = search (OnOk-if, parse_phys-IsRef, parse_virt-IsRef)
