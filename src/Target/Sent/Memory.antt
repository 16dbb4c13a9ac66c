-- ===== src/Target/Sent/Memory.antt =====
-- src/target/msim_target.rs: memory is requested at addresses of 64 bits.
use msim_dap.Common.{ℕ, zero, suc, ◌+◌, ◌-◌, ◌*◌, ◌/◌, ◌%◌, ◌^◌, ◌<◌, List, [], ◌∷◌, arith, All}
use msim_dap.Common.Int.{IsU64}
use msim_dap.Common.Ensures.{Anything, Ensures, ensures_rules}
use msim_dap.Msim.Frame.{
  Request, read_phys_memory as phys_request, read_virt_memory as virt_request,
}
use msim_dap.Msim.Frame.Meaning.{IsRequest}
use msim_dap.Target.{Exchange, Env}
use msim_dap.Target.Memory.{
  stepped, step_by, read_chunks, read_memory, read_phys_memory, read_virt_memory,
}
use msim_dap.Target.Sent.{Holds, Grows, AnswersWords, request-Holds}

stepped-IsU64 : (n a : ℕ) → a + 24 * n < 2 ^ 64 + 24 → All IsU64 (stepped n a)
unfolding stepped
stepped-IsU64 zero a h = tt
stepped-IsU64 (suc n) a h = (omega arith, stepped-IsU64 n (a + 24) (omega arith))

-- The addresses of a range that ends below 2^64.
step_by-IsU64 : (a end : ℕ) → IsU64 a → IsU64 end → All IsU64 (step_by a end)
unfolding step_by
step_by-IsU64 a end h e = stepped-IsU64 ((end - a + 23) / 24) a (omega arith)

module _ (env : Env) (replies : AnswersWords env.answer) (P : List Exchange → Type 0)
    (grows : Grows env P) where
  module _ (ask : ℕ → Request) (ask-IsRequest : (a : ℕ) → IsU64 a → IsRequest (ask a)) where
    read_chunks-Holds :
        (addresses : List ℕ)
        → All IsU64 addresses
        → Ensures (Holds P) Anything (read_chunks env ask addresses)
    unfolding read_chunks
    read_chunks-Holds [] all = search ensures_rules
    read_chunks-Holds (a ∷ addresses) (h, all) =
        let ih = read_chunks-Holds addresses all in
        let first = request-Holds env replies P grows (ask a) (ask-IsRequest a h) in
        search ensures_rules

    read_memory-Holds :
        (address length : ℕ)
        → IsU64 address
        → Ensures (Holds P) Anything (read_memory env ask address length)
    unfolding read_memory
    read_memory-Holds address length h =
        let chunks =
          read_chunks-Holds (step_by address ((address + length) % 2 ^ 64))
            (step_by-IsU64 address ((address + length) % 2 ^ 64) h (omega arith)) in
        search ensures_rules

  pub read_phys_memory-Holds :
      (address length : ℕ)
      → IsU64 address
      → Ensures (Holds P) Anything (read_phys_memory env address length)
  unfolding read_phys_memory
  read_phys_memory-Holds = read_memory-Holds phys_request (λ a h. h)

  pub read_virt_memory-Holds :
      (cpu address length : ℕ)
      → IsU64 cpu
      → IsU64 address
      → Ensures (Holds P) Anything (read_virt_memory env cpu address length)
  unfolding read_virt_memory
  read_virt_memory-Holds cpu address length c =
      read_memory-Holds (virt_request cpu) (λ a h. (c, h)) address length
