-- ===== src/Debugger/Requests/Memory.antt =====
-- `readMemory` of a target whose MSIM serves a memory.
use msim_dap.Common.{ℕ, ◌≡◌, refl, ◌+◌, ◌^◌, ◌<◌, arith, some, map, range}
use msim_dap.Common.Int.{IsU64, pos, ◌+i64◌}
use msim_dap.Common.Results.{ok}
use msim_dap.Msim.Frame
use msim_dap.Target.{Env, MsimTarget}
use msim_dap.Target.Interface.{DebugTarget, msim_target}
use msim_dap.Target.Memory.Contents.{Serves, read_memory_contents}
use msim_dap.Debugger.{physical, virtual}
use msim_dap.Debugger.Strings.{hex}
use msim_dap.Debugger.MemoryRefs.{to_string}
use msim_dap.Debugger.MemoryRefs.RoundTrip.{parse-to_string}
use msim_dap.Debugger.Protocol.{Debugger, Client, ResponseBody}
use msim_dap.Debugger.Requests.{reply, read_memory, offset_address}

offset_address-small :
    (T : DebugTarget) (cpu base k : ℕ)
    → base + k < 2 ^ 64
    → k < 2 ^ 63
    → (offset_address T (physical base) (some (pos k)) ≡ base + k)
      × (offset_address T (virtual cpu base) (some (pos k)) ≡ base + k)
unfolding ◌+i64◌
offset_address-small T cpu base k fits small = (ground arith, ground arith)

-- Where MSIM serves a memory, by physical address and by virtual address of a CPU: `readMemory` of a
-- reference that the debugger printed, at an offset that is not negative, answers with the address and
-- the bytes of the range, all and no more, if the range ends below 2^64.
pub read_memory_lem :
    (env : Env) (client : Client) (cpu : ℕ) (phys_mem virt_mem : ℕ → ℕ)
    → Serves env Frame.read_phys_memory phys_mem
    → Serves env (Frame.read_virt_memory cpu) virt_mem
    → (base k n : ℕ) (d : Debugger MsimTarget) → IsU64 cpu
    → base + k + n < 2 ^ 64
    → k < 2 ^ 63
    → ((read_memory (msim_target env) client (to_string (physical base)) (some (pos k)) (pos n) d).0
        ≡ ok (
            reply (
              ResponseBody.read_memory
                (hex (base + k))
                (client.encode (map phys_mem (range (base + k) n))))))
      × ((read_memory
            (msim_target env)
            client
            (to_string (virtual cpu base))
            (some (pos k))
            (pos n)
            d).0
          ≡ ok (
              reply (
                ResponseBody.read_memory
                  (hex (base + k))
                  (client.encode (map virt_mem (range (base + k) n))))))
unfolding read_memory
read_memory_lem env client cpu phys_mem virt_mem serves serves_virt base k n d small_cpu fits
      small =
    let (phys_ref, virt_ref) = parse-to_string cpu base small_cpu (omega (arith, fits)) in
    let (phys_at, virt_at) =
      offset_address-small (msim_target env) cpu base k (omega (arith, fits)) small in
    let (phys_read, virt_read) =
      read_memory_contents env cpu phys_mem virt_mem serves serves_virt (base + k) n d.target
        fits in
    (rw (phys_ref, phys_at, phys_read) refl, rw (virt_ref, virt_at, virt_read) refl)
