-- ===== src/Debugger/Requests/Values.antt =====
-- The values of registers as `variables` shows them and `setVariable` reads them.
use msim_dap.Common.{ℕ, ◌≡◌, refl}
use msim_dap.Common.Int.{IsU64}
use msim_dap.Common.Results.{ok}
use msim_dap.Target.Registers.{Register}
use msim_dap.Debugger.{virtual}
use msim_dap.Debugger.MemoryRefs.{parse}
use msim_dap.Debugger.MemoryRefs.RoundTrip.{parse-hex_digits, parse-to_string}
use msim_dap.Debugger.Requests.{parse_value, variable}

-- What is shown of a register with a 64-bit value on a CPU: its value is read back by `setVariable`
-- as it is, and its memory reference leads to that address on that CPU.
pub variable_lem :
    (cpu : ℕ) (reg : Register)
    → IsU64 cpu
    → IsU64 reg.value
    → (parse_value (variable cpu reg).value ≡ ok reg.value)
      × (parse (variable cpu reg).memory_reference ≡ ok (virtual cpu reg.value))
unfolding parse_value
variable_lem cpu reg small_cpu small =
    (rw (parse-hex_digits reg.value small) refl, (parse-to_string cpu reg.value small_cpu small).1)
