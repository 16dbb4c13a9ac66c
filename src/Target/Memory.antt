-- ===== src/Target/Memory.antt =====
-- src/target/msim_target.rs, reading memory. Rust's `usize` is taken to have 64 bits. `address +
-- length` wraps, as it does in a release build (a debug build panics there instead).
pub mod Contents
use msim_dap.Common.{ℕ, zero, suc, ◌+◌, ◌-◌, ◌*◌, ◌/◌, ◌%◌, ◌^◌, List, [], ◌∷◌, ◌++◌, take}
use msim_dap.Common.Bytes.{be_bytes}
use msim_dap.Common.Exec.{Exec, pure, ◌>>=◌}
use msim_dap.Msim.Frame.{
  Request, read_phys_memory as phys_request, read_virt_memory as virt_request,
}
use msim_dap.Msim.Messages.{RawResponse}
use msim_dap.Target.{TargetError, Env, MsimTarget, request}

-- `3 * size_of::<ArgType>()`
abbrev pub step : ℕ
step = 3 * 8

-- `n` addresses from `a` on, `step` apart
unfoldable pub stepped : ℕ → ℕ → List ℕ
stepped zero a = []
stepped (suc n) a = a ∷ stepped n (a + step)

-- `(a..end).step_by(STEP)`, whose length is that of the range divided by the step, rounded up
unfoldable pub step_by : ℕ → ℕ → List ℕ
unfolding stepped
step_by a end = stepped ((end - a + (step - 1)) / step) a

-- The three `extend_from_slice` of one response
unfoldable pub chunk_bytes : RawResponse → List ℕ
chunk_bytes chunk = be_bytes 8 chunk.arg0 ++ (be_bytes 8 chunk.arg1 ++ be_bytes 8 chunk.arg2)

module _ (env : Env) (ask : ℕ → Request) where
  -- The loop over the addresses
  unfoldable pub read_chunks : List ℕ → Exec MsimTarget TargetError (List ℕ)
  read_chunks [] = pure []
  read_chunks (read_addr ∷ addresses) = do
    chunk ← request env (ask read_addr)
    bytes ← read_chunks addresses
    pure (chunk_bytes chunk ++ bytes)

  unfoldable pub read_memory : ℕ → ℕ → Exec MsimTarget TargetError (List ℕ)
  read_memory address length = do
    bytes ← read_chunks (step_by address ((address + length) % 2 ^ 64))
    pure (take length bytes)

-- `DebugTarget::read_phys_memory`
unfoldable pub read_phys_memory : Env → ℕ → ℕ → Exec MsimTarget TargetError (List ℕ)
unfolding read_memory
read_phys_memory env = read_memory env phys_request

-- `DebugTarget::read_virt_memory`
unfoldable pub read_virt_memory : Env → ℕ → ℕ → ℕ → Exec MsimTarget TargetError (List ℕ)
unfolding read_memory
read_virt_memory env cpu = read_memory env (virt_request cpu)
