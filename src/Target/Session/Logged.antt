-- ===== src/Target/Session/Logged.antt =====
-- Runs of a target, src/target/msim_target.rs: the breakpoint addresses that it remembers, against its
-- requests and what MSIM has acknowledged.
use msim_dap.Common.{
  ℕ, zero, suc, ◌+◌, ◌≡◌, refl, List, [], ◌∷◌, String, ◌==◌, string_eq, nat_eq, Bool-cases, inl,
  inr, Option, none, some,
}
use msim_dap.Common.Exec.{Keeps, pure, Keeps-bind, Keeps-pure, Keeps-gets, keeps_rules}
use msim_dap.Msim.Frame.{Request, set_code_breakpoint, remove_code_breakpoint, CpuArch}
use msim_dap.Target.{Env, MsimTarget, new, send_raw, send, request}
use msim_dap.Target.Breakpoints.Log.{
  IsLogged, is_kept, is_set, is_abandoned, set_code_bp-IsLogged, remove_code_bp-IsLogged,
  replace_code_bps-IsLogged,
}
use msim_dap.Target.Control
use msim_dap.Target.Registers
use msim_dap.Target.Registers.Names.{RegisterMapper}
use msim_dap.Target.Memory
use msim_dap.Msim.Frame
use msim_dap.Msim.Frame.Codec.{read_arch}
use msim_dap.Common.Map.{insert, contains}
use msim_dap.Target.{Config}
use msim_dap.Target.Registers.{pc_reg_name}
use msim_dap.Target.Session.{
  Operation, perform, perform_all, cpu_count, resume, pause, terminate, step_by, set_bp, remove_bp,
  replace_bps, read_general_regs, read_csrs, read_pc, write_general_reg, write_csr, write_pc,
  read_phys_memory, read_virt_memory,
}

-- The requests that are about no code breakpoint.
abbrev IsOther : Request → Type 0
IsOther (set_code_breakpoint a) = ⊥
IsOther (remove_code_breakpoint a) = ⊥
IsOther _ = Unit

is_kept-IsOther :
    (q : Request) (reply : _) (log : _) (a : ℕ)
    → IsOther q
    → is_kept a ((q, reply) ∷ log) ≡ is_kept a log
unfolding is_set is_abandoned
is_kept-IsOther (set_code_breakpoint b) reply log a h = absurd h
is_kept-IsOther (remove_code_breakpoint b) reply log a h = absurd h
is_kept-IsOther Frame.resume reply log a h = refl
is_kept-IsOther _ reply log a h = refl

module _ (env : Env) where
  send-IsLogged : (q : Request) → IsOther q → Keeps IsLogged (send env q)
  unfolding send send_raw
  send-IsLogged q h = record {
    at = λ t logged a. rw (is_kept-IsOther q (env.answer t.exchanges q) t.exchanges a h) (logged a);
  }

  request-IsLogged : (q : Request) → IsOther q → Keeps IsLogged (request env q)
  unfolding request
  request-IsLogged q h = search (keeps_rules, send-IsLogged)

  resume-IsLogged : Keeps IsLogged (Control.resume env)
  unfolding Control.resume
  resume-IsLogged = search (keeps_rules, request-IsLogged)

  step_by-IsLogged : (cpu count : ℕ) → Keeps IsLogged (Control.step_by env cpu count)
  unfolding Control.step_by
  step_by-IsLogged cpu count = search (keeps_rules, request-IsLogged, resume-IsLogged)

  pause-IsLogged : Keeps IsLogged (Control.pause env)
  unfolding Control.pause
  pause-IsLogged = search (keeps_rules, request-IsLogged)

  terminate-IsLogged : Keeps IsLogged (Control.terminate env)
  unfolding Control.terminate send send_raw
  terminate-IsLogged = record { at = (send-IsLogged Frame.terminate tt).at }

  read_archs-IsLogged :
      (n cpu_id : ℕ) (m : List (ℕ × CpuArch)) → Keeps IsLogged (Control.read_archs env n cpu_id m)
  unfolding Control.read_archs
  read_archs-IsLogged zero cpu_id m = search keeps_rules
  read_archs-IsLogged (suc n) cpu_id m =
      Keeps-bind _ _ (send-IsLogged (Frame.get_cpu_info cpu_id) tt)
        (λ r. read_archs-IsLogged n (cpu_id + 1) (insert cpu_id (read_arch r.arg0) m))

  fetch_config-IsLogged : Keeps IsLogged (Control.fetch_config env)
  unfolding Control.fetch_config
  fetch_config-IsLogged = search (keeps_rules, send-IsLogged, read_archs-IsLogged)

  or_fetch-IsLogged :
      (o : Option Config)
      → Keeps IsLogged (elim o [ some config ↦ pure config | none ↦ Control.fetch_config env ])
  or_fetch-IsLogged none = fetch_config-IsLogged
  or_fetch-IsLogged (some c) = Keeps-pure c

  get_config-IsLogged : Keeps IsLogged (Control.get_config env)
  unfolding Control.get_config
  get_config-IsLogged = Keeps-bind _ _ (Keeps-gets _) or_fetch-IsLogged

  ruleset logged_rules = (keeps_rules, request-IsLogged, send-IsLogged, get_config-IsLogged)

  cpu_count-IsLogged : Keeps IsLogged (Control.cpu_count env)
  unfolding Control.cpu_count
  cpu_count-IsLogged = search logged_rules

  module _ (cpu : ℕ) where
    read_general_loop-IsLogged :
        (m : RegisterMapper) (regs : List ℕ)
        → Keeps IsLogged (Registers.read_general_loop env cpu m regs)
    unfolding Registers.read_general_loop
    read_general_loop-IsLogged m [] = search keeps_rules
    read_general_loop-IsLogged m (reg ∷ regs) =
        let ih = read_general_loop-IsLogged m regs in search logged_rules

    read_general_regs-IsLogged : Keeps IsLogged (Registers.read_general_regs env cpu)
    unfolding Registers.read_general_regs
    read_general_regs-IsLogged = search (logged_rules, read_general_loop-IsLogged)

    write_general_reg-IsLogged :
        (name : String) (value : ℕ)
        → Keeps IsLogged (Registers.write_general_reg env cpu name value)
    unfolding Registers.write_general_reg
    write_general_reg-IsLogged name value = search logged_rules depth 9

    read_pc-IsLogged : Keeps IsLogged (Registers.read_pc env cpu)
    unfolding Registers.read_pc
    read_pc-IsLogged = search logged_rules

    write_pc-IsLogged : (address : ℕ) → Keeps IsLogged (Registers.write_pc env cpu address)
    unfolding Registers.write_pc
    write_pc-IsLogged address = search logged_rules

    read_csr_loop-IsLogged :
        (m : RegisterMapper) (regs : List ℕ)
        → Keeps IsLogged (Registers.read_csr_loop env cpu m regs)
    unfolding Registers.read_csr_loop
    read_csr_loop-IsLogged m [] = search keeps_rules
    read_csr_loop-IsLogged m (reg ∷ regs) =
        let ih = read_csr_loop-IsLogged m regs in search logged_rules

    read_csrs-IsLogged : Keeps IsLogged (Registers.read_csrs env cpu)
    unfolding Registers.read_csrs
    read_csrs-IsLogged = search (logged_rules, read_pc-IsLogged, read_csr_loop-IsLogged) depth 9

    write_named_csr-IsLogged :
        (name : String) (value : ℕ) → Keeps IsLogged (Registers.write_named_csr env cpu name value)
    write_named_csr-IsLogged name value = search logged_rules depth 9

    write_csr-IsLogged :
        (name : String) (value : ℕ) → Keeps IsLogged (Registers.write_csr env cpu name value)
    unfolding Registers.write_csr
    write_csr-IsLogged name value = elim (Bool-cases (name == pc_reg_name)) [
      | inl is_pc ↦ rw is_pc (write_pc-IsLogged value)
      | inr other ↦ rw other (write_named_csr-IsLogged name value)
    ]

  read_chunks-IsLogged :
      (ask : ℕ → Request)
      → ((a : ℕ) → IsOther (ask a))
      → (addresses : List ℕ) → Keeps IsLogged (Memory.read_chunks env ask addresses)
  unfolding Memory.read_chunks
  read_chunks-IsLogged ask other [] = search keeps_rules
  read_chunks-IsLogged ask other (a ∷ addresses) =
      let ih = read_chunks-IsLogged ask other addresses in
      let first = request-IsLogged (ask a) (other a) in search (keeps_rules)

  read_memory-IsLogged :
      (ask : ℕ → Request)
      → ((a : ℕ) → IsOther (ask a))
      → (address length : ℕ) → Keeps IsLogged (Memory.read_memory env ask address length)
  unfolding Memory.read_memory
  read_memory-IsLogged ask other address length =
      let all = read_chunks-IsLogged ask other in search keeps_rules

  pub perform-IsLogged :
      (op : Operation) (t : MsimTarget) → IsLogged t → IsLogged (perform env op t)
  unfolding perform Memory.read_phys_memory Memory.read_virt_memory
  perform-IsLogged cpu_count t h = cpu_count-IsLogged.at t h
  perform-IsLogged resume t h = resume-IsLogged.at t h
  perform-IsLogged pause t h = pause-IsLogged.at t h
  perform-IsLogged terminate t h = terminate-IsLogged.at t h
  perform-IsLogged (step_by cpu count) t h = (step_by-IsLogged cpu count).at t h
  perform-IsLogged (set_bp source line) t h = set_code_bp-IsLogged env source line t h
  perform-IsLogged (remove_bp source line) t h = remove_code_bp-IsLogged env source line t h
  perform-IsLogged (replace_bps source lines) t h = replace_code_bps-IsLogged env source lines t h
  perform-IsLogged (read_general_regs cpu) t h = (read_general_regs-IsLogged cpu).at t h
  perform-IsLogged (read_csrs cpu) t h = (read_csrs-IsLogged cpu).at t h
  perform-IsLogged (read_pc cpu) t h = (read_pc-IsLogged cpu).at t h
  perform-IsLogged (write_general_reg cpu name value) t h =
      (write_general_reg-IsLogged cpu name value).at t h
  perform-IsLogged (write_csr cpu name value) t h = (write_csr-IsLogged cpu name value).at t h
  perform-IsLogged (write_pc cpu address) t h = (write_pc-IsLogged cpu address).at t h
  perform-IsLogged (read_phys_memory address length) t h =
      (read_memory-IsLogged Frame.read_phys_memory (λ a. tt) address length).at t h
  perform-IsLogged (read_virt_memory cpu address length) t h =
      (read_memory-IsLogged (Frame.read_virt_memory cpu) (λ a. tt) address length).at t h

  perform_all-IsLogged :
      (ops : List Operation) (t : MsimTarget) → IsLogged t → IsLogged (perform_all env ops t)
  unfolding perform_all
  perform_all-IsLogged [] t h = h
  perform_all-IsLogged (op ∷ ops) t h =
      perform_all-IsLogged ops (perform env op t) (perform-IsLogged op t h)

pub new-IsLogged : IsLogged new
unfolding contains is_set is_abandoned
new-IsLogged a = refl

-- After any operations of a new target, whatever MSIM answers and the index says, the breakpoint
-- addresses that the target remembers are exactly those that MSIM has acknowledged as set, and neither
-- acknowledged as removed since nor been asked to remove.
bps_addresses_logged :
    (env : Env) (ops : List Operation) (a : ℕ)
    → contains a (perform_all env ops new).bp_store.bps_addresses
      ≡ is_kept a (perform_all env ops new).exchanges
bps_addresses_logged env ops a = perform_all-IsLogged env ops new new-IsLogged a
