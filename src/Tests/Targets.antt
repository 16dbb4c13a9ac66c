-- ===== src/Tests/Targets.antt =====
-- The target of src/target/msim_target.rs over a small simulated MSIM.
use msim_dap.Common.{ap, true, false}
use msim_dap.Common.Map.{collect, collect_into, lookup, insert, remove, set_insert, set_remove}
use msim_dap.Msim.Messages.{to_result}
use msim_dap.Target.{MsimTarget, request, send, send_raw}
use msim_dap.Target.Breakpoints.{
  or_default, replace_code_bps, replace_lines, remove_missing, remove_code_bp, set_code_bp, add_bp,
  drop_entry, remove_position, drop_address, replace_line, drop_file, store_file,
}
use msim_dap.Target.Breakpoints.Outcomes.{IsAnswered, replace_code_bps-IsAnswered}
use msim_dap.Common.{
  ℕ, ◌+◌, ◌%◌, ◌≡◌, refl, none, some, [], ◌∷◌, arith, map, range, nat_eq, int_eq, string_eq,
  list_eq,
}
use msim_dap.Common.Int.{ℤ, pos, negsuc}
use msim_dap.Target.Breakpoints.Acknowledged.{Acknowledges, bps_of}
use msim_dap.Target.Breakpoints.Standing.{IsConsistent}
use msim_dap.Target.Breakpoints.Replacing.{
  IsReplaced, replace_code_bps-IsReplaced, replace_code_bps-IsConsistent,
}
use msim_dap.Common.Map.{contains}
use msim_dap.Common.Results.{ok}
use msim_dap.Msim.Frame
use msim_dap.Msim.Frame.{Request, ResponseStatus, CpuArch}
use msim_dap.Msim.Messages.{RawResponse}
use msim_dap.Target.{FilePath, Env, DebugIndex, new}
use msim_dap.Target.Memory.{read_phys_memory, read_virt_memory}
use msim_dap.Target.Memory.Contents.{Serves, chunk_at, read_memory_contents, read_memory_wraps}

-- The byte at an address of the simulated memory.
abbrev pub mem : ℕ → ℕ
mem a = a % 256

abbrev pub plain : ℕ → RawResponse
plain n = record { status = ResponseStatus.ok; arg0 = n; arg1 = 0; arg2 = 0 }

-- Two MIPS processors, and every request acknowledged.
abbrev pub msim : Request → RawResponse
msim (Frame.read_phys_memory a) = chunk_at mem a
msim (Frame.read_virt_memory cpu a) = chunk_at mem a
msim Frame.get_config = plain 2
msim (Frame.get_cpu_info cpu) = plain 1
msim _ = plain 0

-- Line `n` of any file stands at address 4 * n.
abbrev pub lines_of : DebugIndex
lines_of = record {
  get_address = λ path line. elim line [ pos n ↦ some (n + n + n + n) | _ ↦ none ];
  resolve_address = λ a. none;
}

abbrev pub env : Env
env = record { answer = λ log q. ok (msim q); index = lines_of; order = λ m. m }

pub mem-Serves : Serves env Frame.read_phys_memory mem
mem-Serves = (λ a. omega arith, λ log a. refl)

pub virt-Serves : (cpu : ℕ) → Serves env (Frame.read_virt_memory cpu) mem
virt-Serves cpu = (λ a. omega arith, λ log a. refl)

read_memory_contents_example :
    ((read_phys_memory env 250 30 new).0 ≡ ok (map mem (range 250 30)))
    × ((read_virt_memory env 1 250 30 new).0 ≡ ok (map mem (range 250 30)))
read_memory_contents_example =
    read_memory_contents env 1 mem mem mem-Serves (virt-Serves 1) 250 30 new (omega arith)

read_memory_wraps_example :
    (read_phys_memory env 0xffff_ffff_ffff_fff0 32 new ≡ (ok [], new))
    × (read_virt_memory env 0 0xffff_ffff_ffff_fff0 32 new ≡ (ok [], new))
read_memory_wraps_example =
    read_memory_wraps env 0 0xffff_ffff_ffff_fff0 32 new (omega arith) (omega arith) (omega arith)

abbrev pub main_c : FilePath
main_c = "/" ∷ "kernel" ∷ "main.c" ∷ []

-- Lines 1 and 2 share an address, as lines with one statement may.
abbrev shared : Env
shared = record {
  answer = env.answer;
  index = record {
    get_address = λ path line. elim line [ pos n ↦ some 64 | _ ↦ none ];
    resolve_address = λ a. none;
  };
  order = env.order;
}

abbrev both_set : MsimTarget
both_set = (replace_code_bps shared main_c (pos 1 ∷ pos 2 ∷ []) new).1

-- Keeping line 1 alone is answered by a success, and its breakpoint is gone.
shared_address :
    ((replace_code_bps shared main_c (pos 1 ∷ []) both_set).0 ≡ ok tt ∷ [])
    × (contains 64 both_set.bp_store.bps_addresses ≡ true)
    × (contains 64 (replace_code_bps shared main_c (pos 1 ∷ []) both_set).1.bp_store.bps_addresses
        ≡ false)
unfolding replace_code_bps replace_lines remove_missing remove_code_bp set_code_bp request send
    send_raw to_result collect collect_into lookup insert remove contains set_insert set_remove
    add_bp drop_entry remove_position drop_address replace_line drop_file store_file
shared_address = (refl, refl, refl)

replace_code_bps-IsAnswered_example :
    IsAnswered env main_c
      (collect (or_default (bps_of main_c new)))
      (pos 6 ∷ pos 7 ∷ [])
      (replace_code_bps env main_c (pos 6 ∷ pos 7 ∷ []) new).0
replace_code_bps-IsAnswered_example =
    replace_code_bps-IsAnswered env main_c (pos 6 ∷ pos 7 ∷ []) new

pub msim-Acknowledges : Acknowledges env
msim-Acknowledges log (Frame.read_phys_memory a) = refl
msim-Acknowledges log (Frame.read_virt_memory cpu a) = refl
msim-Acknowledges log Frame.get_config = refl
msim-Acknowledges log (Frame.get_cpu_info cpu) = refl
msim-Acknowledges log _ = refl

pub lines_of-distinct :
    (line line' : ℤ) (a : ℕ)
    → lines_of.get_address main_c line ≡ some a
    → lines_of.get_address main_c line' ≡ some a
    → line ≡ line'
lines_of-distinct (pos m) (pos n) a h h' = ap pos (ground (arith, h, h'))
lines_of-distinct (pos m) (negsuc n) a h h' = absurd (ground (arith, h'))
lines_of-distinct (negsuc m) line' a h h' = absurd (ground (arith, h))

new-IsConsistent : IsConsistent env main_c new
unfolding lookup
new-IsConsistent = record { indexed = tt; armed = tt }

-- With breakpoints on lines 5 and 6.
abbrev five_six : MsimTarget
five_six = (replace_code_bps env main_c (pos 5 ∷ pos 6 ∷ []) new).1

five_six-IsConsistent : IsConsistent env main_c five_six
five_six-IsConsistent =
    replace_code_bps-IsConsistent env main_c msim-Acknowledges (λ m line. refl) lines_of-distinct
      (pos 5 ∷ pos 6 ∷ []) new new-IsConsistent

replace_code_bps-IsReplaced_example :
    IsReplaced env main_c
      (pos 6 ∷ negsuc 0 ∷ pos 7 ∷ [])
      five_six
      (replace_code_bps env main_c (pos 6 ∷ negsuc 0 ∷ pos 7 ∷ []) five_six).0
      (replace_code_bps env main_c (pos 6 ∷ negsuc 0 ∷ pos 7 ∷ []) five_six).1
replace_code_bps-IsReplaced_example =
    replace_code_bps-IsReplaced env main_c msim-Acknowledges (λ m line. refl) lines_of-distinct
      (pos 6 ∷ negsuc 0 ∷ pos 7 ∷ []) five_six five_six-IsConsistent
