-- ===== src/Target/Sent.antt =====
-- src/target/msim_target.rs: the requests that a target sends have fields of 64 bits, and what such
-- requests keep of the exchanges, every method keeps. Here are sending and the configuration.
pub mod Breakpoints
pub mod Registers
pub mod Memory
use msim_dap.Common.{
  ℕ, zero, suc, ◌+◌, ◌^◌, ◌≤◌, ◌<◌, ◌≡◌, refl, ap, Option, none, some, List, [], ◌∷◌, arith, All,
  nat_eq,
}
use msim_dap.Common.Int.{ℤ, IsU64}
use msim_dap.Common.Map.{insert}
use msim_dap.Common.Results.{Result, ok, err, map_err}
use msim_dap.Common.Exec.{pure, modify}
use msim_dap.Common.Ensures.{
  OnOk, Anything, Ensures, Ensures-pure, Ensures-lift, Ensures-gets, Ensures-bind, OnOk-Anything,
  ensures_rules,
}
use msim_dap.Msim.Frame.{Request, CpuArch, resume, pause, terminate, step, get_config, get_cpu_info}
use msim_dap.Msim.Frame.Codec.{read_arch}
use msim_dap.Msim.Frame.Meaning.{IsRequest}
use msim_dap.Msim.Messages.{MsimError, RawResponse}
use msim_dap.Msim.Tcp.Conversation.{requests}
use msim_dap.Target.{
  FilePath, TargetError, from_msim, DebugIndex, Exchange, Env, Config, MsimTarget, send_raw, send,
  request,
}
use msim_dap.Target.Control

-- A property of the exchanges, as one of the target.
abbrev pub Holds : (List Exchange → Type 0) → MsimTarget → Type 0
Holds P t = P t.exchanges

-- It stays when a request with 64-bit fields is sent.
abbrev pub Grows : Env → (List Exchange → Type 0) → Type 0
Grows env P =
    (log : List Exchange) (q : Request) → IsRequest q → P log → P ((q, env.answer log q) ∷ log)

-- Replies and the index give 64-bit values.
abbrev pub AnswersWords : (List Exchange → Request → Result MsimError RawResponse) → Type 0
AnswersWords answer =
    (log : List Exchange) (q : Request) (r : RawResponse) → answer log q ≡ ok r → IsU64 r.arg0

abbrev pub HasWords : DebugIndex → Type 0
HasWords index =
    (source : FilePath) (line : ℤ) (a : ℕ) → index.get_address source line ≡ some a → IsU64 a

abbrev pub IsWordReply : RawResponse → Type 0
IsWordReply r = IsU64 r.arg0

OnOk-map_err :
    {E F A : Type 0} (Q : A → Type 0) (f : E → F) (r : Result E A)
    → ((a : A) → r ≡ ok a → Q a)
    → OnOk Q (map_err f r)
OnOk-map_err Q f (ok a) h = h a refl
OnOk-map_err Q f (err e) h = tt

module _ (env : Env) (replies : AnswersWords env.answer) (P : List Exchange → Type 0)
    (grows : Grows env P) where
  pub send-Holds : (q : Request) → IsRequest q → Ensures (Holds P) IsWordReply (send env q)
  unfolding send send_raw
  send-Holds q h = record {
    at = λ t w. (
      grows t.exchanges q h w,
      OnOk-map_err IsWordReply from_msim (env.answer t.exchanges q) (replies t.exchanges q),
    );
  }

  pub request-Holds : (q : Request) → IsRequest q → Ensures (Holds P) Anything (request env q)
  unfolding request
  request-Holds q h =
      Ensures-bind IsWordReply Anything _ _ (send-Holds q h) (λ r _. search ensures_rules)

  pub resume-Holds : Ensures (Holds P) Anything (Control.resume env)
  unfolding Control.resume
  resume-Holds = search (ensures_rules, request-Holds)

  pub pause-Holds : Ensures (Holds P) Anything (Control.pause env)
  unfolding Control.pause
  pause-Holds = search (ensures_rules, request-Holds)

  pub terminate-Holds : Ensures (Holds P) Anything (Control.terminate env)
  unfolding Control.terminate send_raw
  terminate-Holds = record { at = λ t w. (grows t.exchanges terminate tt w, OnOk-Anything _) }

  pub step_by-Holds :
      (cpu count : ℕ)
      → IsU64 cpu
      → IsU64 count
      → Ensures (Holds P) Anything (Control.step_by env cpu count)
  unfolding Control.step_by
  step_by-Holds cpu count h n =
      let first = request-Holds (step cpu count) (h, n) in search (ensures_rules, resume-Holds)

  read_archs-Holds :
      (n cpu_id : ℕ) (m : List (ℕ × CpuArch))
      → cpu_id + n ≤ 2 ^ 64
      → Ensures (Holds P) Anything (Control.read_archs env n cpu_id m)
  unfolding Control.read_archs
  read_archs-Holds zero cpu_id m h = search ensures_rules
  read_archs-Holds (suc n) cpu_id m h =
      Ensures-bind IsWordReply Anything _ _ (send-Holds (get_cpu_info cpu_id) (omega arith))
        (λ r _. read_archs-Holds n (cpu_id + 1) (insert cpu_id (read_arch r.arg0) m) (omega arith))

  fetch_config-Holds : Ensures (Holds P) Anything (Control.fetch_config env)
  unfolding Control.fetch_config
  fetch_config-Holds = Ensures-bind IsWordReply Anything _ _ (send-Holds get_config tt) (λ r h.
      Ensures-bind Anything Anything _ _ (read_archs-Holds r.arg0 0 [] (omega (arith, h)))
        (λ m _. record { at = λ t w. (w, tt) }))

  or_fetch-Holds :
      (o : Option Config)
      → Ensures
          (Holds P)
          Anything
          (elim o [ some config ↦ pure config | none ↦ Control.fetch_config env ])
  or_fetch-Holds none = fetch_config-Holds
  or_fetch-Holds (some c) = Ensures-pure Anything c tt

  pub get_config-Holds : Ensures (Holds P) Anything (Control.get_config env)
  unfolding Control.get_config
  get_config-Holds =
      Ensures-bind Anything Anything _ _ (Ensures-gets _) (λ cached _. or_fetch-Holds cached)

  pub cpu_count-Holds : Ensures (Holds P) Anything (Control.cpu_count env)
  unfolding Control.cpu_count
  cpu_count-Holds = search (ensures_rules, get_config-Holds)
