-- ===== src/Debugger/Numbered/Runs.antt =====
-- Runs of src/debugger/core.rs: the ids of breakpoints that are given in them.
use msim_dap.Common.{
  ℕ, ◌+◌, ◌<◌, ◌^◌, ◌↔◌, ◌≡◌, refl, sym, ap, ◌∙◌, Option, none, some, List, [], ◌∷◌, ◌++◌, arith,
  nat_eq, int_eq, string_eq, list_eq, pair_eq,
}
use msim_dap.Common.Int.{ℤ}
use msim_dap.Common.Map.{lookup}
use msim_dap.Common.Results.{Result}
use msim_dap.Target.{FilePath}
use msim_dap.Target.Interface.{DebugTarget}
use msim_dap.Debugger.{DebuggerError, ListenerError}
use msim_dap.Debugger.Registries.{new}
use msim_dap.Debugger.Registries.Ids.{
  after, new-IsNumbered, after-IsNumbered, after_old, some_injective,
}
use msim_dap.Debugger.Protocol
use msim_dap.Debugger.Protocol.{
  Debugger, DapEvent, HandlerAction, PostAction, Client, event, success,
}
use msim_dap.Debugger.EventLoop.{DebugEvent, turn, run}
use msim_dap.Debugger.Numbered.Asking.{Gives, Gives-none, Gives-append}
use msim_dap.Debugger.Numbered.Turns.{ids_for, ids_for_all, turn-Gives}

module _ (T : DebugTarget) (client : Client) where
  -- What a run comes to by what a turn returned.
  abbrev Outcome : Type 0
  Outcome = Result DebuggerError (Unit {0}) × Debugger T.State

  abbrev rest : Option (Result DebuggerError (Unit {0})) → Debugger T.State → Outcome → Outcome
  rest out d later = elim out [ none ↦ later | some result ↦ (result, d) ]

  rest-Gives :
      (n : ℕ) (out : Option (Result DebuggerError (Unit {0}))) (d : Debugger T.State)
      (later : Outcome)
      → Gives n d.bp_registry later.1.bp_registry
      → Gives n d.bp_registry (rest out d later).1.bp_registry
  rest-Gives n none d later h = h
  rest-Gives n (some result) d later h = Gives-none n _ _ refl

  rest-extends :
      (n : ℕ) (out : Option (Result DebuggerError (Unit {0}))) (d : Debugger T.State)
      (later longer : Outcome)
      → Gives n later.1.bp_registry longer.1.bp_registry
      → Gives n (rest out d later).1.bp_registry (rest out d longer).1.bp_registry
  rest-extends n none d later longer h = h
  rest-extends n (some result) d later longer h = Gives-none n _ _ refl

  run-Gives :
      (messages : List (Result ListenerError DebugEvent)) (d : Debugger T.State)
      → Gives (ids_for_all messages) d.bp_registry (run T client messages d).1.bp_registry
  unfolding run
  run-Gives [] d = Gives-none 0 _ _ refl
  run-Gives (message ∷ messages) d =
      let (out, d') = turn T client message d in
      Gives-append (ids_for message) (ids_for_all messages) _ _ _ (turn-Gives T client message d) (
        rest-Gives (ids_for_all messages) out d' (run T client messages d') (run-Gives messages d'))

  -- What a run gives when it receives more.
  run-extends :
      (messages later : List (Result ListenerError DebugEvent)) (d : Debugger T.State)
      → Gives
          (ids_for_all later)
          (run T client messages d).1.bp_registry
          (run T client (messages ++ later) d).1.bp_registry
  unfolding run
  run-extends [] later d = run-Gives later d
  run-extends (message ∷ messages) later d =
      let (out, d') = turn T client message d in
      rest-extends (ids_for_all later) out d' (run T client messages d')
        (run T client (messages ++ later) d') (run-extends messages later d')

  -- Whatever a run receives, with fewer than 2^32 breakpoints in requests and stops of CPUs in all:
  -- the id that it has given to a place by some time, and the id that it has given to a place by
  -- any later time, are the same exactly if the places are.
  pub run_ids :
      (messages later : List (Result ListenerError DebugEvent)) (t : T.State)
      (place place' : FilePath × ℤ) (id id' : ℕ)
      → ids_for_all messages + ids_for_all later < 2 ^ 32
      → lookup place (run T client messages (Protocol.new t)).1.bp_registry.ids ≡ some id
      → lookup place' (run T client (messages ++ later) (Protocol.new t)).1.bp_registry.ids
        ≡ some id'
      → (id ≡ id') ↔ (place ≡ place')
  run_ids messages later t place place' id id' room given given' =
      let (ps, few, p) = run-Gives messages (Protocol.new t) in
      let (qs, few', q) = run-extends messages later (Protocol.new t) in
      let (m, total, first) = after-IsNumbered 0 ps new (omega (arith, few)) new-IsNumbered in
      let (k, _, second) =
        after-IsNumbered m qs (after ps new) (omega (arith, few, few', total)) first in
      let old =
        after_old qs (after ps new) place id (ap (λ r. lookup place r.ids) (sym p) ∙ given) in
      let new_one = ap (λ r. lookup place' r.ids) (sym (q ∙ ap (after qs) p)) ∙ given' in
      (
        λ same_ids. second.distinct place place' id old (new_one ∙ ap (λ i. some i) (sym same_ids)),
        λ same_place.
            some_injective
              (sym old ∙ ap (λ x. lookup x (after qs (after ps new)).ids) same_place ∙ new_one),
      )
