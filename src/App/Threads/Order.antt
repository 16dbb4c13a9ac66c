-- ===== src/App/Threads/Order.antt =====
-- What one round of a listening thread may send: nothing, or one message.
use mathlib.Core.List.{append-nil}
use msim_dap.Common.{
  arith, ◌≤◌, ℕ, zero, suc, ◌≡◌, refl, sym, ◌∙◌, Option, none, some, List, [], ◌∷◌, ◌++◌, String,
  length, drop-append,
}
use msim_dap.Common.Results.{Result, ok, err}
use msim_dap.Msim.Frame.{Inbound, response, event, io, parsing, unexpected_eof, other, FrameError}
use msim_dap.Msim.Frame.Codec.{read}
use msim_dap.Msim.Messages.{Event, from_raw, from_frame}
use msim_dap.Msim.Connection.{Channel, Listener, send_to, arm, event_arm, round}
use msim_dap.Debugger.{AdapterError, ListenerError}
use msim_dap.Debugger.Commands.{DapRequest}
use msim_dap.Debugger.EventLoop.{dap_request}
use msim_dap.Adapter.{Dap, DapListener, server_arm, server_round}
use msim_dap.App.Threads.{since}

-- What a round may add to a channel: nothing, or one message.
pub data Sends {A : Type 0} (P : A → Type 0) (before after : Channel A) : Type 0 where
  nothing : after.sent ≡ before.sent → Sends P before after
  one : (a : A) → P a → after.sent ≡ before.sent ++ (a ∷ []) → Sends P before after

send_to-Sends_at :
    {A : Type 0} (P : A → Type 0) (a : A) (sent : List A) (room : ℕ)
    → P a
    → Sends P
        (record { sent = sent; room = room })
        (send_to a (record { sent = sent; room = room })).1
unfolding send_to
send_to-Sends_at P a sent zero h = nothing refl
send_to-Sends_at P a sent (suc room) h = one a h refl

send_to-Sends :
    {A : Type 0} (P : A → Type 0) (a : A) (c : Channel A) → P a → Sends P c (send_to a c).1
send_to-Sends P a c h = send_to-Sends_at P a c.sent c.room h

abbrev pub Any : {A : Type 0} → A → Type 0
Any a = Unit

event_arm-Sends :
    (e : Result FrameError Event) (l : Listener) → Sends Any l.event_tx (event_arm e l).1.event_tx
event_arm-Sends (ok e) l = send_to-Sends Any (ok e) l.event_tx tt
event_arm-Sends (err e) l = send_to-Sends Any (err (from_frame e)) l.event_tx tt

arm-Sends :
    (inbound : Result FrameError Inbound) (l : Listener)
    → Sends Any l.event_tx (arm inbound l).1.event_tx
arm-Sends (ok (response status a b c)) l = nothing refl
arm-Sends (ok (event kind a b c)) l = event_arm-Sends (from_raw kind a b c) l
arm-Sends (err (io unexpected_eof)) l = nothing refl
arm-Sends (err (io other)) l = send_to-Sends Any (err (from_frame (io other))) l.event_tx tt
arm-Sends (err parsing) l = send_to-Sends Any (err (from_frame parsing)) l.event_tx tt

pub round-Sends : (l : Listener) → Sends Any l.event_tx (round l).1.event_tx
unfolding round
round-Sends l =
    let (inbound, stream) = read l.msim_stream in
    arm-Sends inbound (record l { msim_stream = stream })

module _ (dap : Dap) where
  server_arm-Sends :
      (polled : Result String (Option DapRequest)) (l : DapListener dap)
      → Sends Any l.tx (server_arm dap polled l).1.tx
  server_arm-Sends (ok (some req)) l = send_to-Sends Any (ok (dap_request req)) l.tx tt
  server_arm-Sends (ok none) l = nothing refl
  server_arm-Sends (err e) l =
      send_to-Sends Any (err (ListenerError.adapter (AdapterError.server e))) l.tx tt

  pub server_round-Sends : (l : DapListener dap) → Sends Any l.tx (server_round dap l).1.tx
  unfolding server_round
  server_round-Sends l =
      let (polled, server) = dap.poll_request l.server in
      server_arm-Sends polled (record l { server = server })

-- A message that a thread adds is at the end of what it has sent, and is what was sent since.
since-one :
    {A : Type 0} (before after : Channel A) (xs : List A)
    → after.sent ≡ before.sent ++ xs
    → since before after ≡ xs
since-one before after xs h = rw h (drop-append before.sent xs)

since-nothing :
    {A : Type 0} (before after : Channel A) → after.sent ≡ before.sent → since before after ≡ []
since-nothing before after h = since-one before after [] (h ∙ sym (append-nil before.sent))

-- It is one message at most.
pub length-since :
    {A : Type 0} {P : A → Type 0} (before after : Channel A)
    → Sends P before after
    → length (since before after) ≤ 1
length-since before after (nothing h) = rw (since-nothing before after h) (omega arith)
length-since before after (one a p h) = rw (since-one before after (a ∷ []) h) (omega arith)
