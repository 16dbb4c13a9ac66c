-- ===== src/Tests/App.antt =====
-- Whole runs of src/lib.rs: how they start, and the threads in one of their orders.
use msim_dap.Common.{
  ℕ, ◌+◌, ◌*◌, ◌≤◌, ◌≡◌, refl, arith, true, false, Option, none, some, List, [], ◌∷◌, ◌++◌, String,
  length, take,
}
use msim_dap.Common.Int.{pos}
use msim_dap.Common.Results.{Result, ok, err}
use msim_dap.Msim.Frame.{
  ResponseStatus, EventKind, event, unexpected_eof, other, Request, resume, step,
}
use msim_dap.Msim.Frame.Replies.{inbound_bytes}
use msim_dap.Msim.Messages.{RawResponse}
use msim_dap.Msim.Connection.{send_to, Listener}
use msim_dap.Msim.Connection.Streams.{listener}
use msim_dap.Msim.Tcp.{connect, connect_and_post, new, answer, after_log}
use msim_dap.Msim.Tcp.Conversation.{requests, IsWritten, polite, answer-polite}
use msim_dap.Net.{TcpStream, Net}
use msim_dap.Target.{Exchange}
use msim_dap.Target.Interface.{msim_target}
use msim_dap.Debugger.Commands.{DapRequest}
use msim_dap.Debugger.Protocol.{Message}
use msim_dap.Debugger.EventLoop.{run, dap_request}
use msim_dap.Adapter.{DebugEventResult, server_round, Dap, DapListener, post_server_background}
use msim_dap.Adapter.Forwarding.{
  failed, IsPolled, ends, polls, messages, post_server_background_lem,
}
use msim_dap.App.{Config, Mode, Outside}
use msim_dap.App
use msim_dap.App.Starting.{Ran, idle, run_lem}
use msim_dap.App.Threads.{
  System, start, Reach, here, later, dap_round, msim_round, after_dap_round, after_msim_round,
  after_turn, turns,
}
use msim_dap.App.Threads.Handled.{outcome, Reach-Transcript}
use msim_dap.Debugger.EventLoop.Disconnecting.{
  quit, farewell, closing, disconnected, run-disconnected,
}
use msim_dap.Debugger.EventLoop.Transcript.{Transcript}
use msim_dap.App.Threads.Ending.{Goes, Reach-ends}
use msim_dap.Tests.Targets.{env}
use msim_dap.Tests.Debugger.{editor, fresh, next_request}

-- A library whose server has its requests in a list, and fails after them.
abbrev poll : List DapRequest → Result String (Option DapRequest) × List DapRequest
poll [] = (err "broken pipe", [])
poll (req ∷ reqs) = (ok (some req), reqs)

abbrev pub dap : Dap
dap = record {
  Input = List DapRequest;
  Output = List Message;
  server = λ io. (next_request ∷ [], []);
  poll_request = poll;
  send = λ message sent. (ok tt, message ∷ sent);
}

abbrev two : List DapRequest
two = next_request ∷ quit (pos 8) ∷ []

two-IsPolled : IsPolled dap two two (failed "broken pipe")
two-IsPolled = polls refl (polls refl (ends refl))

post_server_background_lem_example :
    (l : DapListener dap) × (post_server_background dap 3
        (record { server = two; tx = record { sent = []; room = 2 } })
      ≡ (true, l))
    × (l.tx.sent ≡ [] ++ take 2 (messages two (failed "broken pipe")))
post_server_background_lem_example =
    post_server_background_lem dap two (failed "broken pipe") two [] 2 3 two-IsPolled (omega arith)

abbrev socket : TcpStream
socket = record {
  reader = record { input = []; fault = unexpected_eof };
  writer = record { sent = []; room = 100; fault = other; later = [] };
  nodelay = false;
  read_timeout = some 1;
  write_timeout = none;
}

abbrev pub net : Net
net = record {
  bind = λ port. ok 1;
  accept = λ listener. ok socket;
  connect = λ port. ok socket;
  nodelay_fault = none;
  read_timeout_fault = none;
  write_timeout_fault = none;
  clone_fault = none;
}

abbrev pub ready : TcpStream
ready = record socket { nodelay = true; read_timeout = none; write_timeout = some 5 }

pub connected : connect_and_post net 10505 ≡ ok (new ready [], ready)
unfolding connect_and_post connect
connected = refl

abbrev replying : List Exchange → Request → RawResponse
replying log r = record { status = ResponseStatus.ok; arg0 = length log; arg1 = 0; arg2 = 0 }

abbrev earlier : List Exchange
earlier = (step 1 7, ok (replying [] (step 1 7))) ∷ []

answer-polite_example :
    (answer (polite replying) (new ready []) earlier resume ≡ ok (replying earlier resume))
    × (bytes : List ℕ) × ((after_log
          (polite replying)
          (new ready [])
          ((resume, ok (replying earlier resume)) ∷ earlier)).stream.sent
        ≡ [] ++ bytes)
    × IsWritten (resume ∷ requests earlier) bytes
answer-polite_example =
    answer-polite replying ready.writer earlier resume (omega arith, tt) tt (omega arith)

abbrev pub outside : Outside
outside = record {
  dap = dap;
  net = net;
  files = record {
    File = List ℕ;
    DwarfSections = List ℕ;
    read = λ path. ok [];
    parse_file = λ bytes. ok bytes;
    is_little_endian = λ file. true;
    section_by_name = λ file name. none;
    load = λ load_section. load_section ".debug_line";
    units = λ endian sections. [];
  };
  encode = λ bytes. bytes;
  arrivals = polite replying;
  resp_room = 9;
  dap_room = 9;
  msim_room = 9;
  file_order = λ files. files;
  line_order = λ lines. lines;
}

abbrev config : Config
config = record { mode = Mode.tcp 10506; msim_port = 10505; kernel_path = "kernel.raw" ∷ [] }

run_lem_example :
    Ran outside config []
      (App.run outside config [] (idle outside)).0
      (App.run outside config [] (idle outside)).1
run_lem_example = run_lem outside config []

-- The threads over two requests and one event.
abbrev dap_thread : DapListener dap
dap_thread = record { server = two; tx = record { sent = []; room = 9 } }

abbrev msim_thread : Listener
msim_thread =
    listener (inbound_bytes (event EventKind.terminated 0 0 0)) unexpected_eof
      (record { sent = []; room = 9 }) (record { sent = []; room = 9 })

abbrev Here : Type 0
Here = System dap (msim_target env) editor

abbrev first : Here
first = start dap (msim_target env) editor dap_thread msim_thread fresh

abbrev second : Here
second = after_dap_round dap (msim_target env) editor first

one_queued : second.queue ≡ ok (dap_request next_request) ∷ []
unfolding server_round send_to
one_queued = refl

abbrev third : Here
third = after_turn dap (msim_target env) editor (ok (dap_request next_request)) [] second

abbrev fourth : Here
fourth = after_msim_round dap (msim_target env) editor third

three_turns : Reach dap (msim_target env) editor first 3 fourth
three_turns =
    later (later (later here (dap_round refl)) (turns _ _ refl one_queued)) (msim_round refl)

Reach-ends_example :
    (3 ≤ 2 * length two + 2 * length msim_thread.msim_stream.input + 5)
    × Goes dap (msim_target env) editor fourth
Reach-ends_example =
    Reach-ends dap (msim_target env) editor dap_thread msim_thread fresh two (failed "broken pipe")
      3 fourth two-IsPolled three_turns

Reach-Transcript_example :
    Transcript fresh.sent fourth.received
      (outcome (msim_target env) editor fourth.finished)
      fourth.debugger.sent
Reach-Transcript_example =
    Reach-Transcript (msim_target env) editor dap fresh (λ log m. refl) dap_thread msim_thread
      three_turns

-- A step, and then the end of the session.
abbrev received : List DebugEventResult
received = messages two (failed "broken pipe")

run-disconnected_example :
    run (msim_target env) editor (ok (dap_request (quit (pos 8))) ∷ received) fresh ≡ (
      closing (editor.deliver fresh.sent (farewell (pos 8))),
      disconnected env editor (pos 8) fresh,
    )
run-disconnected_example = run-disconnected env editor (pos 8) received fresh
