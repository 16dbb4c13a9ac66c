-- ===== src/Msim/Frame/Replies.antt =====
-- src/msim/frame.rs, `Inbound::read`, against MSIM's side of the protocol: writing a response or an
-- event in the layout that the comments describe.
use mathlib.Core.List.{append_assoc}
use msim_dap.Common.{
  ℕ, ◌≤◌, ◌<◌, ◌≡◌, refl, ap, ◌∙◌, List, [], ◌∷◌, ◌++◌, arith, nat_eq, length, take, drop,
  length-append, length-drop, take-append, drop-append, drop_all,
}
use msim_dap.Common.Int.{IsU64}
use msim_dap.Common.Bytes.{be_bytes, be_word, length-be_bytes, be_word-be_bytes}
use msim_dap.Common.Results.{ok, err}
use msim_dap.Msim.Frame.{
  inbound_frame_size, ResponseStatus, EventKind, Inbound, response, event, io, IoError,
}
use msim_dap.Msim.Frame.Stream.{Reader, read_exact}
use msim_dap.Msim.Frame.Codec.{read, read_u8, read_u64, inbound, read_status, read_event_kind}

-- The bytes by which MSIM names a status and an event.
unfoldable pub status_byte : ResponseStatus → ℕ
status_byte ResponseStatus.ok = 0x01
status_byte ResponseStatus.unspecified_error = 0x02
status_byte ResponseStatus.unsupported_request_error = 0x03

unfoldable pub event_byte : EventKind → ℕ
event_byte EventKind.terminated = 0x01
event_byte EventKind.stopped_at = 0x02

-- The category, the kind and three arguments of eight bytes.
unfoldable pub inbound_layout : ℕ → ℕ → ℕ → ℕ → ℕ → List ℕ
inbound_layout category kind arg0 arg1 arg2 =
    category ∷ kind ∷ (be_bytes 8 arg0 ++ (be_bytes 8 arg1 ++ be_bytes 8 arg2))

unfoldable pub inbound_bytes : Inbound → List ℕ
unfolding inbound_layout status_byte event_byte
inbound_bytes (response status arg0 arg1 arg2) =
    inbound_layout 0x01 (status_byte status) arg0 arg1 arg2
inbound_bytes (event kind arg0 arg1 arg2) = inbound_layout 0x02 (event_byte kind) arg0 arg1 arg2

abbrev pub IsInbound : Inbound → Type 0
IsInbound (response status arg0 arg1 arg2) = IsU64 arg0 × IsU64 arg1 × IsU64 arg2
IsInbound (event kind arg0 arg1 arg2) = IsU64 arg0 × IsU64 arg1 × IsU64 arg2

abbrev at_input : Reader → List ℕ → Reader
at_input r input = record r { input = input }

module _ (fault : IoError) where
  abbrev reader : List ℕ → Reader
  reader input = record { input = input; fault = fault }

  read_u8_lem : (b : ℕ) (rest : List ℕ) → read_u8 (reader (b ∷ rest)) ≡ (ok b, reader rest)
  unfolding read_u8 read_exact be_word
  read_u8_lem b rest = ground arith

  read_exact-append :
      (bytes rest : List ℕ)
      → read_exact (length bytes) (reader (bytes ++ rest)) ≡ (ok bytes, reader rest)
  unfolding read_exact
  read_exact-append bytes rest =
      ground (arith, length-append bytes rest, take-append bytes rest, drop-append bytes rest)

  read_u64_lem :
      (w : ℕ) (rest : List ℕ)
      → IsU64 w
      → read_u64 (reader (be_bytes 8 w ++ rest)) ≡ (ok w, reader rest)
  unfolding read_u64
  read_u64_lem w rest h =
      ground
        (arith, read_exact-append (be_bytes 8 w) rest, length-be_bytes 8 w, be_word-be_bytes w h)

  pub read_layout :
      (category kind arg0 arg1 arg2 : ℕ) (rest : List ℕ)
      → IsU64 arg0
      → IsU64 arg1
      → IsU64 arg2
      → read (reader (inbound_layout category kind arg0 arg1 arg2 ++ rest))
        ≡ (inbound category kind arg0 arg1 arg2, reader rest)
  unfolding read inbound_layout
  read_layout category kind arg0 arg1 arg2 rest h0 h1 h2 =
      rw (append_assoc, append_assoc)
        (rw (read_u8_lem, read_u8_lem, read_u64_lem, h0, read_u64_lem, h1, read_u64_lem, h2))

status-byte : (status : ResponseStatus) → read_status (status_byte status) ≡ ok status
unfolding read_status status_byte
status-byte ResponseStatus.ok = refl
status-byte _ = refl

event-byte : (kind : EventKind) → read_event_kind (event_byte kind) ≡ ok kind
unfolding read_event_kind event_byte
event-byte EventKind.terminated = refl
event-byte _ = refl

inbound-status :
    (status : ResponseStatus) (arg0 arg1 arg2 : ℕ)
    → inbound 0x01 (status_byte status) arg0 arg1 arg2 ≡ ok (response status arg0 arg1 arg2)
unfolding inbound
inbound-status status arg0 arg1 arg2 = rw status-byte

inbound-kind :
    (kind : EventKind) (arg0 arg1 arg2 : ℕ)
    → inbound 0x02 (event_byte kind) arg0 arg1 arg2 ≡ ok (event kind arg0 arg1 arg2)
unfolding inbound
inbound-kind kind arg0 arg1 arg2 = rw event-byte

-- What MSIM writes for a response or an event with `u64` arguments is read back as that message, and
-- the bytes that follow it, whatever they are, stay unread.
pub read_round_trip :
    (i : Inbound) (rest : List ℕ) (fault : IoError)
    → IsInbound i
    → read (record { input = inbound_bytes i ++ rest; fault = fault })
      ≡ (ok i, record { input = rest; fault = fault })
unfolding inbound_bytes
read_round_trip (response status a b c) rest fault (ha, hb, hc) =
    read_layout fault 0x01 (status_byte status) a b c rest ha hb hc
    ∙ ap (λ r. (r, reader fault rest)) (inbound-status status a b c)
read_round_trip (event kind a b c) rest fault (ha, hb, hc) =
    read_layout fault 0x02 (event_byte kind) a b c rest ha hb hc
    ∙ ap (λ r. (r, reader fault rest)) (inbound-kind kind a b c)

module _ (fault : IoError) (input : List ℕ) where
  read_u8_cut : length input < 1 → read_u8 (reader fault input) ≡ (err (io fault), reader fault [])
  unfolding read_u8 read_exact
  read_u8_cut h = ground (arith, drop_all 1 input)

  read_u8_whole :
      1 ≤ length input
      → read_u8 (reader fault input) ≡ (ok (be_word 0 (take 1 input)), reader fault (drop 1 input))
  unfolding read_u8 read_exact
  read_u8_whole h = ground arith

  read_u64_cut :
      length input < 8 → read_u64 (reader fault input) ≡ (err (io fault), reader fault [])
  unfolding read_u64 read_exact
  read_u64_cut h = ground (arith, drop_all 8 input)

  read_u64_whole :
      8 ≤ length input
      → read_u64 (reader fault input) ≡ (ok (be_word 0 (take 8 input)), reader fault (drop 8 input))
  unfolding read_u64 read_exact
  read_u64_whole h = ground arith

-- A stream that ends inside a frame gives its own error, not a parsing error, and nothing is left.
pub read_cut :
    (input : List ℕ) (fault : IoError)
    → length input < inbound_frame_size
    → read (record { input = input; fault = fault })
      ≡ (err (io fault), record { input = []; fault = fault })
unfolding read
read_cut input fault h =
    let i1 = drop 1 input in
    let i2 = drop 1 i1 in
    let i3 = drop 8 i2 in
    let i4 = drop 8 i3 in
    ground (
      arith,
      read_u8_cut fault input,
      read_u8_whole fault input,
      length-drop 1 input,
      read_u8_cut fault i1,
      read_u8_whole fault i1,
      length-drop 1 i1,
      read_u64_cut fault i2,
      read_u64_whole fault i2,
      length-drop 8 i2,
      read_u64_cut fault i3,
      read_u64_whole fault i3,
      length-drop 8 i3,
      read_u64_cut fault i4,
    )
