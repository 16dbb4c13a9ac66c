-- ===== src/Msim/Frame/Requests.antt =====
-- src/msim/frame.rs, `Request::write`, against MSIM's side of the protocol: reading a request in the
-- layout that the comments describe.
use mathlib.Core.List.{append_assoc}
use mathlib.Core.Path.{fun_ext}
use msim_dap.Common.{
  ℕ, ◌-◌, ◌≤◌, ◌<◌, ◌≡◌, refl, ap, ◌∙◌, Option, none, some, List, [], ◌∷◌, ◌++◌, arith,
  if◌then◌else◌, ◌==◌, nat_eq, length, take, drop, length-append, take-append_le, take-append_ge,
}
use msim_dap.Common.Int.{IsU64}
use msim_dap.Common.Bytes.{be_bytes, be_word, be_word-be_bytes}
use msim_dap.Common.Results.{ok, err}
use msim_dap.Common.Exec.{pure, ◌>>◌}
use msim_dap.Msim.Frame.{outbound_frame_size, Request, io}
use msim_dap.Msim.Frame.Stream.{Writer, failed, write_all}
use msim_dap.Msim.Frame.Meaning.{request_of, IsRequest, request_of-fields, fields-IsU64}
use msim_dap.Msim.Frame.Codec.{fields, write, write_fields}

-- The layout of a request: the kind in one byte, then three arguments of eight bytes each.
unfoldable pub request_bytes : ℕ × ℕ × ℕ × ℕ → List ℕ
request_bytes (kind, arg0, arg1, arg2) =
    kind ∷ (be_bytes 8 arg0 ++ (be_bytes 8 arg1 ++ be_bytes 8 arg2))

write_all_fits :
    (bytes : List ℕ) (w : Writer) (n : ℕ)
    → length bytes ≡ n
    → n ≤ w.room
    → write_all bytes w ≡ (ok tt, record w { sent = w.sent ++ bytes; room = w.room - n })
unfolding write_all
write_all_fits bytes w n e h = ground arith

write_all_cut :
    (bytes : List ℕ) (w : Writer) (n : ℕ)
    → length bytes ≡ n
    → w.room < n
    → write_all bytes w
      ≡ (err (io w.fault), failed (record w { sent = w.sent ++ take w.room bytes }))
unfolding write_all
write_all_cut bytes w n e h = ground arith

-- Two writes one after the other are one write of the bytes of both, also where the stream fails.
write_all-append :
    (a b : List ℕ) (w : Writer) → (write_all a >> write_all b) w ≡ write_all (a ++ b) w
unfolding write_all
write_all-append a b w = ground (
  arith,
  length-append a b,
  append_assoc w.sent a b,
  take-append_le w.room a b,
  take-append_ge w.room a b,
  append_assoc w.sent a (take (w.room - length a) b),
)

write_all-pure : (a : List ℕ) (w : Writer) → (write_all a >> pure tt) w ≡ write_all a w
unfolding write_all
write_all-pure a w = ground arith

write_fields_lem :
    (kind arg0 arg1 arg2 : ℕ) (w : Writer)
    → write_fields (kind, arg0, arg1, arg2) w ≡ write_all (request_bytes (kind, arg0, arg1, arg2)) w
unfolding write_fields request_bytes
write_fields_lem kind arg0 arg1 arg2 w =
    let a = be_bytes 8 arg0 in
    let b = be_bytes 8 arg1 in
    let c = be_bytes 8 arg2 in
    let k = kind ∷ [] in
    ap (λ m. (write_all k >> (write_all a >> (write_all b >> m))) w) (fun_ext (write_all-pure c))
    ∙ ap (λ m. (write_all k >> (write_all a >> m)) w) (fun_ext (write_all-append b c))
    ∙ ap (λ m. (write_all k >> m) w) (fun_ext (write_all-append a (b ++ c)))
    ∙ write_all-append k (a ++ (b ++ c)) w

-- A request goes out as one write of its layout, so what a failing stream has taken is a prefix.
pub write_lem : (r : Request) (w : Writer) → write r w ≡ write_all (request_bytes (fields r)) w
unfolding write
write_lem r w = let (kind, arg0, arg1, arg2) = fields r in write_fields_lem kind arg0 arg1 arg2 w

-- MSIM's reading of one frame: 25 bytes, no fewer and no more.
unfoldable pub parse_request : List ℕ → Option Request
parse_request [] = none
parse_request (kind ∷ rest) =
    if length rest == 24
    then request_of kind (be_word 0 (take 8 rest)) (be_word 0 (take 8 (drop 8 rest)))
        (be_word 0 (drop 16 rest))
    else none

parse_laid_out :
    (kind arg0 arg1 arg2 : ℕ)
    → parse_request (request_bytes (kind, arg0, arg1, arg2))
      ≡ request_of kind
          (be_word 0 (be_bytes 8 arg0))
          (be_word 0 (be_bytes 8 arg1))
          (be_word 0 (be_bytes 8 arg2))
unfolding parse_request request_bytes be_bytes
parse_laid_out kind arg0 arg1 arg2 = refl

parse_request-bytes :
    (kind arg0 arg1 arg2 : ℕ)
    → IsU64 arg0 × IsU64 arg1 × IsU64 arg2
    → parse_request (request_bytes (kind, arg0, arg1, arg2)) ≡ request_of kind arg0 arg1 arg2
parse_request-bytes kind arg0 arg1 arg2 (h0, h1, h2) =
    parse_laid_out kind arg0 arg1 arg2
    ∙ ap (λ a. request_of kind a (be_word 0 (be_bytes 8 arg1)) (be_word 0 (be_bytes 8 arg2)))
        (be_word-be_bytes arg0 h0)
    ∙ ap (λ a. request_of kind arg0 a (be_word 0 (be_bytes 8 arg2))) (be_word-be_bytes arg1 h1)
    ∙ ap (λ a. request_of kind arg0 arg1 a) (be_word-be_bytes arg2 h2)

pub length-request_bytes : (f : ℕ × ℕ × ℕ × ℕ) → length (request_bytes f) ≡ outbound_frame_size
unfolding request_bytes be_bytes
length-request_bytes (kind, arg0, arg1, arg2) = refl

pub parse_request-fields :
    (r : Request) → IsRequest r → parse_request (request_bytes (fields r)) ≡ some r
parse_request-fields r h =
    let (kind, arg0, arg1, arg2) = fields r in
    parse_request-bytes kind arg0 arg1 arg2 (fields-IsU64 r h) ∙ request_of-fields r

-- On a stream with room for a frame, writing a request whose fields are `u64` values succeeds and
-- appends exactly 25 bytes, and MSIM reads from these bytes that request with all its fields.
pub write_round_trip :
    (r : Request) (w : Writer)
    → IsRequest r
    → outbound_frame_size ≤ w.room
    → (bytes : List ℕ) × (write r w
        ≡ (ok tt, record w { sent = w.sent ++ bytes; room = w.room - 25 }))
      × (length bytes ≡ outbound_frame_size)
      × (parse_request bytes ≡ some r)
write_round_trip r w h room = (
  request_bytes (fields r),
  write_lem r w ∙ write_all_fits _ w 25 (length-request_bytes (fields r)) room,
  length-request_bytes (fields r),
  parse_request-fields r h,
)

-- On a stream that fails before a whole frame is out, writing fails with the stream's error, and what
-- has gone out is a proper prefix of the one frame of 25 bytes from which MSIM would read the request.
pub write_cut :
    (r : Request) (w : Writer)
    → IsRequest r
    → w.room < outbound_frame_size
    → (bytes : List ℕ) × (write r w
        ≡ (err (io w.fault), failed (record w { sent = w.sent ++ take w.room bytes })))
      × (length bytes ≡ outbound_frame_size)
      × (parse_request bytes ≡ some r)
write_cut r w h room = (
  request_bytes (fields r),
  write_lem r w ∙ write_all_cut _ w 25 (length-request_bytes (fields r)) room,
  length-request_bytes (fields r),
  parse_request-fields r h,
)
