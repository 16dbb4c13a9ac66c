-- ===== src/Tests/Frames.antt =====
-- The wire format of src/msim/frame.rs at concrete messages.
use msim_dap.Common.{ℕ, ◌-◌, ◌≡◌, refl, some, List, [], ◌∷◌, ◌++◌, arith, length, take}
use msim_dap.Common.Bytes.{be_bytes, be_word}
use msim_dap.Common.Results.{ok, err}
use msim_dap.Msim.Frame.{step, ResponseStatus, Inbound, response, io, other, unexpected_eof}
use msim_dap.Msim.Frame.Stream.{failed, Writer, Reader, read_exact, write_all, next_chance}
use msim_dap.Msim.Frame.Codec.{
  write, write_fields, write_u8, write_u64, read, read_u8, read_u64, inbound, read_status, fields,
}
use msim_dap.Msim.Frame.Requests.{parse_request, request_bytes, write_round_trip, write_cut}
use msim_dap.Msim.Frame.Replies.{inbound_bytes, IsInbound, read_round_trip}
use msim_dap.Msim.Frame.Taken.{read_exactly}

abbrev roomy : Writer
roomy = record { sent = 0xff ∷ []; room = 100; fault = other; later = [] }

write_round_trip_example :
    (bytes : List ℕ) × (write (step 3 7) roomy
      ≡ (ok tt, record roomy { sent = 0xff ∷ [] ++ bytes; room = 100 - 25 }))
    × (length bytes ≡ 25)
    × (parse_request bytes ≡ some (step 3 7))
write_round_trip_example = write_round_trip (step 3 7) roomy (omega arith) (omega arith)

-- The bytes of `Step(3, 7)`.
step_bytes :
    request_bytes (fields (step 3 7))
    ≡ 4 ∷ 0 ∷ 0 ∷ 0 ∷ 0 ∷ 0 ∷ 0 ∷ 0 ∷ 3 ∷ 0 ∷ 0 ∷ 0 ∷ 0 ∷ 0 ∷ 0 ∷ 0 ∷ 7 ∷ 0 ∷ 0 ∷ 0 ∷ 0 ∷ 0 ∷ 0 ∷ 0
      ∷ 0 ∷ []
unfolding request_bytes fields be_bytes
step_bytes = refl

abbrev narrow : Writer
narrow = record { sent = []; room = 10; fault = other; later = (40, other) ∷ [] }

write_cut_example :
    (bytes : List ℕ) × (write (step 3 7) narrow
      ≡ (err (io other), failed (record narrow { sent = [] ++ take 10 bytes })))
    × (length bytes ≡ 25)
    × (parse_request bytes ≡ some (step 3 7))
write_cut_example = write_cut (step 3 7) narrow (omega arith) (omega arith)

-- A request after one that was cut goes out right behind the 10 bytes of it.
cut_then_whole :
    ((write (step 3 7) narrow).0 ≡ err (io other))
    × ((write (step 3 7) (write (step 3 7) narrow).1).0 ≡ ok tt)
    × ((write (step 3 7) (write (step 3 7) narrow).1).1.sent
        ≡ take 10 (request_bytes (fields (step 3 7))) ++ request_bytes (fields (step 3 7)))
unfolding write write_fields write_u8 write_u64 write_all next_chance request_bytes fields be_bytes
cut_then_whole = (refl, refl, refl)

abbrev done : Inbound
done = response ResponseStatus.ok 1 2 300

read_round_trip_example :
    read (record { input = inbound_bytes done ++ (7 ∷ []); fault = unexpected_eof })
    ≡ (ok done, record { input = 7 ∷ []; fault = unexpected_eof })
read_round_trip_example = read_round_trip done (7 ∷ []) unexpected_eof (omega arith)

abbrev arrived : Reader
arrived = record {
  input =
      1 ∷ 1 ∷ 0 ∷ 0 ∷ 0 ∷ 0 ∷ 0 ∷ 0 ∷ 0 ∷ 1 ∷ 0 ∷ 0 ∷ 0 ∷ 0 ∷ 0 ∷ 0 ∷ 0 ∷ 2 ∷ 0 ∷ 0 ∷ 0 ∷ 0 ∷ 0 ∷ 0
      ∷ 1 ∷ 44 ∷ 7 ∷ [];
  fault = other;
}

abbrev left : Reader
left = record { input = 7 ∷ []; fault = other }

arrived_reads : read arrived ≡ (ok done, left)
unfolding read read_u8 read_u64 read_exact be_word inbound read_status
arrived_reads = refl

read_exactly_example :
    (arrived.input ≡ inbound_bytes done ++ left.input)
    × (left.fault ≡ arrived.fault)
    × IsInbound done
read_exactly_example = read_exactly arrived left done (omega arith) arrived_reads
