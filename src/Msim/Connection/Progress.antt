-- ===== src/Msim/Connection/Progress.antt =====
-- A round of the listener that goes on has taken bytes from the stream.
use msim_dap.Common.{
  ℕ, ◌≤◌, ◌<◌, ◌≡◌, refl, arith, true, List, [], ◌∷◌, length, length-drop, inl, inr,
}
use msim_dap.Common.Results.{Result, ok, err, Result-cases}
use msim_dap.Common.Bytes.{be_word}
use msim_dap.Common.Exec.{Exec, continue, lift, ◌>>=◌, Keeps, keeps_rules}
use msim_dap.Msim.Frame.{
  IoError, Inbound, FrameError, response, event, io, parsing, unexpected_eof, other,
}
use msim_dap.Msim.Frame.Stream.{Reader, read_exact}
use msim_dap.Msim.Frame.Codec.{read, read_u8, read_u64, inbound}
use msim_dap.Msim.Messages.{from_raw}
use msim_dap.Msim.Connection.{Listener, arm, round}

-- At most so many bytes are left.
abbrev IsLeft : ℕ → Reader → Type 0
IsLeft k r = length r.input ≤ k

Keeps-read_exact : (n k : ℕ) → Keeps (IsLeft k) (read_exact n)
unfolding read_exact
Keeps-read_exact n k = record { at = λ r h. ground (arith, length-drop n r.input) }

Keeps-read_u8 : (k : ℕ) → Keeps (IsLeft k) read_u8
unfolding read_u8
Keeps-read_u8 k = search (keeps_rules, Keeps-read_exact) depth 6

Keeps-read_u64 : (k : ℕ) → Keeps (IsLeft k) read_u64
unfolding read_u64
Keeps-read_u64 k = search (keeps_rules, Keeps-read_exact) depth 6

abbrev reader : List ℕ → IoError → Reader
reader input fault = record { input = input; fault = fault }

-- `Inbound::read` once the category is known.
abbrev after_category : ℕ → Exec Reader FrameError Inbound
after_category category = do
  kind ← read_u8
  arg0 ← read_u64
  arg1 ← read_u64
  arg2 ← read_u64
  lift (inbound category kind arg0 arg1 arg2)

Keeps-after_category : (category k : ℕ) → Keeps (IsLeft k) (after_category category)
Keeps-after_category category k = search (keeps_rules, Keeps-read_u8, Keeps-read_u64) depth 16

read_u8-some :
    (b : ℕ) (bytes : List ℕ) (fault : IoError)
    → read_u8 (reader (b ∷ bytes) fault) ≡ (ok (be_word 0 (b ∷ [])), reader bytes fault)
unfolding read_u8 read_exact
read_u8-some b bytes fault = ground arith

read_u8-none : (fault : IoError) → read_u8 (reader [] fault) ≡ (err (io fault), reader [] fault)
unfolding read_u8 read_exact
read_u8-none fault = ground arith

read-eq : (r : Reader) → read r ≡ continue (read_u8 r) after_category
unfolding read
read-eq r = refl

read-shrinks :
    (input : List ℕ) (fault : IoError) (i : Inbound)
    → (read (reader input fault)).0 ≡ ok i
    → length (read (reader input fault)).1.input < length input
read-shrinks [] fault i h =
    absurd (ground (arith, h, read-eq (reader [] fault), read_u8-none fault))
read-shrinks (b ∷ bytes) fault i h =
    rw (read-eq (reader (b ∷ bytes) fault), read_u8-some b bytes fault)
      (omega (
        arith,
        (Keeps-after_category (be_word 0 (b ∷ [])) (length bytes)).at (reader bytes fault)
            (omega arith),
      ))

arm-stream :
    (i : Result FrameError Inbound) (l : Listener) → (arm i l).1.msim_stream ≡ l.msim_stream
arm-stream (ok (response status a b c)) l = refl
arm-stream (ok (event kind a b c)) l = elim (Result-cases (from_raw kind a b c)) [
  | inl (e, h) ↦ rw h refl
  | inr (e, h) ↦ rw h refl
]
arm-stream (err (io unexpected_eof)) l = refl
arm-stream (err (io other)) l = refl
arm-stream (err parsing) l = refl

arm-ok :
    (i : Result FrameError Inbound) (l : Listener) → (arm i l).0 ≡ true → (m : Inbound) × (i ≡ ok m)
arm-ok (ok m) l h = (m, refl)
arm-ok (err (io unexpected_eof)) l h = absurd (ground (arith, h))
arm-ok (err (io other)) l h = absurd (ground (arith, h))
arm-ok (err parsing) l h = absurd (ground (arith, h))

pub round-shrinks :
    (l : Listener)
    → (round l).0 ≡ true
    → length (round l).1.msim_stream.input < length l.msim_stream.input
unfolding round
round-shrinks l h =
    let (i, stream) = read l.msim_stream in
    let l' = record l { msim_stream = stream } in
    let (m, e) = arm-ok i l' h in
    rw (arm-stream i l') (read-shrinks l.msim_stream.input l.msim_stream.fault m e)
