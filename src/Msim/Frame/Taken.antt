-- ===== src/Msim/Frame/Taken.antt =====
-- src/msim/frame.rs, `Inbound::read`: the bytes that a successful read took.
use mathlib.Core.List.{append_assoc}
use msim_dap.Common.{
  ℕ, ◌≡◌, sym, ap, ◌∙◌, inl, inr, List, [], ◌∷◌, ◌++◌, arith, leb, nat_eq, length, take, drop, All,
  All-split, take-append-drop, length-take, Bool-cases, leb→le, subst,
}
use msim_dap.Common.Int.{IsU64}
use msim_dap.Common.Bytes.{IsByte, be_bytes, be_word, be_bytes-be_word}
use msim_dap.Common.Results.{ok}
use msim_dap.Common.Exec.{pure, bind-eq-ok}
use msim_dap.Msim.Frame.{ResponseStatus, EventKind, Inbound, response, event}
use msim_dap.Msim.Frame.Stream.{Reader, read_exact}
use msim_dap.Msim.Frame.Codec.{read, read_u8, read_u64, inbound, read_status, read_event_kind}
use msim_dap.Msim.Frame.Replies.{inbound_layout, inbound_bytes, IsInbound}

-- What a successful read of `n` bytes, of a byte and of a word took.
abbrev Took : List ℕ → Reader → Reader → Type 0
Took bytes r s = (r.input ≡ bytes ++ s.input) × (s.fault ≡ r.fault) × All IsByte s.input

read_exact-Took :
    (n : ℕ) (r s : Reader) (bytes : List ℕ)
    → All IsByte r.input
    → read_exact n r ≡ (ok bytes, s)
    → Took bytes r s × (length bytes ≡ n) × All IsByte bytes
unfolding read_exact
read_exact-Took n r s bytes all e = elim (Bool-cases (leb n (length r.input))) [
  | inl fits ↦
      let taken : take n r.input ≡ bytes = ground arith in
      let left : drop n r.input ≡ s.input = ground arith in
      let (a, b) =
        All-split IsByte (take n r.input) (drop n r.input) (rw (take-append-drop n r.input) all) in
      (
        (
          sym (take-append-drop n r.input)
              ∙ ap (λ t. t ++ drop n r.input) taken
              ∙ ap (λ t. bytes ++ t) left,
          ground arith,
          subst (All IsByte) left b,
        ),
        rw (← taken) (omega (arith, length-take n r.input, leb→le n (length r.input) fits)),
        subst (All IsByte) taken a,
      )
  | inr short ↦ absurd (ground arith)
]

one-IsByte :
    (bytes : List ℕ)
    → length bytes ≡ 1
    → All IsByte bytes
    → (bytes ≡ be_word 0 bytes ∷ []) × IsByte (be_word 0 bytes)
unfolding be_word
one-IsByte (b ∷ []) n all = (ground arith, omega arith)
one-IsByte _ n all = absurd (omega arith)

read_u8-Took :
    (r s : Reader) (b : ℕ)
    → All IsByte r.input
    → read_u8 r ≡ (ok b, s)
    → Took (b ∷ []) r s × IsByte b
unfolding read_u8
read_u8-Took r s b all e =
    let (bytes, t, p, q) = bind-eq-ok (read_exact 1 r) (λ bytes. pure (be_word 0 bytes)) e in
    let (took, n, bs) = read_exact-Took 1 r t bytes all p in
    let (spelled, small) = one-IsByte bytes n bs in
    let value : be_word 0 bytes ≡ b = ground arith in
    let same_reader : t ≡ s = ground arith in
    rw (← value, ← same_reader) (subst (λ l. Took l r t) spelled took, small)

read_u64-Took :
    (r s : Reader) (w : ℕ)
    → All IsByte r.input
    → read_u64 r ≡ (ok w, s)
    → Took (be_bytes 8 w) r s × IsU64 w
unfolding read_u64
read_u64-Took r s w all e =
    let (bytes, t, p, q) = bind-eq-ok (read_exact 8 r) (λ bytes. pure (be_word 0 bytes)) e in
    let (took, n, bs) = read_exact-Took 8 r t bytes all p in
    let (small, spelled) = be_bytes-be_word bytes n bs in
    let value : be_word 0 bytes ≡ w = ground arith in
    let same_reader : t ≡ s = ground arith in rw (← value, ← same_reader) (rw spelled took, small)

laid_out :
    (c k : ℕ) (a0 a1 a2 i0 i1 i2 i3 i4 i5 : List ℕ)
    → i0 ≡ c ∷ i1
    → i1 ≡ k ∷ i2
    → i2 ≡ a0 ++ i3
    → i3 ≡ a1 ++ i4
    → i4 ≡ a2 ++ i5
    → i0 ≡ c ∷ k ∷ ((a0 ++ (a1 ++ a2)) ++ i5)
laid_out c k a0 a1 a2 i0 i1 i2 i3 i4 i5 e1 e2 e3 e4 e5 =
    rw (e1, e2, e3, e4, e5, append_assoc, append_assoc)

-- `read` undone down to the five fields.
read-layout :
    (r s : Reader) (i : Inbound)
    → All IsByte r.input
    → read r ≡ (ok i, s)
    → (category kind arg0 arg1 arg2 : ℕ) × (inbound category kind arg0 arg1 arg2 ≡ ok i)
      × (r.input ≡ inbound_layout category kind arg0 arg1 arg2 ++ s.input)
      × (s.fault ≡ r.fault)
      × (IsU64 arg0 × IsU64 arg1 × IsU64 arg2)
unfolding read inbound_layout
read-layout r s i all e =
    let (c, r1, e1, k1) = bind-eq-ok (read_u8 r) _ e in
    let (k, r2, e2, k2) = bind-eq-ok (read_u8 r1) _ k1 in
    let (a0, r3, e3, k3) = bind-eq-ok (read_u64 r2) _ k2 in
    let (a1, r4, e4, k4) = bind-eq-ok (read_u64 r3) _ k3 in
    let (a2, r5, e5, k5) = bind-eq-ok (read_u64 r4) _ k4 in
    let (t1, _) = read_u8-Took r r1 c all e1 in
    let (t2, _) = read_u8-Took r1 r2 k t1.2 e2 in
    let (t3, h0) = read_u64-Took r2 r3 a0 t2.2 e3 in
    let (t4, h1) = read_u64-Took r3 r4 a1 t3.2 e4 in
    let (t5, h2) = read_u64-Took r4 r5 a2 t4.2 e5 in
    let last : r5 ≡ s = ground arith in
    let parts : r.input ≡ inbound_layout c k a0 a1 a2 ++ s.input =
      laid_out _ _ _ _ _ _ _ _ _ _ _ t1.0 t2.0 t3.0 t4.0
        (t5.0 ∙ ap (λ (t : Reader). be_bytes 8 a2 ++ t.input) last) in
    (c, k, a0, a1, a2, ground arith, parts, ground arith, (h0, h1, h2))

inbound-eq-ok :
    (category kind arg0 arg1 arg2 : ℕ) (i : Inbound)
    → inbound category kind arg0 arg1 arg2 ≡ ok i
    → IsU64 arg0 × IsU64 arg1 × IsU64 arg2
    → (inbound_layout category kind arg0 arg1 arg2 ≡ inbound_bytes i) × IsInbound i
unfolding inbound inbound_bytes inbound_layout read_status read_event_kind
inbound-eq-ok category kind arg0 arg1 arg2 (response ResponseStatus.ok a b c) e h = ground arith
inbound-eq-ok category kind arg0 arg1 arg2 (response ResponseStatus.unspecified_error a b c) e h =
    ground arith
inbound-eq-ok category kind arg0 arg1 arg2 (response ResponseStatus.unsupported_request_error a b c)
      e h =
    ground arith
inbound-eq-ok category kind arg0 arg1 arg2 (event EventKind.terminated a b c) e h = ground arith
inbound-eq-ok category kind arg0 arg1 arg2 (event EventKind.stopped_at a b c) e h = ground arith

-- Reading succeeds on nothing but what MSIM writes: where bytes are read as a message, the 26 bytes
-- taken are those that MSIM writes for it, its arguments are `u64` values, and all else is left.
pub read_exactly :
    (r s : Reader) (i : Inbound)
    → All IsByte r.input
    → read r ≡ (ok i, s)
    → (r.input ≡ inbound_bytes i ++ s.input) × (s.fault ≡ r.fault) × IsInbound i
read_exactly r s i all e =
    let (c, k, a0, a1, a2, decoded, parts, fault, words) = read-layout r s i all e in
    let (layout, fits) = inbound-eq-ok c k a0 a1 a2 i decoded words in
    (parts ∙ ap (λ bytes. bytes ++ s.input) layout, fault, fits)
