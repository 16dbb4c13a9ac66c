-- ===== src/Target/Memory/Contents.antt =====
-- The memory reads of src/target/msim_target.rs against a memory that MSIM serves in chunks.
use mathlib.Core.List.{map-append}
use msim_dap.Common.{
  ℕ, zero, suc, ◌+◌, ◌-◌, ◌*◌, ◌/◌, ◌%◌, ◌^◌, ◌≤◌, ◌<◌, ◌≡◌, refl, sym, ap, ◌∙◌, List, [], ◌∷◌,
  ◌++◌, arith, map, length, take, range, length-append, length-take, All,
}
use msim_dap.Common.Bytes.{IsByte, be_bytes, be_word, be_bytes-be_word}
use msim_dap.Common.Results.{ok}
use msim_dap.Common.Exec.{bind-eq-ok, continue-pure}
use msim_dap.Msim.Frame.{
  Request, ResponseStatus, read_phys_memory as phys_request, read_virt_memory as virt_request,
}
use msim_dap.Msim.Messages.{RawResponse, to_result}
use msim_dap.Target.{Exchange, Env, MsimTarget, send_raw, send, request}
use msim_dap.Target.Memory.{
  step, stepped, step_by, chunk_bytes, read_chunks, read_memory, read_phys_memory, read_virt_memory,
}

-- The big-endian word that stands at `a`.
abbrev pub word_at : (ℕ → ℕ) → ℕ → ℕ
word_at mem a = be_word 0 (map mem (range a 8))

-- MSIM's answer to a memory request, by the comments of src/msim/frame.rs: the 24 bytes from the
-- address on, in three words.
abbrev pub chunk_at : (ℕ → ℕ) → ℕ → RawResponse
chunk_at mem a = record {
  status = ResponseStatus.ok;
  arg0 = word_at mem a;
  arg1 = word_at mem (a + 8);
  arg2 = word_at mem (a + 16);
}

-- However often it is asked, MSIM serves the bytes `mem`.
abbrev pub Serves : Env → (ℕ → Request) → (ℕ → ℕ) → Type 0
Serves env ask mem =
    ((a : ℕ) → IsByte (mem a))
    × ((log : List Exchange) (a : ℕ) → env.answer log (ask a) ≡ ok (chunk_at mem a))

range-append : (a m n : ℕ) → range a (m + n) ≡ range a m ++ range (a + m) n
range-append a zero n =
    ap (λ k. range a k) ((let e : 0 + n ≡ n = omega arith in e))
    ∙ ap (λ k. range k n) (let e : a ≡ a + 0 = omega arith in e)
range-append a (suc m) n =
    ap (λ k. range a k) ((let e : suc m + n ≡ suc (m + n) = omega arith in e))
    ∙ ap (λ l. a ∷ l)
        (range-append (a + 1) m n ∙ ap (λ k. range (a + 1) m ++ range k n) (omega arith))

map-IsByte : (mem : ℕ → ℕ) → ((a : ℕ) → IsByte (mem a)) → (l : List ℕ) → All IsByte (map mem l)
map-IsByte mem h [] = tt
map-IsByte mem h (a ∷ l) = (h a, map-IsByte mem h l)

chunk_bytes-at :
    (mem : ℕ → ℕ) (a : ℕ)
    → ((a : ℕ) → IsByte (mem a))
    → chunk_bytes (chunk_at mem a) ≡ map mem (range a 24)
unfolding chunk_bytes
chunk_bytes-at mem a h = cc (word a, word (a + 8), word (a + 16), joined)
  where
    word : (b : ℕ) → be_bytes 8 (word_at mem b) ≡ map mem (range b 8)
    word b = (be_bytes-be_word (map mem (range b 8)) refl (map-IsByte mem h (range b 8))).1

    second : range (a + 8) 16 ≡ range (a + 8) 8 ++ range (a + 16) 8
    second = range-append (a + 8) 8 8 ∙ ap (λ k. range (a + 8) 8 ++ range k 8) (omega arith)

    joined :
        map mem (range a 24)
        ≡ map mem (range a 8) ++ (map mem (range (a + 8) 8) ++ map mem (range (a + 16) 8))
    joined =
        ap (map mem) (range-append a 8 16 ∙ ap (λ l. range a 8 ++ l) second)
        ∙ rw (map-append, map-append)

one_more :
    (mem : ℕ → ℕ)
    → ((a : ℕ) → IsByte (mem a))
    → (a n : ℕ)
    → chunk_bytes (chunk_at mem a) ++ map mem (range (a + 24) (24 * n))
      ≡ map mem (range a (24 * suc n))
one_more mem h a n = rw (chunk_bytes-at mem a h) (
    sym (
      ap (λ k. map mem (range a k)) more
      ∙ ap (map mem) (range-append a 24 (24 * n))
      ∙ map-append mem (range a 24) (range (a + 24) (24 * n))))
  where
    more : 24 * suc n ≡ 24 + 24 * n
    more = omega arith

module _ (env : Env) (ask : ℕ → Request) (mem : ℕ → ℕ) (serves : Serves env ask mem) where
  request-chunk :
      (a : ℕ) (t : MsimTarget)
      → request env (ask a) t
        ≡ (ok (chunk_at mem a), record t { exchanges = (ask a, ok (chunk_at mem a)) ∷ t.exchanges })
  unfolding request send send_raw to_result
  request-chunk a t = rw (serves.1 t.exchanges a)

  read_chunks-stepped :
      (n a : ℕ) (t : MsimTarget)
      → (read_chunks env ask (stepped n a) t).0 ≡ ok (map mem (range a (24 * n)))
  unfolding read_chunks stepped
  read_chunks-stepped zero a t = refl
  read_chunks-stepped (suc n) a t = rw (request-chunk a t) (
      continue-pure (read_chunks env ask (stepped n (a + step)) _)
        (λ bytes. chunk_bytes (chunk_at mem a) ++ bytes) (read_chunks-stepped n (a + step) _)
      ∙ ap (λ bytes. ok bytes) (one_more mem serves.0 a n))

-- The rounds of the loop are enough for the range, and the range is not wrapped.
step_by-covers : (a n : ℕ) → a + n < 2 ^ 64 → n ≤ 24 * (((a + n) % 2 ^ 64 - a + (step - 1)) / step)
step_by-covers a n h = omega arith

take-range : (mem : ℕ → ℕ) (a n m : ℕ) → n ≤ m → take n (map mem (range a m)) ≡ map mem (range a n)
take-range mem a zero m h = refl
take-range mem a (suc n) zero h = absurd (omega arith)
take-range mem a (suc n) (suc m) h = ap (λ l. mem a ∷ l) (take-range mem (a + 1) n m (omega arith))

read_memory-contents :
    (env : Env) (ask : ℕ → Request) (mem : ℕ → ℕ)
    → Serves env ask mem
    → (address length : ℕ) (t : MsimTarget) → address + length < 2 ^ 64
    → (read_memory env ask address length t).0 ≡ ok (map mem (range address length))
unfolding read_memory step_by
read_memory-contents env ask mem serves address length t h =
    let n = ((address + length) % 2 ^ 64 - address + (step - 1)) / step in
    continue-pure (read_chunks env ask (stepped n address) t) (take length)
      (read_chunks-stepped env ask mem serves n address t)
    ∙ ap (λ bytes. ok bytes)
        (take-range mem address length (24 * n) (step_by-covers address length h))

-- Where MSIM serves a memory, by physical address and by virtual address of a CPU, a read of any
-- range that ends below 2 ^ 64 returns the bytes of that range, in order, all and no more.
pub read_memory_contents :
    (env : Env) (cpu : ℕ) (phys virt : ℕ → ℕ)
    → Serves env phys_request phys
    → Serves env (virt_request cpu) virt
    → (address length : ℕ) (t : MsimTarget) → address + length < 2 ^ 64
    → ((read_phys_memory env address length t).0 ≡ ok (map phys (range address length)))
      × ((read_virt_memory env cpu address length t).0 ≡ ok (map virt (range address length)))
unfolding read_phys_memory read_virt_memory
read_memory_contents env cpu phys virt p v address length t h = (
  read_memory-contents env phys_request phys p address length t h,
  read_memory-contents env (virt_request cpu) virt v address length t h,
)

length-chunk_bytes : (chunk : RawResponse) → length (chunk_bytes chunk) ≡ 24
unfolding chunk_bytes be_bytes
length-chunk_bytes chunk = refl

length-read_chunks :
    (env : Env) (ask : ℕ → Request) (n a : ℕ) (t t' : MsimTarget) (bytes : List ℕ)
    → read_chunks env ask (stepped n a) t ≡ (ok bytes, t')
    → length bytes ≡ 24 * n
unfolding read_chunks stepped
length-read_chunks env ask zero a t t' bytes e = ground arith
length-read_chunks env ask (suc n) a t t' bytes e =
    let (chunk, t1, p, q) = bind-eq-ok (request env (ask a) t) _ e in
    let (more, t2, p', q') = bind-eq-ok (read_chunks env ask (stepped n (a + step)) t1) _ q in
    let joined : chunk_bytes chunk ++ more ≡ bytes = ground arith in
    rw (← joined) (
      omega (
        arith,
        length-append (chunk_bytes chunk) more,
        length-chunk_bytes chunk,
        length-read_chunks env ask n (a + step) t1 t2 more p',
      ))

-- Whatever MSIM answers: a read that returns bytes returns exactly as many as were asked for, if the
-- range ends below 2 ^ 64.
pub length-read_memory :
    (env : Env) (ask : ℕ → Request) (address n : ℕ) (t t' : MsimTarget) (bytes : List ℕ)
    → address + n < 2 ^ 64
    → read_memory env ask address n t ≡ (ok bytes, t')
    → length bytes ≡ n
unfolding read_memory step_by
length-read_memory env ask address n t t' bytes h e =
    let rounds = ((address + n) % 2 ^ 64 - address + (step - 1)) / step in
    let (all, t1, p, q) = bind-eq-ok (read_chunks env ask (stepped rounds address) t) _ e in
    let cut : take n all ≡ bytes = ground arith in
    rw (← cut) (
      omega (
        arith,
        length-take n all,
        length-read_chunks env ask rounds address t t1 all p,
        step_by-covers address n h,
      ))

no_rounds :
    (a n : ℕ)
    → a < 2 ^ 64
    → n < 2 ^ 64
    → 2 ^ 64 ≤ a + n
    → ((a + n) % 2 ^ 64 - a + (step - 1)) / step ≡ 0
no_rounds a n p q h = omega arith

take-nil : (n : ℕ) → take {A = ℕ} n [] ≡ []
take-nil zero = refl
take-nil (suc n) = refl

read_memory-wrapped :
    (env : Env) (ask : ℕ → Request) (address n : ℕ) (t : MsimTarget)
    → address < 2 ^ 64
    → n < 2 ^ 64
    → 2 ^ 64 ≤ address + n
    → read_memory env ask address n t ≡ (ok [], t)
unfolding read_memory step_by stepped read_chunks
read_memory-wrapped env ask address n t a b h = rw (no_rounds address n a b h, take-nil n)

-- A range that passes the end of the address space wraps: the read then returns no byte, with no
-- error, and asks MSIM nothing.
pub read_memory_wraps :
    (env : Env) (cpu address n : ℕ) (t : MsimTarget)
    → address < 2 ^ 64
    → n < 2 ^ 64
    → 2 ^ 64 ≤ address + n
    → (read_phys_memory env address n t ≡ (ok [], t))
      × (read_virt_memory env cpu address n t ≡ (ok [], t))
unfolding read_phys_memory read_virt_memory
read_memory_wraps env cpu address n t a b h = (
  read_memory-wrapped env phys_request address n t a b h,
  read_memory-wrapped env (virt_request cpu) address n t a b h,
)
