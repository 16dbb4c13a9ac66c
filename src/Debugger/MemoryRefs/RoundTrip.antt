-- ===== src/Debugger/MemoryRefs/RoundTrip.antt =====
-- Memory references printed and parsed.
use native.Mathlib.Nat.{div-add-mod', mod-lt, mod-eq_of_lt, div-le_self}
use msim_dap.Common.{
  ℕ, zero, suc, ◌+◌, ◌*◌, ◌/◌, ◌%◌, ◌^◌, ◌<◌, ◌≤◌, ◌≡◌, refl, ap, ◌∙◌, arith, true, false, some, [],
  ◌∷◌, ◌++◌, ltb, ◌==◌, nat_eq, list_eq, All, All-append, Bool-cases, Option-cases, inl, inr,
  ltb→lt, lt→ltb,
}
use msim_dap.Common.Int.{IsU64}
use msim_dap.Common.Results.{ok}
use msim_dap.Debugger.Strings.{
  Text, to_digit, add_digit, parse_digits, from_str_radix, trim_0x, split, digit_char, digits, hex,
  decimal,
}
use msim_dap.Debugger.{physical, virtual}
use msim_dap.Debugger.MemoryRefs.{phys, virt, parse, parse_hex, to_string}

-- The character of a lower-case digit.
abbrev IsDigit : ℕ → Type 0
IsDigit c = (48 ≤ c) × (c ≤ 102) × ((c == 58) ≡ false)

digit_char-IsDigit : (d : ℕ) → d < 16 → IsDigit (digit_char d)
digit_char-IsDigit d small = ground arith

to_digit-digit_char :
    (radix d : ℕ) → radix ≤ 16 → d < radix → to_digit radix (digit_char d) ≡ some d
unfolding to_digit
to_digit-digit_char radix d few small = ground arith

add_digit-fits :
    (radix n d : ℕ) → n * radix + d < 2 ^ 64 → add_digit radix n d ≡ some (n * radix + d)
unfolding add_digit
add_digit-fits radix n d small = rw (lt→ltb (n * radix + d) (2 ^ 64) small) refl

some_injective : {a b : ℕ} → some a ≡ some b → a ≡ b
some_injective h = cc

-- One more digit at the end.
parse_digits-append :
    (radix n k d c : ℕ) (s : Text)
    → parse_digits radix n s ≡ some k
    → to_digit radix c ≡ some d
    → k * radix + d < 2 ^ 64
    → parse_digits radix n (s ++ (c ∷ [])) ≡ some (k * radix + d)
unfolding parse_digits
parse_digits-append radix n k d c [] h last small =
    rw (last, parse_digits, some_injective h, add_digit-fits radix k d small) refl
parse_digits-append radix n k d c (x ∷ s) h last small = elim (Option-cases (to_digit radix x)) [
  | inl bad ↦ absurd (ground (arith, h, bad))
  | inr (e, good) ↦ elim (Option-cases (add_digit radix n e)) [
    | inl large ↦ absurd (ground (arith, h, good, large))
    | inr (more, fits) ↦
        rw (good, parse_digits, fits)
          (parse_digits-append radix more k d c s (ground (arith, h, good, fits)) last small)
  ]
]

le-lt : (a b : ℕ) → a ≤ b → b < 2 ^ 64 → a < 2 ^ 64
le-lt a b h k = omega arith

-- The fuel is enough: after as many divisions one digit is left.
abbrev Fits : ℕ → ℕ → ℕ → Type 0
Fits radix zero n = n < radix
Fits radix (suc fuel) n = Fits radix fuel (n / radix)

module _ (radix : ℕ) (few : radix ≤ 16) (two : 2 ≤ radix) where
  digit-parsed : (n : ℕ) → n < radix → parse_digits radix 0 (digit_char n ∷ []) ≡ some n
  unfolding parse_digits
  digit-parsed n small = ground (
    arith,
    to_digit-digit_char radix n few small,
    add_digit-fits radix 0 n (ground (arith, small, few)),
  )

  remainder : (n : ℕ) → n % radix < radix
  remainder n = mod-lt n (omega (arith, two))

  digits-parsed :
      (fuel n : ℕ)
      → IsU64 n
      → Fits radix fuel n
      → parse_digits radix 0 (digits radix fuel n) ≡ some n
  unfolding digits
  digits-parsed zero n small fits =
      let same : ◌≡◌ {A = ℕ} (n % radix) n = mod-eq_of_lt fits in rw same (digit-parsed n fits)
  digits-parsed (suc fuel) n small fits = elim (Bool-cases (ltb n radix)) [
    | inl last ↦ rw (last, digits) (digit-parsed n (ltb→lt n radix last))
    | inr more ↦
        let whole = div-add-mod' n radix in
        let small' : n / radix < 2 ^ 64 = le-lt (n / radix) n (div-le_self n radix) small in
        rw (more, digits)
          (parse_digits-append radix 0 (n / radix) (n % radix) (digit_char (n % radix))
              (digits radix fuel (n / radix)) (digits-parsed fuel (n / radix) small' fits)
              (to_digit-digit_char radix (n % radix) few (remainder n)) (rw whole small)
            ∙ ap (λ m. some m) whole)
  ]

  one-IsDigit : (n : ℕ) → IsDigit (digit_char (n % radix))
  one-IsDigit n = digit_char-IsDigit (n % radix) (omega (arith, remainder n, few))

  digits-IsDigit : (fuel n : ℕ) → All IsDigit (digits radix fuel n)
  unfolding digits
  digits-IsDigit zero n = (one-IsDigit n, tt)
  digits-IsDigit (suc fuel) n = elim (Bool-cases (ltb n radix)) [
    | inl last ↦
        rw (last, digits) (digit_char-IsDigit n (omega (arith, ltb→lt n radix last, few)), tt)
    | inr more ↦
        rw (more, digits)
          (All-append IsDigit (digits radix fuel (n / radix)) _ (digits-IsDigit fuel (n / radix))
            (one-IsDigit n, tt))
  ]

abbrev IsNonEmpty : Text → Type 0
IsNonEmpty [] = true ≡ false
IsNonEmpty (c ∷ s) = Unit

append-IsNonEmpty : (s t : Text) → IsNonEmpty s → IsNonEmpty (s ++ t)
append-IsNonEmpty [] t h = absurd (ground (arith, h))
append-IsNonEmpty (c ∷ s) t h = tt

digits-IsNonEmpty : (radix fuel n : ℕ) → IsNonEmpty (digits radix fuel n)
unfolding digits
digits-IsNonEmpty radix zero n = tt
digits-IsNonEmpty radix (suc fuel) n = elim (Bool-cases (ltb n radix)) [
  | inl last ↦ rw (last, digits) tt
  | inr more ↦ rw (more, digits) (append-IsNonEmpty _ _ (digits-IsNonEmpty radix fuel (n / radix)))
]

-- Without a sign, all is digits.
from_str_radix-digits :
    (radix : ℕ) (s : Text)
    → All IsDigit s
    → IsNonEmpty s
    → from_str_radix radix s ≡ parse_digits radix 0 s
unfolding from_str_radix
from_str_radix-digits radix [] all h = absurd (ground (arith, h))
from_str_radix-digits radix (c ∷ []) all h = refl
from_str_radix-digits radix (c ∷ d ∷ s) all h = ground (arith, all.0.0)

trim_0x-digits : (s : Text) → All IsDigit s → trim_0x s ≡ s
unfolding trim_0x
trim_0x-digits [] all = refl
trim_0x-digits (c ∷ []) all = refl
trim_0x-digits (c ∷ d ∷ s) all = ground (arith, all.1.0.1)

split-digits : (s : Text) → All IsDigit s → split s ≡ (s, [])
unfolding split
split-digits [] all = refl
split-digits (c ∷ s) all = ground (arith, all.0.2, split-digits s all.1)

split-append : (s t : Text) → All IsDigit s → split (s ++ (58 ∷ t)) ≡ (s, (split t).0 ∷ (split t).1)
unfolding split
split-append [] t all = refl
split-append (c ∷ s) t all = ground (arith, all.0.2, split-append s t all.1)

hex_digits-IsDigit : (a : ℕ) → All IsDigit (digits 16 15 a)
hex_digits-IsDigit a = digits-IsDigit 16 (omega arith) (omega arith) 15 a

hex-Fits : (a : ℕ) → IsU64 a → Fits 16 15 a
hex-Fits a small = omega (arith, small)

decimal-Fits : (a : ℕ) → IsU64 a → Fits 10 19 a
decimal-Fits a small = omega (arith, small)

pub parse-hex_digits : (a : ℕ) → IsU64 a → from_str_radix 16 (digits 16 15 a) ≡ some a
parse-hex_digits a small =
    from_str_radix-digits 16 (digits 16 15 a) (hex_digits-IsDigit a) (digits-IsNonEmpty 16 15 a)
    ∙ digits-parsed 16 (omega arith) (omega arith) 15 a small (hex-Fits a small)

parse_hex-hex : (a : ℕ) → IsU64 a → parse_hex (hex a) ≡ ok a
unfolding parse_hex trim_0x
parse_hex-hex a small =
    rw (trim_0x-digits (digits 16 15 a) (hex_digits-IsDigit a), parse-hex_digits a small) refl

parse-decimal : (a : ℕ) → IsU64 a → from_str_radix 10 (decimal a) ≡ some a
parse-decimal a small =
    from_str_radix-digits 10 (decimal a) (digits-IsDigit 10 (omega arith) (omega arith) 19 a)
      (digits-IsNonEmpty 10 19 a)
    ∙ digits-parsed 10 (omega arith) (omega arith) 19 a small (decimal-Fits a small)

split-physical : (addr : ℕ) → split (to_string (physical addr)) ≡ (phys, hex addr ∷ [])
unfolding to_string split
split-physical addr = rw (split-digits (digits 16 15 addr) (hex_digits-IsDigit addr)) refl

split-virtual :
    (cpu_id addr : ℕ)
    → split (to_string (virtual cpu_id addr)) ≡ (virt, decimal cpu_id ∷ hex addr ∷ [])
unfolding to_string split
split-virtual cpu_id addr =
    rw
      (
        split-append (decimal cpu_id) (hex addr)
            (digits-IsDigit 10 (omega arith) (omega arith) 19 cpu_id),
        split-digits (digits 16 15 addr) (hex_digits-IsDigit addr),
      )
      refl

-- The text of a memory reference with 64-bit addresses and CPU numbers is parsed back as it.
pub parse-to_string :
    (cpu_id addr : ℕ)
    → IsU64 cpu_id
    → IsU64 addr
    → (parse (to_string (physical addr)) ≡ ok (physical addr))
      × (parse (to_string (virtual cpu_id addr)) ≡ ok (virtual cpu_id addr))
unfolding parse
parse-to_string cpu_id addr small_cpu small = (
  rw (split-physical addr, parse_hex-hex addr small) refl,
  rw (split-virtual cpu_id addr, parse-decimal cpu_id small_cpu, parse_hex-hex addr small) refl,
)
