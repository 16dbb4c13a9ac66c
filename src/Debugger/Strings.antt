-- ===== src/Debugger/Strings.antt =====
-- Text as the codes of its characters, with what src/debugger uses of Rust's `str` and formatting.
use msim_dap.Common.{
  ℕ, zero, suc, ◌+◌, ◌-◌, ◌*◌, ◌/◌, ◌%◌, ◌^◌, Bool, ◌&&◌, Option, none, some, List, [], ◌∷◌, ◌++◌,
  leb, ltb, if◌then◌else◌, ◌==◌, nat_eq, list_eq, length, take,
}

abbrev pub Text : Type 0
Text = List ℕ

-- `char::to_digit`, for a radix up to 16.
unfoldable pub to_digit : ℕ → ℕ → Option ℕ
to_digit radix c =
    let value =
      if leb 48 c && leb c 57
      then c - 48
      else if leb 97 c && leb c 102
      then c - 87
      else if leb 65 c && leb c 70
      then c - 55
      else radix in
    if ltb value radix then some value else none

-- One more digit, unless the number leaves 64 bits.
unfoldable pub add_digit : ℕ → ℕ → ℕ → Option ℕ
add_digit radix n digit =
    if ltb (n * radix + digit) (2 ^ 64) then some (n * radix + digit) else none

unfoldable pub parse_digits : ℕ → ℕ → Text → Option ℕ
parse_digits radix n [] = some n
parse_digits radix n (c ∷ s) = elim (to_digit radix c) [
  | none ↦ none
  | some digit ↦ elim (add_digit radix n digit) [
    | none ↦ none
    | some more ↦ parse_digits radix more s
  ]
]

-- `u64::from_str_radix`: digits, with a `+` before them if one likes. A `-` is no digit.
unfoldable pub from_str_radix : ℕ → Text → Option ℕ
from_str_radix radix [] = none
from_str_radix radix (c ∷ []) = parse_digits radix 0 (c ∷ [])
from_str_radix radix (c ∷ d ∷ s) =
    if c == 43 then parse_digits radix 0 (d ∷ s) else parse_digits radix 0 (c ∷ d ∷ s)

-- `trim_start_matches("0x")`: as often as it stands there.
unfoldable pub trim_0x : Text → Text
trim_0x [] = []
trim_0x (c ∷ []) = c ∷ []
trim_0x (c ∷ d ∷ s) = let rest = trim_0x s in if (c == 48) && (d == 120) then rest else c ∷ d ∷ s

-- `split(':')`: the first part and the others.
unfoldable pub split : Text → Text × List Text
split [] = ([], [])
split (c ∷ s) =
    let (part, parts) = split s in if c == 58 then ([], part ∷ parts) else (c ∷ part, parts)

abbrev pub starts_with : Text → Text → Bool
starts_with prefix s = take (length prefix) s == prefix

abbrev pub digit_char : ℕ → ℕ
digit_char d = if ltb d 10 then d + 48 else d + 87

-- The digits of a number, the highest first, by as many divisions as the fuel allows.
unfoldable pub digits : ℕ → ℕ → ℕ → Text
digits radix zero n = digit_char (n % radix) ∷ []
digits radix (suc fuel) n =
    let more = digits radix fuel (n / radix) in
    if ltb n radix then digit_char n ∷ [] else more ++ (digit_char (n % radix) ∷ [])

-- `{:#x}` of a `u64`: up to 16 digits.
abbrev pub hex : ℕ → Text
hex n = 48 ∷ 120 ∷ digits 16 15 n

-- `{}` of a `u64`: up to 20 digits.
abbrev pub decimal : ℕ → Text
decimal n = digits 10 19 n
