-- ===== src/Common/Bytes.antt =====
-- Unsigned words as bytes in big-endian order: `to_be_bytes`, and the byteorder crate's
-- `write_u64::<BigEndian>` and `read_u64::<BigEndian>` on the bytes of one word.
use Prim.Native.Nat.{ℕ, zero, suc, ◌+◌, ◌*◌, ◌/◌, ◌%◌, ◌^◌, ◌<◌}
use mathlib.Core.Path.{◌≡◌, refl}
use mathlib.Core.List.{List, [], ◌∷◌}
use native.Mathlib.Omega.{arith}
use msim_dap.Common.Lists.{length, All}
use msim_dap.Common.Int.{IsU64}

abbrev pub IsByte : ℕ → Type 0
IsByte b = b < 256

-- The low `n` bytes of `w`, the most significant first.
unfoldable pub be_bytes : ℕ → ℕ → List ℕ
be_bytes zero w = []
be_bytes (suc n) w = (w / 256 ^ n % 256) ∷ be_bytes n w

unfoldable pub be_word : ℕ → List ℕ → ℕ
be_word acc [] = acc
be_word acc (b ∷ bs) = be_word (acc * 256 + b) bs

pub length-be_bytes : (n w : ℕ) → length (be_bytes n w) ≡ n
unfolding be_bytes
length-be_bytes zero w = refl
length-be_bytes (suc n) w = omega (arith, length-be_bytes n w)

pub be_bytes-IsByte : (n w : ℕ) → All IsByte (be_bytes n w)
unfolding be_bytes
be_bytes-IsByte zero w = tt
be_bytes-IsByte (suc n) w = (omega arith, be_bytes-IsByte n w)

pub be_word-be_bytes : (w : ℕ) → IsU64 w → be_word 0 (be_bytes 8 w) ≡ w
unfolding be_bytes be_word
be_word-be_bytes w h = omega arith

-- Eight bytes spell a word that fits 64 bits, and are its bytes.
pub be_bytes-be_word :
    (bytes : List ℕ)
    → length bytes ≡ 8
    → All IsByte bytes
    → IsU64 (be_word 0 bytes) × (be_bytes 8 (be_word 0 bytes) ≡ bytes)
unfolding be_bytes be_word
be_bytes-be_word (a ∷ b ∷ c ∷ d ∷ e ∷ f ∷ g ∷ h ∷ []) n all = (omega arith, ground arith)
be_bytes-be_word _ n all = absurd (omega arith)
