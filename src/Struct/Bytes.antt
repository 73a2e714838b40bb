-- ===== src/Struct/Bytes.antt =====
-- Little-endian bytes of a number, and a signed word as its two's complement.
use mini2_anu_asim.Prelude.{
  ℕ, zero, suc, ◌+◌, ◌-◌, ◌*◌, ◌/◌, ◌%◌, ◌^◌, ◌<◌, ◌≡◌, refl, ap, List, [], ◌∷◌, arith, ltb,
  if◌then◌else◌, length, All,
}
use native.Mathlib.Nat.{pow-suc}
use mini2_anu_asim.Prelude.Int.{ℤ, pos, negsuc}

abbrev pub IsByte : ℕ → Type 0
IsByte b = b < 256

unfoldable pub le_bytes : ℕ → ℕ → List ℕ
le_bytes zero x = []
le_bytes (suc k) x = x % 256 ∷ le_bytes k (x / 256)

unfoldable pub from_le : List ℕ → ℕ
from_le [] = 0
from_le (b ∷ bs) = b + 256 * from_le bs

unfoldable pub word32 : ℤ → ℕ
word32 (pos n) = n
word32 (negsuc n) = 2 ^ 32 - 1 - n

unfoldable pub signed32 : ℕ → ℤ
signed32 w = if ltb w (2 ^ 31) then pos w else negsuc (2 ^ 32 - 1 - w)

pub length-le_bytes : (k x : ℕ) → length (le_bytes k x) ≡ k
unfolding le_bytes
length-le_bytes zero x = refl
length-le_bytes (suc k) x = ap suc (length-le_bytes k (x / 256))

pub le_bytes-IsByte : (k x : ℕ) → All IsByte (le_bytes k x)
unfolding le_bytes
le_bytes-IsByte zero x = tt
le_bytes-IsByte (suc k) x = (omega arith, le_bytes-IsByte k (x / 256))

-- A number that fits into `k` bytes is read back.
pub from_le-le_bytes : (k x : ℕ) → x < 256 ^ k → from_le (le_bytes k x) ≡ x
unfolding le_bytes from_le
from_le-le_bytes zero x h = omega arith
from_le-le_bytes (suc k) x h =
    omega (arith, from_le-le_bytes k (x / 256) (omega (arith, pow-suc 256 k)))

pub signed32-word32_pos : (n : ℕ) → n < 2 ^ 31 → signed32 (word32 (pos n)) ≡ pos n
unfolding signed32 word32
signed32-word32_pos n h = ground arith

pub signed32-word32_neg : (n : ℕ) → n < 2 ^ 31 → signed32 (word32 (negsuc n)) ≡ negsuc n
unfolding signed32 word32
signed32-word32_neg n h = ground arith

pub word32_lt_neg : (n : ℕ) → word32 (negsuc n) < 2 ^ 32
unfolding word32
word32_lt_neg n = omega arith
