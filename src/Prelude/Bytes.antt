-- ===== src/Prelude/Bytes.antt =====
-- Bytes: single bits of a byte, and little-endian words.
use Prim.Native.Nat.{ℕ, zero, suc, ◌+◌, ◌*◌, ◌-◌, ◌/◌, ◌%◌, ◌^◌, ◌<◌, bit_and, bit_or}
use mathlib.Core.Path.{◌≡◌, refl}
use mathlib.Core.Bool.{Bool, true, false, ◌&&◌}
use mathlib.Core.List.{List}
use native.Mathlib.Omega.{arith}
use bloom_os.Prelude.Tests.{◌==◌, ltb, if◌then◌else◌}
use bloom_os.Prelude.Lists.{get_or}

abbrev pub IsByte : ℕ → Type 0
IsByte b = b < 256

abbrev pub byte_at : List ℕ → ℕ → ℕ
byte_at s i = get_or s i 0

-- `b |= 1 << i`, `b &= ~(1 << i)` and `(b >> i) & 1` on a `uint8_t`.
unfoldable pub set_in_byte : ℕ → ℕ → ℕ
set_in_byte b i = bit_or b (2 ^ i)

unfoldable pub clear_in_byte : ℕ → ℕ → ℕ
clear_in_byte b i = bit_and b (255 - 2 ^ i)

unfoldable pub test_in_byte : ℕ → ℕ → Bool
test_in_byte b i = (b / 2 ^ i) % 2 == 1

-- A test that holds at every number under a bound, by running it.
unfoldable pub holds_upto : (ℕ → Bool) → ℕ → Bool
holds_upto test zero = true
holds_upto test (suc bound) = if test bound then holds_upto test bound else false

pub holds_upto_lem :
    (test : ℕ → Bool) (i bound : ℕ) → i < bound → holds_upto test bound ≡ true → test i ≡ true
unfolding holds_upto
holds_upto_lem test i zero i< run = absurd (omega arith)
holds_upto_lem test i (suc bound) i< run = ground (arith, holds_upto_lem test i bound)

abbrev eqb : Bool → Bool → Bool
eqb true b = b
eqb false true = false
eqb false false = true

eqb→eq : (a b : Bool) → eqb a b ≡ true → a ≡ b
eqb→eq a b h = ground arith

abbrev check_bits : ℕ → ℕ → ℕ → Bool
check_bits b i j =
    ltb (set_in_byte b i) 256
    && (ltb (clear_in_byte b i) 256
        && (eqb (test_in_byte (set_in_byte b i) j) (if i == j then true else test_in_byte b j)
            && eqb (test_in_byte (clear_in_byte b i) j)
                (if i == j then false else test_in_byte b j)))

every_byte : holds_upto (λ b. holds_upto (λ i. holds_upto (λ j. check_bits b i j) 8) 8) 256 ≡ true
unfolding holds_upto set_in_byte clear_in_byte test_in_byte
every_byte = refl

check_bits_holds : (b i j : ℕ) → b < 256 → i < 8 → j < 8 → check_bits b i j ≡ true
check_bits_holds b i j hb hi hj =
    holds_upto_lem (λ j. check_bits b i j) j 8 hj
      (holds_upto_lem (λ i. holds_upto (λ j. check_bits b i j) 8) i 8 hi
        (holds_upto_lem (λ b. holds_upto (λ i. holds_upto (λ j. check_bits b i j) 8) 8) b 256 hb
          every_byte))

pub set_in_byte-IsByte : (b i : ℕ) → b < 256 → i < 8 → set_in_byte b i < 256
set_in_byte-IsByte b i hb hi = ground (arith, check_bits_holds b i 0 hb hi)

pub clear_in_byte-IsByte : (b i : ℕ) → b < 256 → i < 8 → clear_in_byte b i < 256
clear_in_byte-IsByte b i hb hi = ground (arith, check_bits_holds b i 0 hb hi)

pub test-set_in_byte :
    (b i j : ℕ)
    → b < 256
    → i < 8
    → j < 8
    → test_in_byte (set_in_byte b i) j ≡ (if i == j then true else test_in_byte b j)
test-set_in_byte b i j hb hi hj = ground (arith, check_bits_holds b i j hb hi hj)

pub test-clear_in_byte :
    (b i j : ℕ)
    → b < 256
    → i < 8
    → j < 8
    → test_in_byte (clear_in_byte b i) j ≡ (if i == j then false else test_in_byte b j)
test-clear_in_byte b i j hb hi hj = ground (arith, check_bits_holds b i j hb hi hj)

-- Little-endian words from the byte at place `i` on. The source joins the bytes by shifts and `|`;
-- the shifted bytes have no bit in common, so this is their sum.
abbrev pub le16 : List ℕ → ℕ → ℕ
le16 s i = byte_at s i + 256 * byte_at s (i + 1)

abbrev pub le32 : List ℕ → ℕ → ℕ
le32 s i = le16 s i + 65536 * le16 s (i + 2)

abbrev pub le64 : List ℕ → ℕ → ℕ
le64 s i = le32 s i + 4294967296 * le32 s (i + 4)
