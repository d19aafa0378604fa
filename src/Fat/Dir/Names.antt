-- ===== src/Fat/Dir/Names.antt =====
-- kernel/fat32.c: the names of directory entries.
use Prim.Native.Nat.{bit_and}
use bloom_os.Prelude.{
  ℕ, zero, suc, ◌+◌, ◌-◌, ◌*◌, ◌/◌, ◌%◌, ◌^◌, Bool, true, false, not, ◌&&◌, List, [], ◌∷◌, ◌++◌,
  leb, ◌==◌, if◌then◌else◌,
}
use bloom_os.Prelude.Bytes.{byte_at}

-- The loop of `ShortChecksum`, with the rounds left, the place and the sum.
pub checksum_from : ℕ → ℕ → ℕ → List ℕ → ℕ
checksum_from zero i sum name = sum
checksum_from (suc n) i sum name =
    checksum_from n (i + 1) ((sum % 2 * 2 ^ 7 + sum / 2 + byte_at name i) % 2 ^ 8) name

pub short_checksum : List ℕ → ℕ
unfolding checksum_from
short_checksum name = checksum_from 11 0 0 name

unfoldable pub lower_ascii : ℕ → ℕ
lower_ascii c = if leb b'A' c && leb c b'Z' then c - b'A' + b'a' else c

unfoldable pub names_equal : List ℕ → List ℕ → Bool
unfolding lower_ascii
names_equal [] [] = true
names_equal [] (b ∷ ys) = false
names_equal (a ∷ xs) [] = false
names_equal (a ∷ xs) (b ∷ ys) = if lower_ascii a == lower_ascii b then names_equal xs ys else false

-- A loop over the bytes up to a blank, with the rounds left and the place.
pub short_part : ℕ → ℕ → Bool → List ℕ → List ℕ
unfolding lower_ascii
short_part zero i lower e = []
short_part (suc n) i lower e =
    let rest = short_part n (i + 1) lower e in
    let c = if i == 0 && byte_at e 0 == 0x05 then 0xE5 else byte_at e i in
    if byte_at e i == b' ' then [] else (if lower then lower_ascii c else c) ∷ rest

-- The characters before the first zero.
pub c_string : List ℕ → List ℕ
c_string [] = []
c_string (c ∷ cs) = if c == 0 then [] else c ∷ c_string cs

pub build_short_name : List ℕ → List ℕ
unfolding short_part c_string
build_short_name e =
    let lower_base = not (bit_and (byte_at e 12) 0x08 == 0) in
    let lower_ext = not (bit_and (byte_at e 12) 0x10 == 0) in
    c_string (
      short_part 8 0 lower_base e
      ++ (if byte_at e 8 == b' ' then [] else b'.' ∷ short_part 3 8 lower_ext e))
