-- ===== src/Pmm/Bits.antt =====
-- kernel/pmm.c, `SetBit`, `ClearBit` and `TestBit`: the bitmap as a map from pages to bits.
use bloom_os.Prelude.{
  ℕ, ◌*◌, ◌/◌, ◌%◌, ◌<◌, ◌≡◌, true, false, List, ◌==◌, if◌then◌else◌, arith, length, length-set,
  get_or-set_self, get_or-set_ne, All, All-set, All-get_or, Bool-cases, inl, inr,
}
use bloom_os.Prelude.Bytes.{
  IsByte, byte_at, set_in_byte, clear_in_byte, set_in_byte-IsByte, clear_in_byte-IsByte,
  test-set_in_byte, test-clear_in_byte,
}
use bloom_os.Pmm.{set_bit, clear_bit, test_bit}

module _ (bm : List ℕ) (bytes : All IsByte bm) where
  byte_at-IsByte : (i : ℕ) → byte_at bm i < 256
  byte_at-IsByte i = All-get_or IsByte bm i 0 bytes (omega arith)

  pub set_bit-IsByte : (p : ℕ) → All IsByte (set_bit bm p)
  unfolding set_bit
  set_bit-IsByte p =
      All-set IsByte bm (p / 8) _ bytes
        (set_in_byte-IsByte _ _ (byte_at-IsByte (p / 8)) (omega arith))

  pub clear_bit-IsByte : (p : ℕ) → All IsByte (clear_bit bm p)
  unfolding clear_bit
  clear_bit-IsByte p =
      All-set IsByte bm (p / 8) _ bytes
        (clear_in_byte-IsByte _ _ (byte_at-IsByte (p / 8)) (omega arith))

  pub test-set_bit :
      (p q : ℕ)
      → p < 8 * length bm
      → test_bit (set_bit bm p) q ≡ (if p == q then true else test_bit bm q)
  unfolding set_bit test_bit
  test-set_bit p q h = elim (Bool-cases (p / 8 == q / 8)) [
    | inl same ↦ ground (
      arith,
      get_or-set_self bm (p / 8) (set_in_byte (byte_at bm (p / 8)) (p % 8)) 0,
      test-set_in_byte (byte_at bm (p / 8)) (p % 8) (q % 8) (byte_at-IsByte (p / 8)),
    )
    | inr other ↦
        ground
          (arith, get_or-set_ne bm (p / 8) (q / 8) (set_in_byte (byte_at bm (p / 8)) (p % 8)) 0)
  ]

  pub test-clear_bit :
      (p q : ℕ)
      → p < 8 * length bm
      → test_bit (clear_bit bm p) q ≡ (if p == q then false else test_bit bm q)
  unfolding clear_bit test_bit
  test-clear_bit p q h = elim (Bool-cases (p / 8 == q / 8)) [
    | inl same ↦ ground (
      arith,
      get_or-set_self bm (p / 8) (clear_in_byte (byte_at bm (p / 8)) (p % 8)) 0,
      test-clear_in_byte (byte_at bm (p / 8)) (p % 8) (q % 8) (byte_at-IsByte (p / 8)),
    )
    | inr other ↦
        ground
          (arith, get_or-set_ne bm (p / 8) (q / 8) (clear_in_byte (byte_at bm (p / 8)) (p % 8)) 0)
  ]

pub length-set_bit : (bm : List ℕ) (p : ℕ) → length (set_bit bm p) ≡ length bm
unfolding set_bit
length-set_bit bm p = length-set bm _ _

pub length-clear_bit : (bm : List ℕ) (p : ℕ) → length (clear_bit bm p) ≡ length bm
unfolding clear_bit
length-clear_bit bm p = length-set bm _ _
