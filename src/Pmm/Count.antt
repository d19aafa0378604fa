-- ===== src/Pmm/Count.antt =====
-- kernel/pmm.c: the number of clear bits, which `FreePages` is meant to be.
use bloom_os.Prelude.{
  ℕ, zero, suc, ◌+◌, ◌*◌, ◌<◌, ◌≤◌, ◌≡◌, refl, true, false, List, if◌then◌else◌, arith, length, All,
  ltb,
}
use bloom_os.Prelude.Bytes.{IsByte}
use bloom_os.Pmm.{set_bit, clear_bit, test_bit}
use bloom_os.Pmm.Bits.{test-set_bit, test-clear_bit}

-- The clear bits among the first `n` pages.
unfoldable pub count_free : List ℕ → ℕ → ℕ
count_free bm zero = 0
count_free bm (suc n) = count_free bm n + (if test_bit bm n then 0 else 1)

pub count_free-le : (bm : List ℕ) (n : ℕ) → count_free bm n ≤ n
unfolding count_free
count_free-le bm zero = omega arith
count_free-le bm (suc n) = ground (arith, count_free-le bm n)

-- If every page of the range is in use then nothing is counted.
pub count_free-zero :
    (bm : List ℕ) (n : ℕ) → ((p : ℕ) → p < n → test_bit bm p ≡ true) → count_free bm n ≡ 0
unfolding count_free
count_free-zero bm zero h = refl
count_free-zero bm (suc n) h =
    ground (arith, h n (omega arith), count_free-zero bm n (λ p l. h p (omega arith)))

-- A clear page is counted.
pub count_free-pos : (bm : List ℕ) (n p : ℕ) → p < n → test_bit bm p ≡ false → 0 < count_free bm n
unfolding count_free
count_free-pos bm zero p h e = absurd (omega arith)
count_free-pos bm (suc n) p h e = ground (arith, count_free-pos bm n p)

module _ (bm : List ℕ) (bytes : All IsByte bm) (p : ℕ) (room : p < 8 * length bm) where
  -- Beyond the range a change is not counted; inside it the count moves by one.
  pub count_free-set_bit :
      (n : ℕ)
      → test_bit bm p ≡ false
      → count_free (set_bit bm p) n + (if ltb p n then 1 else 0) ≡ count_free bm n
  unfolding count_free
  count_free-set_bit zero e = ground arith
  count_free-set_bit (suc n) e =
      ground (arith, count_free-set_bit n e, test-set_bit bm bytes p n room)

  pub count_free-clear_bit :
      (n : ℕ)
      → test_bit bm p ≡ true
      → count_free (clear_bit bm p) n ≡ count_free bm n + (if ltb p n then 1 else 0)
  unfolding count_free
  count_free-clear_bit zero e = ground arith
  count_free-clear_bit (suc n) e =
      ground (arith, count_free-clear_bit n e, test-clear_bit bm bytes p n room)
