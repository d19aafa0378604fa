-- ===== src/Prelude/Slices.antt =====
-- Runs of consecutive bytes of a medium that is addressed byte by byte.
use Prim.Native.Nat.{ℕ, zero, suc, ◌+◌, ◌-◌, ◌<◌, ◌≤◌}
use mathlib.Core.Path.{◌≡◌, refl, ap, ◌∙◌}
use mathlib.Core.List.{List, [], ◌∷◌, ◌++◌}
use native.Mathlib.Omega.{arith}
use bloom_os.Prelude.Lists.{length, take, drop, get_or}

-- The `n` bytes from address `a` on.
unfoldable pub slice : (ℕ → ℕ) → ℕ → ℕ → List ℕ
slice m a zero = []
slice m a (suc n) = m a ∷ slice m (a + 1) n

module _ (m : ℕ → ℕ) where
  pub slice_cong : {a b i j : ℕ} → a ≡ b → i ≡ j → slice m a i ≡ slice m b j
  slice_cong e f = cc

  pub slice-zero : (a : ℕ) → slice m a 0 ≡ []
  unfolding slice
  slice-zero a = refl

  pub length-slice : (a n : ℕ) → length (slice m a n) ≡ n
  unfolding slice
  length-slice a zero = refl
  length-slice a (suc n) = ap suc (length-slice (a + 1) n)

  pub slice-append : (a i j : ℕ) → slice m a i ++ slice m (a + i) j ≡ slice m a (i + j)
  unfolding slice
  slice-append a zero j =
      slice_cong {a = a + zero} {b = a} {i = j} {j = zero + j} (omega arith) (omega arith)
  slice-append a (suc i) j =
      let shift : slice m (a + suc i) j ≡ slice m (a + 1 + i) j = slice_cong (omega arith) refl in
      let split : slice m a (suc i + j) ≡ slice m a (suc (i + j)) =
        slice_cong {a = a} {b = a} {i = suc i + j} {j = suc (i + j)} refl (omega arith) in
      rw (shift, split, slice-append (a + 1) i j)

  pub take-slice : (a i n : ℕ) → i ≤ n → take i (slice m a n) ≡ slice m a i
  unfolding slice
  take-slice a zero n h = refl
  take-slice a (suc i) zero h = absurd (omega arith)
  take-slice a (suc i) (suc n) h = ap (λ l. m a ∷ l) (take-slice (a + 1) i n (omega arith))

  pub drop-slice : (a i n : ℕ) → i ≤ n → drop i (slice m a n) ≡ slice m (a + i) (n - i)
  unfolding slice
  drop-slice a zero n h = slice_cong (omega arith) (omega arith)
  drop-slice a (suc i) zero h = absurd (omega arith)
  drop-slice a (suc i) (suc n) h =
      drop-slice (a + 1) i n (omega arith) ∙ slice_cong (omega arith) (omega arith)

  pub get_or-slice : (a n i d : ℕ) → i < n → get_or (slice m a n) i d ≡ m (a + i)
  unfolding slice
  get_or-slice a zero i d h = absurd (omega arith)
  get_or-slice a (suc n) zero d h = ap m (omega arith)
  get_or-slice a (suc n) (suc i) d h = get_or-slice (a + 1) n i d (omega arith) ∙ ap m (omega arith)

-- Two media that agree on a run, at whatever addresses.
pub slice_ext :
    (m w : ℕ → ℕ) (a b n : ℕ)
    → ((i : ℕ) → i < n → m (a + i) ≡ w (b + i))
    → slice m a n ≡ slice w b n
unfolding slice
slice_ext m w a b zero h = refl
slice_ext m w a b (suc n) h =
    let first : m a ≡ w b = ap m (omega arith) ∙ h 0 (omega arith) ∙ ap w (omega arith) in
    let shift : (i : ℕ) → i < n → m (a + 1 + i) ≡ w (b + 1 + i) =
      λ i l. ap m (omega arith) ∙ h (suc i) (omega arith) ∙ ap w (omega arith) in
    rw (first, slice_ext m w (a + 1) (b + 1) n shift)
