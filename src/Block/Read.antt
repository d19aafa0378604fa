-- ===== src/Block/Read.antt =====
-- kernel/blockdev.c, `BlockReadFrom`: what a read returns, and when it is refused.
use bloom_os.Prelude.{
  ℕ, zero, suc, ◌+◌, ◌-◌, ◌*◌, ◌%◌, ◌^◌, ◌<◌, ◌≤◌, ◌≡◌, ◌≢◌, ◌∙◌, sym, ap, refl, true, false, none,
  some, ltb, leb, ◌==◌, arith, ◌⊎◌, inl, inr, ◌&&◌, ◌||◌,
}
use bloom_os.Prelude.Int.{ℤ}
use bloom_os.Prelude.Monad.{>>=-of_some, >>=-of_none}
use bloom_os.Prelude.Slices.{slice, slice-zero}
use bloom_os.Block.{Device, Table, read_direct, read_device, block_read_from, device_at, ratio}
use bloom_os.Block.Loops.{Serves, IsSized, IsRatio, read_direct_lem, read_wide_lem}

abbrev SizeIs : Device → ℕ → Type 0
SizeIs d limit = (d.sector_count ≡ 0) ⊎ (d.sector_count ≡ limit)

-- The range test passes for a read inside the medium.
in_range_of_le :
    (n limit lba count r : ℕ)
    → IsRatio r
    → limit * 8 < 2 ^ 64
    → (n ≡ 0) ⊎ (n ≡ limit)
    → lba + count ≤ limit * r
    → 0 < count
    → ((n == 0) || (ltb lba (n * r % 2 ^ 64) && leb count (n * r % 2 ^ 64 - lba))) ≡ true
in_range_of_le n limit lba count r (inl e) s z = rw e (λ h p. ground arith)
in_range_of_le n limit lba count r (inr (inl e)) s z = rw e (λ h p. ground arith)
in_range_of_le n limit lba count r (inr (inr (inl e))) s z = rw e (λ h p. ground arith)
in_range_of_le n limit lba count r (inr (inr (inr e))) s z = rw e (λ h p. ground arith)

out_of_range :
    (n lba count r : ℕ)
    → IsRatio r
    → n * 8 < 2 ^ 64
    → n ≢ 0
    → n * r < lba + count
    → ((n == 0) || (ltb lba (n * r % 2 ^ 64) && leb count (n * r % 2 ^ 64 - lba))) ≡ false
out_of_range n lba count r (inl e) s z = rw e (λ h. ground arith)
out_of_range n lba count r (inr (inl e)) s z = rw e (λ h. ground arith)
out_of_range n lba count r (inr (inr (inl e))) s z = rw e (λ h. ground arith)
out_of_range n lba count r (inr (inr (inr e))) s z = rw e (λ h. ground arith)

module _ {d : Device} {disk : ℕ → ℕ} {limit : ℕ} (served : Serves d disk limit) (sized : IsSized d)
    (online : d.online ≡ true) (size : SizeIs d limit) where
  read_device_lem :
      (lba count : ℕ)
      → lba + count ≤ limit * ratio d
      → read_device d lba count ≡ some (slice disk (lba * 512) (count * 512))
  unfolding read_device
  read_device_lem lba zero h = rw online (ap some (sym (slice-zero disk (lba * 512))))
  read_device_lem lba (suc c) h = ground (
    arith,
    online,
    in_range_of_le d.sector_count limit lba (suc c) (ratio d) sized.known served.small size h
        (omega arith),
    read_wide_lem served sized (suc (suc c)) lba (suc c) (omega arith) h,
    direct,
  )
    where
      direct :
          ratio d ≡ 1
          → read_direct (suc (suc c)) d lba (suc c) ≡ some (slice disk (lba * 512) (suc c * 512))
      direct one =
          read_direct_lem served sized (suc (suc c)) lba (suc c) one (omega arith)
            (omega (arith, h, ap (λ r. limit * r) one))

-- Reading a registered, online device whose driver serves a medium: any run of 512-byte sectors
-- inside the medium comes back byte for byte, for every native sector size and every limit on the
-- length of a request. (The loops end: the fuel is one more than the count.)
pub block_read_from_lem :
    (t : Table) (index : ℤ) (lba count : ℕ) {d : Device} {disk : ℕ → ℕ} {limit : ℕ}
    → device_at t index ≡ some d
    → Serves d disk limit
    → IsSized d
    → d.online ≡ true
    → (d.sector_count ≡ 0) ⊎ (d.sector_count ≡ limit)
    → lba + count ≤ limit * ratio d
    → block_read_from t index lba count ≡ some (slice disk (lba * 512) (count * 512))
unfolding block_read_from
block_read_from_lem t index lba count at served sized online size h =
    >>=-of_some (λ e. read_device e lba count) at
    ∙ read_device_lem served sized online size lba count h

-- A read is refused, whatever the driver would answer, if the index is not that of a device, if the
-- device has been removed, or if a read of at least one sector goes beyond a known size.
pub block_read_from_refuses :
    (t : Table) (index : ℤ) (lba count : ℕ)
    → (device_at t index ≡ none)
      ⊎ ((d : Device) × (device_at t index ≡ some d)
          × ((d.online ≡ false)
              ⊎ (IsSized d
                  × (d.sector_count * 8 < 2 ^ 64)
                  × (d.sector_count ≢ 0)
                  × (count ≢ 0)
                  × (d.sector_count * ratio d < lba + count))))
    → block_read_from t index lba count ≡ none
unfolding block_read_from read_device
block_read_from_refuses t index lba count (inl gone) =
    >>=-of_none (λ e. read_device e lba count) gone
block_read_from_refuses t index lba count (inr (d, at, inl offline)) =
    >>=-of_some (λ e. read_device e lba count) at ∙ rw offline refl
block_read_from_refuses t index lba count (inr (d, at, inr (sized, small, known, some_count, h))) =
    >>=-of_some (λ e. read_device e lba count) at
    ∙ ground (arith, out_of_range d.sector_count lba count (ratio d) sized.known small known h)
