-- ===== src/Part/Gpt/Flat/Loops.antt =====
-- kernel/part.c, `ScanGpt`: the two loops are the loop over a flat array of entries.
use mathlib.Core.Path.{subst}
use native.Mathlib.Nat.{add-mul, one-mul, zero-mul, suc-mul}
use bloom_os.Prelude.{
  ◌⊎◌, ℕ, zero, suc, ◌+◌, ◌-◌, ◌*◌, ◌%◌, ◌^◌, ◌≤◌, ◌<◌, ◌≡◌, refl, sym, ap, ◌∙◌, true, false, some,
  leb, min, arith, Bool-cases, inl, inr, drop,
}
use bloom_os.Prelude.Slices.{slice, drop-slice, slice_cong}
use bloom_os.Block.{Table}
use bloom_os.Part.{Scan, read_native}
use bloom_os.Part.Gpt.{Pass, entry_range, add_range, gpt_entries, gpt_sectors}
use bloom_os.Part.Gpt.Flat.{
  pick_true, pick_false, entry_range-slice, flat_entries, go_on, first_pass, flat_full, flat_next,
  flat_entries-split,
}

module _ (t : Table) (device ratio : ℕ) (disk : ℕ → ℕ) (base size : ℕ) where
  gpt_entries_flat :
      (entry_count n e index at bytes found : ℕ) (s : Scan)
      → 48 ≤ size
      → at + e * size ≡ base + index * size
      → (e + n) * size ≤ bytes
      → gpt_entries t device ratio entry_count size n e index (slice disk at bytes) found s
        ≡ flat_entries t device ratio disk base size (min n (entry_count - index)) index found s
  unfolding gpt_entries flat_entries first_pass
  gpt_entries_flat entry_count zero e index at bytes found s big place fits =
      let none_left : min zero (entry_count - index) ≡ 0 = omega arith in
      ap (λ k. flat_entries t device ratio disk base size k index found s) (sym none_left)
  gpt_entries_flat entry_count (suc n) e index at bytes found s big place fits =
      let here : e * size + size ≤ bytes = grind arith in
      let entry : entry_range (drop (e * size) (slice disk at bytes))
          ≡ entry_range (slice disk (base + index * size) 48) =
        ap entry_range
          (drop-slice disk at (e * size) bytes (omega arith) ∙ slice_cong disk place refl)
        ∙ entry_range-slice disk (base + index * size) (bytes - e * size) (omega arith) in
      let pass = first_pass t device ratio disk base size index found s in
      let place_on : e + suc n ≡ e + 1 + n = omega arith in
      elim (Bool-cases (leb entry_count index)) [
        | inl b ↦
            let left : min (suc n) (entry_count - index) ≡ 0 = ground arith in
            rw (gpt_entries, b) refl
            ∙ ap (λ k. flat_entries t device ratio disk base size k index found s) (sym left)
        | inr b ↦
            let left : min (suc n) (entry_count - index) ≡ suc (min n (entry_count - (index + 1))) =
              ground arith in
            let read_pass =
              add_range t device ratio (index + 1)
                (entry_range (drop (e * size) (slice disk at bytes))) found s in
            let same : read_pass ≡ pass =
              ap (λ r. add_range t device ratio (index + 1) r found s) entry in
            let rest = λ (p : Pass). elim p.full as (λ _. Pass) [
              | true ↦ p
              | false ↦
                  gpt_entries t device ratio entry_count size n (e + 1) (index + 1)
                    (slice disk at bytes) p.found p.scan
            ] in
            let opened : gpt_entries t device ratio entry_count size (suc n) e index
                  (slice disk at bytes) found s
                ≡ rest pass =
              rw (gpt_entries, b) refl ∙ ap rest same in
            let tail : rest pass
                ≡ flat_entries t device ratio disk base size
                    (suc (min n (entry_count - (index + 1)))) index found s =
              elim (Bool-cases pass.full) [
                | inl f ↦
                    pick_true pass.full pass _ f
                    ∙ sym (
                        flat_full t device ratio disk base size (min n (entry_count - (index + 1)))
                          index found s f)
                | inr f ↦
                    pick_false pass.full pass _ f
                    ∙ gpt_entries_flat entry_count n (e + 1) (index + 1) at bytes pass.found
                        pass.scan big
                        (omega (arith, add-mul e 1 size, add-mul index 1 size, one-mul size))
                        (subst (λ k. k * size ≤ bytes) place_on fits)
                    ∙ sym (
                        flat_next t device ratio disk base size (min n (entry_count - (index + 1)))
                          index found s f)
              ] in
            opened
            ∙ tail
            ∙ ap (λ k. flat_entries t device ratio disk base size k index found s) (sym left)
      ]

  -- With no round left the index does not matter.
  index_free :
      (n j k found : ℕ) (s : Scan)
      → (n ≡ 0) ⊎ (j ≡ k)
      → flat_entries t device ratio disk base size n j found s
        ≡ flat_entries t device ratio disk base size n k found s
  unfolding flat_entries
  index_free zero j k found s h = refl
  index_free (suc n) j k found s (inl h) = absurd (omega (arith, h))
  index_free (suc n) j k found s (inr h) =
      ap (λ x. flat_entries t device ratio disk base size (suc n) x found s) h

  pub gpt_sectors_flat :
      (entry_count entries_lba per n i found : ℕ) (s : Scan)
      → 48 ≤ size
      → ratio * 512 ≡ per * size
      → ((k : ℕ)
          → i ≤ k
          → k < i + n
          → read_native t device ((entries_lba + k) % 2 ^ 64) ratio
            ≡ some (slice disk (base + k * per * size) (per * size)))
      → gpt_sectors t device ratio entry_count size n i per entries_lba found s
        ≡ flat_entries t device ratio disk base size
            (min (n * per) (entry_count - i * per))
            (i * per)
            found
            s
  unfolding gpt_sectors flat_entries go_on
  gpt_sectors_flat entry_count entries_lba per zero i found s big native reads =
      let none_left : min (zero * per) (entry_count - i * per) ≡ 0 = omega (arith, zero-mul per) in
      ap (λ k. flat_entries t device ratio disk base size k (i * per) found s) (sym none_left)
  gpt_sectors_flat entry_count entries_lba per (suc n) i found s big native reads =
      let here = reads i (omega arith) (omega arith) in
      let sector = slice disk (base + i * per * size) (per * size) in
      let pass = gpt_entries t device ratio entry_count size per 0 (i * per) sector found s in
      let first = min per (entry_count - i * per) in
      let more = min (n * per) (entry_count - (i + 1) * per) in
      let entries : pass ≡ flat_entries t device ratio disk base size first (i * per) found s =
        gpt_entries_flat entry_count per 0 (i * per) (base + i * per * size) (per * size) found s
          big (omega (arith, zero-mul size)) (omega (arith, add-mul 0 per size, zero-mul size)) in
      let rest = λ (p : Pass). elim p.full as (λ _. Pass) [
        | true ↦ p
        | false ↦
            gpt_sectors t device ratio entry_count size n (i + 1) per entries_lba p.found p.scan
      ] in
      let opened : gpt_sectors t device ratio entry_count size (suc n) i per entries_lba found s
          ≡ rest (flat_entries t device ratio disk base size first (i * per) found s) =
        rw (gpt_sectors, here) refl ∙ ap rest entries in
      let P = flat_entries t device ratio disk base size first (i * per) found s in
      let sizes : min (suc n * per) (entry_count - i * per) ≡ first + more =
        omega (arith, suc-mul n per, add-mul i 1 per, one-mul per) in
      let meet : (more ≡ 0) ⊎ (i * per + first ≡ (i + 1) * per) =
        omega (arith, add-mul i 1 per, one-mul per) in
      let tail : rest P ≡ go_on t device ratio disk base size more (i * per + first) P =
        elim (Bool-cases P.full) [
          | inl f ↦ pick_true P.full P _ f ∙ sym (pick_true P.full P _ f)
          | inr f ↦
              pick_false P.full P _ f
              ∙ gpt_sectors_flat entry_count entries_lba per n (i + 1) P.found P.scan big native
                  (λ k lo hi. reads k (omega arith) (omega arith))
              ∙ sym (index_free more (i * per + first) ((i + 1) * per) P.found P.scan meet)
              ∙ sym (pick_false P.full P _ f)
        ] in
      opened
      ∙ tail
      ∙ sym (flat_entries-split t device ratio disk base size first more (i * per) found s)
      ∙ ap (λ k. flat_entries t device ratio disk base size k (i * per) found s) (sym sizes)
