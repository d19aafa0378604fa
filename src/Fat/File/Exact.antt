-- ===== src/Fat/File/Exact.antt =====
-- kernel/fat32.c, `FatReadAt`: what a read returns.
use mathlib.Core.Path.{subst}
use bloom_os.Prelude.{
  ℕ, suc, ◌+◌, ◌-◌, ◌/◌, ◌<◌, ◌≤◌, ◌≡◌, ◌∙◌, sym, ap, refl, true, false, ◌&&◌, List, Option, none,
  some, ltb, leb, ◌==◌, if◌then◌else◌, arith, Bool-cases, inl, inr, min, length,
}
use native.Mathlib.Nat.{div-add-mod'}
use native.Mathlib.Decide.{dec_lt}
use bloom_os.Prelude.Slices.{slice, slice-zero}
use bloom_os.Fat.Disk.{ReadFn, Holds}
use bloom_os.Fat.Boot.{Geometry, Volume}
use bloom_os.Fat.Table.{cluster_valid}
use bloom_os.Fat.Table.Chain.{chain, chain-zero, IsCoherent}
use bloom_os.Fat.File.{
  Entry, Stop, copy, copy_out, leave_cursor, read_part, fat_read_at, seek, is_directory,
  cluster_bytes,
}
use bloom_os.Fat.File.Content.{IsStored, file_byte}
use bloom_os.Fat.File.Seek.{seek_lem}
use bloom_os.Fat.File.Copy.{Copied, copy_lem}

-- The bytes of a part of the file, in a coherent volume of the same geometry.
abbrev pub Returns : ReadFn → (ℕ → ℕ) → Geometry → Entry → ℕ → ℕ → List ℕ × Volume → Type 0
Returns read disk g file offset count r =
    (r.0 ≡ slice (file_byte read disk g file.cluster) offset count)
    × (r.1.geometry ≡ g)
    × IsCoherent read r.1

leave_cursor-Returns :
    {read : ReadFn} {disk : ℕ → ℕ} {g : Geometry} {file : Entry} {offset count : ℕ} (s : Stop)
    → Copied read disk g file offset count s
    → Returns read disk g file offset count (leave_cursor file s)
leave_cursor-Returns {read} {disk} {g} {file} s c = (
  c.bytes,
  c.same,
  record {
    cached = c.coherent.cached;
    cursor = λ _. c.cursor ∙ ap (λ h. chain read h file.cluster s.index) (sym c.same);
  },
)

module _ {read : ReadFn} {disk : ℕ → ℕ} {sectors : ℕ} (holds : Holds read disk sectors)
    {g : Geometry} {file : Entry} (stored : IsStored read sectors g file) (offset length : ℕ)
    (start : offset < file.size) (fits : offset + length ≤ file.size) where
  copy_out_lem :
      (r : Option ℕ × Volume)
      → r.0 ≡ some (chain read g file.cluster (offset / cluster_bytes g))
      → r.1.geometry ≡ g
      → IsCoherent read r.1
      → Returns read disk g file offset length
          (copy_out read file offset length (offset / cluster_bytes g) r)
  unfolding copy_out
  copy_out_lem (none, v) e same coherent = cc
  copy_out_lem (some cluster, v) e same coherent =
      let is_some : cluster ≡ chain read g file.cluster (offset / cluster_bytes g) = cc in
      let at : cluster ≡ chain read v.geometry file.cluster (offset / cluster_bytes g) =
        is_some ∙ ap (λ h. chain read h file.cluster (offset / cluster_bytes g)) (sym same) in
      let done =
        subst
          (λ h.
            Copied read disk h file (offset + 0) (length - 0)
              (copy read offset length (suc length) 0 (offset / cluster_bytes g) cluster v))
          same
          (copy_lem holds file offset length fits (suc length) 0 (offset / cluster_bytes g) cluster
            v (subst (λ h. IsStored read sectors h file) (sym same) stored) coherent at
            (omega arith) (omega arith)
            (λ _.
              ap (λ t. t / cluster_bytes g) (omega arith)
              ∙ ap (λ h. (offset + 0) / cluster_bytes h) (sym same))) in
      let from : offset + 0 ≡ offset = omega arith in
      let count : length - 0 ≡ length = omega arith in
      leave_cursor-Returns _ (rw (from, count) at done)

  sought :
      (j : ℕ) → j ≤ offset / cluster_bytes g → cluster_valid (chain read g file.cluster j) ≡ true
  sought j h = stored.valid j (grind (arith, div-add-mod' offset (cluster_bytes g)))

module _ {read : ReadFn} {disk : ℕ → ℕ} {sectors : ℕ} (holds : Holds read disk sectors) (v : Volume)
    {file : Entry} (stored : IsStored read sectors v.geometry file)
    (coherent : IsCoherent read v) where
  read_part_lem :
      (offset length : ℕ)
      → offset < file.size
      → offset + length ≤ file.size
      → Returns read disk v.geometry file offset length (read_part read v file offset length)
  unfolding read_part
  read_part_lem offset length start fits =
      elim (Bool-cases (
        v.cursor_first == file.cluster
        && (leb v.cursor_index want && cluster_valid v.cursor_cluster))) [
          | inl cursor ↦
              let le : v.cursor_index ≤ want = ground arith in
              let first : v.cursor_first ≡ file.cluster = ground arith in
              let at : v.cursor_cluster ≡ chain read v.geometry file.cluster v.cursor_index =
                coherent.cursor (ground arith)
                ∙ ap (λ f. chain read v.geometry f v.cursor_index) first in
              let end : v.cursor_index + (want - v.cursor_index) ≡ want = omega arith in
              rw cursor (from_seek v.cursor_index (want - v.cursor_index) v.cursor_cluster at end)
          | inr start_over ↦ rw start_over (
              from_seek 0 want file.cluster (sym (chain-zero read v.geometry file.cluster))
                (omega arith))
        ]
    where
      want : ℕ
      want = offset / cluster_bytes v.geometry

      from_seek :
          (k n c : ℕ)
          → c ≡ chain read v.geometry file.cluster k
          → k + n ≡ want
          → Returns read disk v.geometry file offset length
              (copy_out read file offset length want (seek read n c v))
      from_seek k n c is_kth end =
          let (found, same, still) =
            seek_lem read v.geometry file.cluster n k v refl coherent
              (λ j l. sought holds stored offset length start fits j (omega arith)) in
          rw is_kth
            (copy_out_lem holds stored offset length start fits _ (rw end at found) same still)

  -- `FatReadAt` on a file that lies on the device returns exactly the bytes of the file from the
  -- offset on, as many as are wanted and there are, whatever the table's cached sector and wherever
  -- the cursor stands in a coherent volume; the volume stays coherent and keeps its geometry.
  pub fat_read_at_lem :
      (offset length : ℕ)
      → is_directory file ≡ false
      → Returns read disk v.geometry file offset
          (min length (file.size - offset))
          (fat_read_at read v file offset length)
  unfolding fat_read_at
  fat_read_at_lem offset length plain = elim (dec_lt offset file.size) [
    | no past ↦
        let beyond : leb file.size offset ≡ true = ground arith in
        let nothing : min length (file.size - offset) ≡ 0 = omega arith in
        rw (plain, beyond, nothing) (sym (slice-zero _ offset), refl, coherent)
    | yes start ↦
        let inside : leb file.size offset ≡ false = ground arith in
        let valid : cluster_valid file.cluster ≡ true =
          rw (chain-zero read v.geometry file.cluster) at (stored.valid 0 (omega arith)) in
        let cut : (if ltb (file.size - offset) length then file.size - offset else length)
            ≡ min length (file.size - offset) =
          ground arith in
        rw (plain, inside, valid, cut)
          (read_part_lem offset (min length (file.size - offset)) start (omega arith))
  ]
