-- ===== src/Part/Gpt/Flat/Header.antt =====
-- kernel/part.c, `ScanGpt`: a valid header and its whole array of entries.
use native.Mathlib.Nat.{div-add-mod', mod-lt, zero-mul, mul_assoc}
use bloom_os.Prelude.{
  if◌then◌else◌, ◌&&◌, ◌||◌, not, ltb, ◌==◌, ℕ, zero, suc, ◌+◌, ◌-◌, ◌*◌, ◌/◌, ◌%◌, ◌^◌, ◌≤◌, ◌<◌,
  ◌≡◌, refl, ap, ◌∙◌, Bool, true, false, List, some, min, arith,
}
use bloom_os.Prelude.Bytes.{le32, le64}
use bloom_os.Prelude.Slices.{slice, slice_cong}
use bloom_os.Block.{Table}
use bloom_os.Part.{Scan, read_native}
use bloom_os.Part.Gpt.{Pass, gpt_sectors, gpt_valid, scan_header, scan_gpt, max_gpt_entries}
use bloom_os.Part.Gpt.Flat.{flat_entries}
use bloom_os.Part.Gpt.Flat.Loops.{gpt_sectors_flat}

if_yes : (b : Bool) (x y : ℕ × Scan) → b ≡ true → (if b then x else y) ≡ x
if_yes true x y h = refl
if_yes false x y h = cc

and_right : (a b : Bool) → (a && b) ≡ true → b ≡ true
and_right a b h = ground arith

header_sizes :
    (size native count : ℕ)
    → not (
        ltb size 128
        || (ltb native size
            || (not (native % size == 0) || (count == 0 || ltb max_gpt_entries count))))
      ≡ true
    → (128 ≤ size) × (size ≤ native) × (native % size ≡ 0)
header_sizes size native count h = ground arith

per_pos : (per size native : ℕ) → native ≡ per * size → 128 ≤ size → size ≤ native → 0 < per
per_pos zero size native e h k = absurd (omega (arith, zero-mul size))
per_pos (suc per) size native e h k = omega arith

enough_sectors : (count per : ℕ) → 0 < per → count ≤ (count + per - 1) / per * per
enough_sectors count per h =
    omega (arith, div-add-mod' (count + per - 1) per, mod-lt (count + per - 1) h)

-- `ScanGpt` on a valid header whose sectors of entries can be read: the nested loops over sectors
-- and their entries do what one loop over a flat array of all the entries does, entry 0 to the last,
-- each with its number, and stop where the table of partitions is full. `base` is where the array
-- lies on the medium.
pub scan_gpt_flat :
    (t : Table) (device ratio : ℕ) (disk : ℕ → ℕ) (base : ℕ) (h : List ℕ) (s : Scan)
    → read_native t device 1 ratio ≡ some h
    → gpt_valid t device ratio h ≡ true
    → ((k : ℕ)
        → k < (le32 h 80 + ratio * 512 / le32 h 84 - 1) / (ratio * 512 / le32 h 84)
        → read_native t device ((le64 h 72 + k) % 2 ^ 64) ratio
          ≡ some (slice disk (base + k * (ratio * 512)) (ratio * 512)))
    → let pass = flat_entries t device ratio disk base (le32 h 84) (le32 h 80) 0 0 s in
      scan_gpt t device ratio s ≡ (pass.found, pass.scan)
unfolding scan_gpt scan_header gpt_valid
scan_gpt_flat t device ratio disk base h s header valid reads =
    let size = le32 h 84 in
    let count = le32 h 80 in
    let per = ratio * 512 / size in
    let sectors = (count + per - 1) / per in
    let sizes = header_sizes size (ratio * 512) count (and_right _ _ valid) in
    let native : ratio * 512 ≡ per * size =
      omega (arith, div-add-mod' (ratio * 512) size, sizes.2) in
    let some_entry = per_pos per size (ratio * 512) native sizes.0 sizes.1 in
    let all : min (sectors * per) (count - 0 * per) ≡ count =
      omega (arith, zero-mul per, enough_sectors count per some_entry) in
    let loops =
      gpt_sectors_flat t device ratio disk base size count (le64 h 72) per sectors 0 0 s
        (omega arith) native
        (λ k lo hi.
          reads k (omega arith)
          ∙ ap some (
              slice_cong disk (omega (arith, ap (λ (x : ℕ). k * x) native, mul_assoc k per size))
                native)) in
    let flat = ap (λ k. flat_entries t device ratio disk base size k (0 * per) 0 s) all in
    let as_result : Pass → ℕ × Scan = λ p. (p.found, p.scan) in
    let start = ap (λ i. flat_entries t device ratio disk base size count i 0 s) (zero-mul per) in
    let loop = gpt_sectors t device ratio count size sectors 0 per (le64 h 72) 0 s in
    ap (λ r. scan_header t device ratio r s) header
    ∙ if_yes (gpt_valid t device ratio h) (as_result loop) (0, s) valid
    ∙ ap as_result (loops ∙ flat ∙ start)
