-- ===== src/Fat/File/Copy.antt =====
-- kernel/fat32.c, `FatReadAt`: the rounds of the copying loop.
use mathlib.Core.Path.{subst}
use bloom_os.Prelude.{
  ℕ, zero, suc, ◌+◌, ◌-◌, ◌*◌, ◌/◌, ◌%◌, ◌^◌, ◌<◌, ◌≤◌, ◌≡◌, ◌∙◌, sym, ap, refl, Bool, true, false,
  ◌&&◌, List, ◌++◌, Option, some, ltb, lt→ltb, le→ltb, ◌==◌, arith, Bool-cases, inl, inr, ◌⊎◌, ◌≢◌,
}
use native.Mathlib.Nat.{div-add-mod'}
use native.Mathlib.Decide.{dec_lt}
use bloom_os.Prelude.Slices.{slice, slice-zero, slice_cong, slice-append}
use bloom_os.Fat.Disk.{ReadFn, Holds}
use bloom_os.Fat.Boot.{Geometry, Volume}
use bloom_os.Fat.Table.{cluster_lba, cluster_valid, next_cluster}
use bloom_os.Fat.Table.Chain.{chain, IsCoherent, next_in_chain}
use bloom_os.Fat.File.{
  Entry, Stop, copy, stop, prepend, piece, take_of, chunk_of, in_cluster, cluster_bytes,
}
use bloom_os.Fat.File.Content.{IsStored, round_piece, round_facts, div_of, mod_of, file_byte}

-- The place in the file, the bytes that a round takes, and the test for the end of a cluster.
abbrev place : ℕ → ℕ → ℕ
place offset finished = (offset + finished) % 2 ^ 32

abbrev taken : Geometry → ℕ → ℕ → ℕ → ℕ
taken g offset length finished = take_of g (place offset finished) (length - finished)

abbrev at_boundary : Geometry → ℕ → ℕ → ℕ → Bool
at_boundary g offset length finished =
    ltb (finished + taken g offset length finished) length
    && place offset (finished + taken g offset length finished) % cluster_bytes g == 0

abbrev asks : ReadFn → Geometry → ℕ → ℕ → ℕ → Option (List ℕ)
asks read g cluster offset finished =
    read ((cluster_lba g cluster + in_cluster g (place offset finished) / 512) % 2 ^ 64)
      (chunk_of g (place offset finished))

module _ (read : ReadFn) (offset length fuel finished index cluster : ℕ) (v : Volume) where
  copy_stops :
      length ≤ finished
      → copy read offset length (suc fuel) finished index cluster v ≡ stop index cluster v
  unfolding copy
  copy_stops h = ground (arith, le→ltb finished length h)

  module _ (more : finished < length) {buffer : List ℕ}
      (reads : asks read v.geometry cluster offset finished ≡ some buffer) where
    copy_stays :
        at_boundary v.geometry offset length finished ≡ false
        → copy read offset length (suc fuel) finished index cluster v
          ≡ prepend (piece v.geometry (place offset finished) (length - finished) buffer) (
              copy read offset length fuel
                (finished + taken v.geometry offset length finished)
                index
                cluster
                v)
    unfolding copy
    copy_stays inside = ground (arith, lt→ltb finished length more, reads, inside)

    copy_moves :
        at_boundary v.geometry offset length finished ≡ true
        → cluster_valid (next_cluster read v cluster).0 ≡ true
        → copy read offset length (suc fuel) finished index cluster v
          ≡ prepend (piece v.geometry (place offset finished) (length - finished) buffer) (
              copy read offset length fuel
                (finished + taken v.geometry offset length finished)
                (index + 1)
                (next_cluster read v cluster).0
                (next_cluster read v cluster).1)
    unfolding copy
    copy_moves boundary valid = ground (arith, lt→ltb finished length more, reads, boundary, valid)

-- Where the loop stops after it has delivered all the bytes: the cursor stands on the chain of the
-- file, and the volume is coherent.
pub record Copied (read : ReadFn) (disk : ℕ → ℕ) (g : Geometry) (file : Entry) (pos count : ℕ)
    (s : Stop) : Type 0 where
  pub bytes : s.bytes ≡ slice (file_byte read disk g file.cluster) pos count
  pub cursor : s.cluster ≡ chain read g file.cluster s.index
  pub same : s.volume.geometry ≡ g
  pub coherent : IsCoherent read s.volume

prepend-Copied :
    (read : ReadFn) (disk : ℕ → ℕ) (g : Geometry) (file : Entry) (pos k count : ℕ) (part : List ℕ)
    {s : Stop}
    → part ≡ slice (file_byte read disk g file.cluster) pos k
    → k ≤ count
    → Copied read disk g file (pos + k) (count - k) s
    → Copied read disk g file pos count (prepend part s)
prepend-Copied read disk g file pos k count part {s} is_part le c = record {
  bytes =
      ap (λ l. l ++ s.bytes) is_part
      ∙ ap (λ l. slice (file_byte read disk g file.cluster) pos k ++ l) c.bytes
      ∙ slice-append (file_byte read disk g file.cluster) pos k (count - k)
      ∙ slice_cong (file_byte read disk g file.cluster) refl (omega arith);
  cursor = c.cursor;
  same = c.same;
  coherent = record { cached = c.coherent.cached; cursor = c.coherent.cursor };
}

-- A step of `k` bytes from `o` inside a cluster stays in it or ends exactly at its end.
cluster_step :
    (c o k : ℕ)
    → 0 < k
    → o % c + k ≤ c
    → (((o + k) / c ≡ o / c) × ((o + k) % c ≢ 0))
      ⊎ ((o + k ≡ (o / c + 1) * c) × ((o + k) / c ≡ o / c + 1) × ((o + k) % c ≡ 0))
cluster_step c o k more le = elim (dec_lt (o % c + k) c) [
  | yes inside ↦
      let split : o + k ≡ o / c * c + (o % c + k) = omega (arith, div-add-mod' o c) in
      inl (
        div_of c (o / c) (o % c + k) (o + k) split inside,
        λ z. omega (arith, mod_of c (o / c) (o % c + k) (o + k) split inside),
      )
  | no out ↦
      let split : o + k ≡ (o / c + 1) * c + 0 = omega (arith, div-add-mod' o c) in
      inr (
        omega arith,
        div_of c (o / c + 1) 0 (o + k) split (omega arith),
        mod_of c (o / c + 1) 0 (o + k) split (omega arith),
      )
]

-- What the test for the end of a cluster tells, for a round of `k` bytes.
boundary_facts :
    (c offset length finished k size : ℕ)
    → 0 < k
    → k ≤ length - finished
    → finished < length
    → offset + length ≤ size
    → size < 2 ^ 32
    → (offset + finished) % c + k ≤ c
    → ((ltb (finished + k) length && place offset (finished + k) % c == 0) ≡ false
        → finished + k < length
        → (offset + finished) / c ≡ (offset + (finished + k)) / c)
      × ((ltb (finished + k) length && place offset (finished + k) % c == 0) ≡ true
          → (finished + k < length)
            × ((offset + finished) / c + 1 ≡ (offset + (finished + k)) / c)
            × (((offset + finished) / c + 1) * c < size))
boundary_facts c offset length finished k size a b more fits small le =
    let sum : offset + (finished + k) ≡ offset + finished + k = omega arith in
    let wrap : place offset (finished + k) ≡ offset + finished + k = omega arith in
    rw (wrap, sum)
      (elim (cluster_step c (offset + finished) k a le) [
        | inl (same, nonzero) ↦ ((λ e l. sym same), (λ e. ground (arith, nonzero)))
        | inr (ends, next, is_zero) ↦ (
          (λ e l. ground (arith, is_zero)),
          (λ e.
              let inside : finished + k < length = ground arith in
              (inside, sym next, omega (arith, ends))),
        )
      ])

module _ {read : ReadFn} {disk : ℕ → ℕ} {sectors : ℕ} (holds : Holds read disk sectors)
    (file : Entry) (offset length : ℕ) (fits : offset + length ≤ file.size) where
  -- The facts of a round that starts inside the file, at the cluster of its place.
  module _ (g : Geometry) (stored : IsStored read sectors g file) (finished index : ℕ)
      (more : finished < length) (at_index : index ≡ (offset + finished) / cluster_bytes g) where
    place_exact : place offset finished ≡ offset + finished
    place_exact = omega (arith, stored.sized)

    round :
        (buffer : List ℕ) × (asks read g (chain read g file.cluster index) offset finished
          ≡ some buffer)
        × (piece g (place offset finished) (length - finished) buffer
            ≡ slice
                (file_byte read disk g file.cluster)
                (offset + finished)
                (taken g offset length finished))
    round =
        rw (place_exact, at_index)
          (round_piece holds stored (offset + finished) (length - finished) (omega arith)
            (omega arith))

    step_facts :
        (0 < taken g offset length finished)
        × (taken g offset length finished ≤ length - finished)
        × (at_boundary g offset length finished ≡ false
            → finished + taken g offset length finished < length
            → index ≡ (offset + (finished + taken g offset length finished)) / cluster_bytes g)
        × (at_boundary g offset length finished ≡ true
            → (finished + taken g offset length finished < length)
              × (index + 1
                  ≡ (offset + (finished + taken g offset length finished)) / cluster_bytes g)
              × ((index + 1) * cluster_bytes g < file.size))
    step_facts =
        let facts =
          round_facts g (place offset finished) (length - finished) stored.positive (omega arith) in
        let here : (offset + finished) % cluster_bytes g ≡ in_cluster g (place offset finished) =
          ap (λ t. t % cluster_bytes g) (sym place_exact) in
        let arithmetic =
          boundary_facts (cluster_bytes g) offset length finished (taken g offset length finished)
            file.size facts.1 facts.2 more fits stored.sized (omega (arith, here, facts.5)) in
        (facts.1, facts.2, rw at_index arithmetic.0, rw at_index arithmetic.1)

  -- The loop from a place of the file on, at the cluster of that place.
  pub copy_lem :
      (fuel finished index cluster : ℕ) (v : Volume)
      → IsStored read sectors v.geometry file
      → IsCoherent read v
      → cluster ≡ chain read v.geometry file.cluster index
      → finished ≤ length
      → length - finished < fuel
      → (finished < length → index ≡ (offset + finished) / cluster_bytes v.geometry)
      → Copied read disk v.geometry file
          (offset + finished)
          (length - finished)
          (copy read offset length fuel finished index cluster v)
  copy_lem zero finished index cluster v stored coherent at le f at_index = absurd (omega arith)
  copy_lem (suc fuel) finished index cluster v stored coherent at le f at_index =
      elim (dec_lt finished length) [
        | no over ↦
            let none_left : length - finished ≡ 0 = omega arith in
            rw
              (copy_stops read offset length fuel finished index cluster v (omega arith), none_left)
              (record {
                bytes = sym (slice-zero _ (offset + finished));
                cursor = at;
                same = refl;
                coherent = coherent;
              })
        | yes more ↦
            let g = v.geometry in
            let k = taken g offset length finished in
            let (buffer, reads, is_part) = round g stored finished index more (at_index more) in
            let facts = step_facts g stored finished index more (at_index more) in
            let reads' : asks read g cluster offset finished ≡ some buffer = rw at reads in
            let rest_eq : length - finished - k ≡ length - (finished + k) = omega arith in
            let pos_eq : offset + finished + k ≡ offset + (finished + k) = omega arith in
            elim (Bool-cases (at_boundary g offset length finished)) [
              | inr inside ↦
                  rw
                    (copy_stays read offset length fuel finished index cluster v more reads' inside)
                    (prepend-Copied read disk g file (offset + finished) k (length - finished)
                      (piece g (place offset finished) (length - finished) buffer) is_part facts.1
                      (rw (rest_eq, pos_eq)
                        (copy_lem fuel (finished + k) index cluster v stored coherent at
                          (omega (arith, facts.0, facts.1)) (omega (arith, facts.0, facts.1))
                          (facts.2 inside))))
              | inl boundary ↦
                  let ends = facts.3 boundary in
                  let next : ℕ × Volume = next_cluster read v cluster in
                  let moved = next_in_chain read v g file.cluster index refl coherent in
                  let is_next : next.0 ≡ chain read g file.cluster (index + 1) = rw at moved.0 in
                  let same : next.1.geometry ≡ g = rw at moved.1 in
                  let valid : cluster_valid next.0 ≡ true =
                    rw is_next (stored.valid (index + 1) ends.2) in
                  rw
                    (copy_moves read offset length fuel finished index cluster v more reads'
                      boundary valid)
                    (prepend-Copied read disk g file (offset + finished) k (length - finished)
                      (piece g (place offset finished) (length - finished) buffer) is_part facts.1
                      (rw (rest_eq, pos_eq)
                        (subst
                          (λ h.
                            Copied read disk h file (offset + (finished + k))
                              (length - (finished + k))
                              (copy read offset length fuel (finished + k) (index + 1) next.0
                                next.1))
                          same
                          (copy_lem fuel (finished + k) (index + 1) next.0 next.1
                            (subst (λ h. IsStored read sectors h file) (sym same) stored)
                            (rw at moved.2)
                            (is_next ∙ ap (λ h. chain read h file.cluster (index + 1)) (sym same))
                            (omega (arith, facts.0, facts.1)) (omega (arith, facts.0, facts.1))
                            (λ _.
                              ends.1
                              ∙ ap (λ h. (offset + (finished + k)) / cluster_bytes h)
                                  (sym same))))))
            ]
      ]
