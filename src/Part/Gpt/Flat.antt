-- ===== src/Part/Gpt/Flat.antt =====
-- kernel/part.c, `ScanGpt`: one loop over a flat array of entries, which its two loops come to.
pub mod Loops
pub mod Header
use mathlib.Core.Path.{subst}
use native.Mathlib.Nat.{div-add-mod', mod-lt, add-mul, one-mul, zero-mul, mul_assoc, suc-mul}
use bloom_os.Prelude.{
  ◌⊎◌, if◌then◌else◌, ◌&&◌, ◌||◌, not, ltb, ◌==◌, ℕ, zero, suc, ◌+◌, ◌-◌, ◌*◌, ◌/◌, ◌%◌, ◌^◌, ◌≤◌,
  ◌<◌, ◌≡◌, refl, sym, ap, ◌∙◌, Bool, true, false, List, Option, none, some, leb, min, arith,
  Bool-cases, inl, inr, drop, take, length,
}
use bloom_os.Prelude.Bytes.{byte_at, le32, le64}
use bloom_os.Prelude.Slices.{slice, get_or-slice, take-slice, drop-slice, slice_cong}
use bloom_os.Block.{Table}
use bloom_os.Part.{Scan, read_native}
use bloom_os.Part.Gpt.{
  Pass, entry_range, add_range, gpt_entries, gpt_sectors, gpt_valid, scan_header, scan_gpt,
  max_gpt_entries,
}

byte_of_slice :
    (m : ℕ → ℕ) (a n i : ℕ) → i < 48 → 48 ≤ n → byte_at (slice m a n) i ≡ byte_at (slice m a 48) i
byte_of_slice m a n i h k =
    get_or-slice m a n i 0 (omega arith) ∙ sym (get_or-slice m a 48 i 0 (omega arith))

pick_true :
    (b : Bool) (x y : Pass) → b ≡ true → (elim b as (λ _. Pass) [ true ↦ x | false ↦ y ]) ≡ x
pick_true true x y e = refl
pick_true false x y e = cc

pick_false :
    (b : Bool) (x y : Pass) → b ≡ false → (elim b as (λ _. Pass) [ true ↦ x | false ↦ y ]) ≡ y
pick_false true x y e = cc
pick_false false x y e = refl

-- An entry is read from its first 48 bytes.
entry_range-slice :
    (m : ℕ → ℕ) (a n : ℕ) → 48 ≤ n → entry_range (slice m a n) ≡ entry_range (slice m a 48)
unfolding entry_range
entry_range-slice m a n h =
    let same = λ (i : ℕ) (k : i < 48). byte_of_slice m a n i k h in
    let guid : take 16 (slice m a n) ≡ take 16 (slice m a 48) =
      take-slice m a 16 n (omega arith) ∙ sym (take-slice m a 16 48 (omega arith)) in
    rw
      (
        guid,
        same 32 (omega arith),
        same 33 (omega arith),
        same 34 (omega arith),
        same 35 (omega arith),
        same 36 (omega arith),
        same 37 (omega arith),
        same 38 (omega arith),
        same 39 (omega arith),
        same 40 (omega arith),
        same 41 (omega arith),
        same 42 (omega arith),
        same 43 (omega arith),
        same 44 (omega arith),
        same 45 (omega arith),
        same 46 (omega arith),
        same 47 (omega arith),
      )
      refl

module _ (t : Table) (device ratio : ℕ) where
  -- The loop over a flat array of entries of `size` bytes from the address `base` of the medium on:
  -- the rounds left, the index of the entry.
  pub flat_entries : (ℕ → ℕ) → ℕ → ℕ → ℕ → ℕ → ℕ → Scan → Pass
  flat_entries disk base size zero index found s = record { full = false; found = found; scan = s }
  flat_entries disk base size (suc n) index found s =
      let entry = slice disk (base + index * size) 48 in
      let pass = add_range t device ratio (index + 1) (entry_range entry) found s in
      elim pass.full [
        | true ↦ pass
        | false ↦ flat_entries disk base size n (index + 1) pass.found pass.scan
      ]

  module _ (disk : ℕ → ℕ) (base size : ℕ) where
    go_on : ℕ → ℕ → Pass → Pass
    go_on n index pass = elim pass.full [
      | true ↦ pass
      | false ↦ flat_entries disk base size n index pass.found pass.scan
    ]

    first_pass : ℕ → ℕ → Scan → Pass
    first_pass index found s =
        add_range t device ratio (index + 1) (entry_range (slice disk (base + index * size) 48))
          found s

    flat_full :
        (n index found : ℕ) (s : Scan)
        → (first_pass index found s).full ≡ true
        → flat_entries disk base size (suc n) index found s ≡ first_pass index found s
    unfolding flat_entries first_pass
    flat_full n index found s f = pick_true (first_pass index found s).full _ _ f

    flat_next :
        (n index found : ℕ) (s : Scan)
        → (first_pass index found s).full ≡ false
        → flat_entries disk base size (suc n) index found s
          ≡ flat_entries disk base size n
              (index + 1)
              (first_pass index found s).found
              (first_pass index found s).scan
    unfolding flat_entries first_pass
    flat_next n index found s f = pick_false (first_pass index found s).full _ _ f

    flat_entries-split :
        (a b index found : ℕ) (s : Scan)
        → flat_entries disk base size (a + b) index found s
          ≡ go_on b (index + a) (flat_entries disk base size a index found s)
    unfolding flat_entries go_on
    flat_entries-split zero b index found s =
        let start : (zero + b ≡ b) × (index + zero ≡ index) = (omega arith, omega arith) in
        ap (λ k. flat_entries disk base size k index found s) start.0
        ∙ ap (λ k. flat_entries disk base size b k found s) (sym start.1)
    flat_entries-split (suc a) b index found s =
        let rounds : suc a + b ≡ suc (a + b) = omega arith in
        let pass = first_pass index found s in
        elim (Bool-cases pass.full) [
          | inl f ↦
              ap (λ k. flat_entries disk base size k index found s) rounds
              ∙ flat_full (a + b) index found s f
              ∙ sym (
                  ap (go_on b (index + suc a)) (flat_full a index found s f)
                  ∙ pick_true pass.full pass
                      (flat_entries disk base size b (index + suc a) pass.found pass.scan) f)
          | inr f ↦
              ap (λ k. flat_entries disk base size k index found s) rounds
              ∙ flat_next (a + b) index found s f
              ∙ flat_entries-split a b (index + 1) pass.found pass.scan
              ∙ ap (λ k. go_on b k (flat_entries disk base size a (index + 1) pass.found pass.scan))
                  (omega arith)
              ∙ sym (ap (go_on b (index + suc a)) (flat_next a index found s f))
        ]
