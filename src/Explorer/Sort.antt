-- ===== src/Explorer/Sort.antt =====
-- kernel/explorer.c, the loops of `SortEntries`: a shell sort of the array of indices, for the test
-- `less` of two entries.
pub mod Counts
pub mod Order
use bloom_os.Prelude.{
  ℕ, zero, suc, ◌+◌, ◌-◌, ◌*◌, ◌/◌, Bool, true, false, ◌&&◌, List, [], ◌∷◌, leb, ◌==◌, get_or, set,
  length,
}

abbrev pub upto : ℕ → ℕ → List ℕ
upto zero i = []
upto (suc n) i = i ∷ upto n (i + 1)

module _ (less : ℕ → ℕ → Bool) where
  -- The `while` loop, on fuel, and the write behind it.
  unfoldable pub shift : ℕ → ℕ → ℕ → ℕ → List ℕ → List ℕ
  shift zero gap tmp j order = set order j tmp
  shift (suc fuel) gap tmp j order =
      let before = get_or order (j - gap) 0 in
      elim (leb gap j && less tmp before) [
        | false ↦ set order j tmp
        | true ↦ shift fuel gap tmp (j - gap) (set order j before)
      ]

  -- The loop over `i`, with the rounds left.
  unfoldable pub sort_pass : ℕ → ℕ → ℕ → List ℕ → List ℕ
  unfolding shift
  sort_pass zero gap i order = order
  sort_pass (suc n) gap i order =
      sort_pass n gap (i + 1) (shift (suc i) gap (get_or order i 0) i order)

  -- The loop over `Gap`, on fuel.
  unfoldable pub sort_gaps : ℕ → ℕ → ℕ → List ℕ → List ℕ
  unfolding sort_pass
  sort_gaps zero count gap order = order
  sort_gaps (suc fuel) count gap order = elim (gap == 0) [
    | true ↦ order
    | false ↦ sort_gaps fuel count (gap / 2) (sort_pass (count - gap) gap gap order)
  ]

  -- The order of `count` entries.
  unfoldable pub sort_order : ℕ → List ℕ
  unfolding sort_gaps
  sort_order count = sort_gaps (suc count) count (count / 2) (upto count 0)
