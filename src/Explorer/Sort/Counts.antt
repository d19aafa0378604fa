-- ===== src/Explorer/Sort/Counts.antt =====
-- kernel/explorer.c, `SortEntries`: the moves keep the number of times that an index stands in the
-- array.
use bloom_os.Prelude.{
  ℕ, zero, suc, ◌+◌, ◌-◌, ◌/◌, ◌≤◌, ◌<◌, ◌≡◌, refl, sym, ap, ◌∙◌, Bool, false, ◌&&◌, List, [], ◌∷◌,
  leb, ◌==◌, if◌then◌else◌, arith, Bool-cases, inl, inr, get_or, set, length, length-set,
  get_or-set_ne,
}
use bloom_os.Explorer.Sort.{upto, shift, sort_pass, sort_gaps}

abbrev pub times : ℕ → List ℕ → ℕ
times k [] = 0
times k (x ∷ xs) = (if x == k then 1 else 0) + times k xs

times-set :
    (k : ℕ) (xs : List ℕ) (j v : ℕ)
    → j < length xs
    → times k (set xs j v) + (if get_or xs j 0 == k then 1 else 0)
      ≡ times k xs + (if v == k then 1 else 0)
times-set k [] j v h = absurd (omega arith)
times-set k (x ∷ xs) zero v h = omega arith
times-set k (x ∷ xs) (suc j) v h = omega (arith, times-set k xs j v (omega arith))

-- A value moves from one place to another, and a second one to where it was.
times-swap :
    (k : ℕ) (xs : List ℕ) (j m t : ℕ)
    → j < length xs
    → m < j
    → times k (set (set xs j (get_or xs m 0)) m t) ≡ times k (set xs j t)
times-swap k xs j m t h b =
    let v = get_or xs m 0 in
    let ys = set xs j v in
    let kept = get_or-set_ne xs j m v 0 (omega arith) in
    let one = times-set k ys m t (omega (arith, length-set xs j v)) in
    let one' = ap (λ g. times k (set ys m t) + (if g == k then 1 else 0)) (sym kept) ∙ one in
    omega (arith, one', times-set k xs j v h, times-set k xs j t h)

times-upto_below : (k n i : ℕ) → k < i → times k (upto n i) ≡ 0
times-upto_below k zero i h = refl
times-upto_below k (suc n) i h =
    let other : (i == k) ≡ false = ground arith in
    rw other (omega (arith, times-upto_below k n (i + 1) (omega arith)))

pub times-upto : (k n i : ℕ) → i ≤ k → k < i + n → times k (upto n i) ≡ 1
times-upto k zero i a b = absurd (omega arith)
times-upto k (suc n) i a b = elim (Bool-cases (i == k)) [
  | inl e ↦ rw e (omega (arith, times-upto_below k n (i + 1) (ground arith)))
  | inr e ↦ rw e (omega (arith, times-upto k n (i + 1) (ground arith) (omega arith)))
]

pub length-upto : (n i : ℕ) → length (upto n i) ≡ n
length-upto zero i = refl
length-upto (suc n) i = ap suc (length-upto n (i + 1))

module _ (less : ℕ → ℕ → Bool) where
  shift-times :
      (k fuel gap tmp j : ℕ) (order : List ℕ)
      → 0 < gap
      → j < length order
      → times k (shift less fuel gap tmp j order) ≡ times k (set order j tmp)
  unfolding shift
  shift-times k zero gap tmp j order g h = refl
  shift-times k (suc fuel) gap tmp j order g h =
      let before = get_or order (j - gap) 0 in
      elim (Bool-cases (leb gap j && less tmp before)) [
        | inr e ↦ rw (shift, e) refl
        | inl e ↦
            let here : gap ≤ j = ground arith in
            rw (shift, e)
              (shift-times k fuel gap tmp (j - gap) (set order j before) g
                  (omega (arith, length-set order j before))
                ∙ times-swap k order j (j - gap) tmp h (omega arith))
      ]

  pub length-shift :
      (fuel gap tmp j : ℕ) (order : List ℕ)
      → length (shift less fuel gap tmp j order) ≡ length order
  unfolding shift
  length-shift zero gap tmp j order = length-set order j tmp
  length-shift (suc fuel) gap tmp j order =
      elim (Bool-cases (leb gap j && less tmp (get_or order (j - gap) 0))) [
        | inr e ↦ rw (shift, e) (length-set order j tmp)
        | inl e ↦
            rw (shift, e)
              (length-shift fuel gap tmp (j - gap) (set order j (get_or order (j - gap) 0))
                ∙ length-set order j (get_or order (j - gap) 0))
      ]

  pub length-sort_pass :
      (n gap i : ℕ) (order : List ℕ) → length (sort_pass less n gap i order) ≡ length order
  unfolding sort_pass
  length-sort_pass zero gap i order = refl
  length-sort_pass (suc n) gap i order =
      length-sort_pass n gap (i + 1) (shift less (suc i) gap (get_or order i 0) i order)
      ∙ length-shift (suc i) gap (get_or order i 0) i order

  sort_pass-times :
      (k n gap i : ℕ) (order : List ℕ)
      → 0 < gap
      → i + n ≤ length order
      → times k (sort_pass less n gap i order) ≡ times k order
  unfolding sort_pass
  sort_pass-times k zero gap i order g h = refl
  sort_pass-times k (suc n) gap i order g h =
      let tmp = get_or order i 0 in
      let order' = shift less (suc i) gap tmp i order in
      let moved = shift-times k (suc i) gap tmp i order g (omega arith) in
      let back = times-set k order i tmp (omega arith) in
      omega (
        arith,
        moved,
        back,
        sort_pass-times k n gap (i + 1) order' g
            (omega (arith, length-shift (suc i) gap tmp i order)),
      )

  pub sort_gaps-times :
      (k fuel count gap : ℕ) (order : List ℕ)
      → length order ≡ count
      → gap ≤ count
      → times k (sort_gaps less fuel count gap order) ≡ times k order
  unfolding sort_gaps
  sort_gaps-times k zero count gap order e h = refl
  sort_gaps-times k (suc fuel) count gap order e h = elim (Bool-cases (gap == 0)) [
    | inl z ↦ rw (sort_gaps, z) refl
    | inr z ↦
        let order' = sort_pass less (count - gap) gap gap order in
        rw (sort_gaps, z)
          (sort_gaps-times k fuel count (gap / 2) order'
              (length-sort_pass (count - gap) gap gap order ∙ e) (omega arith)
            ∙ sort_pass-times k (count - gap) gap gap order (ground arith) (omega arith))
  ]
