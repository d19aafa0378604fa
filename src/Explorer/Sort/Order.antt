-- ===== src/Explorer/Sort/Order.antt =====
-- kernel/explorer.c, `SortEntries`: the order is sorted and has each entry once.
use mathlib.Core.Path.{subst}
use bloom_os.Prelude.{
  ℕ, zero, suc, ◌+◌, ◌-◌, ◌/◌, ◌≤◌, ◌<◌, ◌≡◌, ◌≢◌, refl, sym, ap, ◌∙◌, Bool, true, false, List, leb,
  ◌==◌, arith, Bool-cases, inl, inr, ◌⊎◌, get_or, set, length, length-set, get_or-set_self,
  get_or-set_ne,
}
use bloom_os.Explorer.Sort.{upto, shift, sort_pass, sort_gaps, sort_order}
use bloom_os.Explorer.Sort.Counts.{
  times, times-upto, length-upto, length-shift, length-sort_pass, sort_gaps-times,
}

place : (p j : ℕ) → (suc p < j) ⊎ ((suc p ≡ j) ⊎ ((p ≡ j) ⊎ (j < p)))
place p j = ground arith

-- The order in which each entry stands once and none stands next behind one that it is less than.
unfoldable pub IsOrder : (ℕ → ℕ → Bool) → ℕ → List ℕ → Type 0
IsOrder less count order =
    ((k : ℕ) → k < count → times k order ≡ 1)
    × ((p : ℕ) → suc p < count → less (get_or order (suc p) 0) (get_or order p 0) ≡ false)

module _ (less : ℕ → ℕ → Bool) (asym : (a b : ℕ) → less a b ≡ true → less b a ≡ false) where
  -- No entry of the first `k` stands behind one that it is less than, next to it.
  IsSorted : ℕ → List ℕ → Type 0
  IsSorted k order = (p : ℕ) → suc p < k → less (get_or order (suc p) 0) (get_or order p 0) ≡ false

  -- The order of the first `i + 1` places, without the place `j`, to which `tmp` has moved.
  record IsOpen (i j tmp : ℕ) (order : List ℕ) : Type 0 where
    before : (p : ℕ) → suc p < j → less (get_or order (suc p) 0) (get_or order p 0) ≡ false
    behind : (p : ℕ) → j < p → suc p ≤ i → less (get_or order (suc p) 0) (get_or order p 0) ≡ false
    moved : j < i → less tmp (get_or order (suc j) 0) ≡ true
    across : (q : ℕ) → suc q ≡ j → j < i → less (get_or order (suc j) 0) (get_or order q 0) ≡ false

  close :
      (i j tmp : ℕ) (order : List ℕ)
      → i < length order
      → j ≤ i
      → IsOpen i j tmp order
      → ((q : ℕ) → suc q ≡ j → less tmp (get_or order q 0) ≡ false)
      → IsSorted (suc i) (set order j tmp)
  unfolding IsSorted
  close i j tmp order inside h o stop p k =
      let at = λ (q : ℕ) (e : q ≡ j).
        ap (λ r. get_or (set order j tmp) r 0) e ∙ get_or-set_self order j tmp 0 (omega arith) in
      let other = λ (q : ℕ) (n : j ≢ q). get_or-set_ne order j q tmp 0 n in
      elim (place p j) [
        | inl a ↦ rw (other p (omega arith), other (suc p) (omega arith)) (o.before p a)
        | inr (inl a) ↦ rw (other p (omega arith), at (suc p) a) (stop p a)
        | inr (inr (inl a)) ↦
            let next : suc p ≡ suc j = omega arith in
            rw (at p a, other (suc p) (omega arith))
              (asym tmp (get_or order (suc p) 0)
                (ap (λ q. less tmp (get_or order q 0)) next ∙ o.moved (omega arith)))
        | inr (inr (inr a)) ↦
            rw (other p (omega arith), other (suc p) (omega arith)) (o.behind p a (omega arith))
      ]

  slide :
      (i j tmp : ℕ) (order : List ℕ)
      → i < length order
      → suc j ≤ i
      → IsOpen i (suc j) tmp order
      → less tmp (get_or order j 0) ≡ true
      → IsOpen i j tmp (set order (suc j) (get_or order j 0))
  slide i j tmp order inside h o smaller =
      let v = get_or order j 0 in
      let hole = get_or-set_self order (suc j) v 0 (omega arith) in
      let other = λ (q : ℕ) (n : suc j ≢ q). get_or-set_ne order (suc j) q v 0 n in
      record {
        before = λ p k.
            rw (other p (omega arith), other (suc p) (omega arith)) (o.before p (omega arith));
        behind = λ p a b. elim (place p (suc j)) [
          | inl c ↦ absurd (omega arith)
          | inr (inl c) ↦ absurd (omega arith)
          | inr (inr (inl c)) ↦
              let here = ap (λ r. get_or (set order (suc j) v) r 0) c ∙ hole in
              let next : suc p ≡ suc (suc j) = omega arith in
              rw (here, other (suc p) (omega arith))
                (ap (λ r. less (get_or order r 0) v) next ∙ o.across j refl (omega arith))
          | inr (inr (inr c)) ↦
              rw (other p (omega arith), other (suc p) (omega arith)) (o.behind p c b)
        ];
        moved = λ k. rw hole smaller;
        across = λ q e k.
            rw (hole, other q (omega arith))
              (ap (λ r. less (get_or order r 0) (get_or order q 0)) (sym e)
                ∙ o.before q (omega arith));
      }

  start : (i tmp : ℕ) (order : List ℕ) → IsSorted i order → IsOpen i i tmp order
  unfolding IsSorted
  start i tmp order h = record {
    before = h;
    behind = λ p a b. absurd (omega arith);
    moved = λ k. absurd (omega arith);
    across = λ q e k. absurd (omega arith);
  }

  shift-IsSorted :
      (fuel i j tmp : ℕ) (order : List ℕ)
      → i < length order
      → j ≤ i
      → j < fuel
      → IsOpen i j tmp order
      → IsSorted (suc i) (shift less fuel 1 tmp j order)
  unfolding shift
  shift-IsSorted zero i j tmp order inside h f o = absurd (omega arith)
  shift-IsSorted (suc fuel) i zero tmp order inside h f o =
      close i zero tmp order inside h o (λ q e. absurd (omega arith))
  shift-IsSorted (suc fuel) i (suc j) tmp order inside h f o =
      let back : suc j - 1 ≡ j = omega arith in
      let may : leb 1 (suc j) ≡ true = ground arith in
      elim (Bool-cases (less tmp (get_or order j 0))) [
        | inr e ↦
            rw (shift, back, may, e)
              (close i (suc j) tmp order inside h o
                (λ q k. ap (λ r. less tmp (get_or order r 0)) (omega arith) ∙ e))
        | inl e ↦
            let v = get_or order j 0 in
            let e' : less tmp (get_or order (suc j - 1) 0) ≡ true = rw back e in
            let rest =
              shift-IsSorted fuel i j tmp (set order (suc j) v)
                (omega (arith, length-set order (suc j) v)) (omega arith) (omega arith)
                (slide i j tmp order inside h o e) in
            rw (shift, may, e')
              (subst
                (λ k.
                  IsSorted (suc i) (shift less fuel 1 tmp k (set order (suc j) (get_or order k 0))))
                (sym back) rest)
      ]

  -- The pass with the gap 1 is an insertion sort.
  sort_pass-IsSorted :
      (n i : ℕ) (order : List ℕ)
      → i + n ≡ length order
      → IsSorted i order
      → IsSorted (length order) (sort_pass less n 1 i order)
  unfolding sort_pass
  sort_pass-IsSorted zero i order e h = subst (λ k. IsSorted k order) (omega arith) h
  sort_pass-IsSorted (suc n) i order e h =
      let tmp = get_or order i 0 in
      let order' = shift less (suc i) 1 tmp i order in
      let size = length-shift less (suc i) 1 tmp i order in
      let sorted : IsSorted (suc i) order' =
        shift-IsSorted (suc i) i i tmp order (omega arith) (omega arith) (omega arith)
          (start i tmp order h) in
      let next : suc i ≡ i + 1 = omega arith in
      subst (λ k. IsSorted k (sort_pass less n 1 (i + 1) order')) size
        (sort_pass-IsSorted n (i + 1) order' (omega (arith, size))
          (subst (λ k. IsSorted k order') next sorted))

  gaps_done :
      (fuel count gap : ℕ) (order : List ℕ) → gap ≡ 0 → sort_gaps less fuel count gap order ≡ order
  unfolding sort_gaps
  gaps_done zero count gap order e = refl
  gaps_done (suc fuel) count gap order e =
      let stop : (gap == 0) ≡ true = ground (arith, e) in rw (sort_gaps, stop) refl

  sort_gaps-IsSorted :
      (fuel count gap : ℕ) (order : List ℕ)
      → length order ≡ count
      → 0 < gap
      → gap ≤ count
      → gap < fuel
      → IsSorted count (sort_gaps less fuel count gap order)
  unfolding sort_gaps IsSorted
  sort_gaps-IsSorted zero count gap order e g c f = absurd (omega arith)
  sort_gaps-IsSorted (suc fuel) count gap order e g c f =
      let order' = sort_pass less (count - gap) gap gap order in
      let size = length-sort_pass less (count - gap) gap gap order ∙ e in
      let some_gap : (gap == 0) ≡ false = ground arith in
      elim (Bool-cases (gap == 1)) [
        | inl one ↦
            let unit : gap ≡ 1 = ground arith in
            let over = gaps_done fuel count (gap / 2) order' (omega (arith, unit)) in
            let last =
              sort_pass-IsSorted (count - 1) 1 order (omega arith) (λ p k. absurd (omega arith)) in
            let sorted : IsSorted count order' =
              subst (λ g'. IsSorted count (sort_pass less (count - g') g' g' order)) (sym unit)
                (subst (λ k. IsSorted k (sort_pass less (count - 1) 1 1 order)) e last) in
            rw (sort_gaps, some_gap) (subst (λ o. IsSorted count o) (sym over) sorted)
        | inr more ↦
            rw (sort_gaps, some_gap)
              (sort_gaps-IsSorted fuel count (gap / 2) order' size (ground arith) (omega arith)
                (omega arith))
      ]

  pub sort_order-IsOrder : (count : ℕ) → IsOrder less count (sort_order less count)
  unfolding sort_order IsOrder IsSorted
  sort_order-IsOrder count =
      let size = length-upto count 0 in
      (
        λ k h.
            sort_gaps-times less k (suc count) count (count / 2) (upto count 0) size (omega arith)
            ∙ times-upto k count 0 (omega arith) (omega arith),
        λ p h.
            sort_gaps-IsSorted (suc count) count (count / 2) (upto count 0) size (omega arith)
              (omega arith) (omega arith) p h,
      )
