-- ===== src/Viewer/Search/First.antt =====
-- kernel/viewer.c, `FindText`: which occurrence of the text it finds.
use mathlib.Core.Path.{subst}
use bloom_os.Prelude.{
  ℕ, zero, suc, ◌+◌, ◌-◌, ◌≤◌, ◌<◌, ◌≡◌, refl, sym, ap, ◌∙◌, true, false, List, [], ◌∷◌, Option,
  none, some, ltb, ◌==◌, if◌then◌else◌, arith, Bool-cases, Option-cases, ◌⊎◌, inl, inr, length,
  get_or,
}
use bloom_os.Ui.{ui_lower}
use bloom_os.Viewer.{View, show_offset}
use bloom_os.Viewer.Search.{say, match_at, find_pass, find_passes, show_match, find_text}

-- A text stands at a place of the buffer, whatever the case of the letters.
unfoldable pub Occurs : List ℕ → List ℕ → ℕ → Type 0
Occurs buf s p =
    (p + length s ≤ length buf)
    × ((i : ℕ) → i < length s → ui_lower (get_or buf (p + i) 0) ≡ ui_lower (get_or s i 0))

-- The first occurrence at or behind a place, else the first one before it, if there is one.
unfoldable pub IsFirst : List ℕ → List ℕ → ℕ → Option ℕ → Type 0
unfolding Occurs
IsFirst buf s from none = (p : ℕ) → ¬ Occurs buf s p
IsFirst buf s from (some p) =
    Occurs buf s p
    × (((from ≤ p) × ((q : ℕ) → from ≤ q → q < p → ¬ Occurs buf s q))
        ⊎ ((p < from)
            × ((q : ℕ) → from ≤ q → ¬ Occurs buf s q)
            × ((q : ℕ) → q < p → ¬ Occurs buf s q)))

match_at→same :
    (buf s : List ℕ) (p : ℕ)
    → match_at buf s p ≡ true
    → (i : ℕ) → i < length s
    → ui_lower (get_or buf (p + i) 0) ≡ ui_lower (get_or s i 0)
unfolding match_at
match_at→same buf [] p h i k = absurd (omega arith)
match_at→same buf (c ∷ s) p h zero k =
    let here : p + zero ≡ p = omega arith in ap (λ n. ui_lower (get_or buf n 0)) here ∙ ground arith
match_at→same buf (c ∷ s) p h (suc i) k =
    let there : p + suc i ≡ p + 1 + i = omega arith in
    ap (λ n. ui_lower (get_or buf n 0)) there
    ∙ match_at→same buf s (p + 1) (ground arith) i (omega arith)

same→match_at :
    (buf s : List ℕ) (p : ℕ)
    → ((i : ℕ) → i < length s → ui_lower (get_or buf (p + i) 0) ≡ ui_lower (get_or s i 0))
    → match_at buf s p ≡ true
unfolding match_at
same→match_at buf [] p h = refl
same→match_at buf (c ∷ s) p h =
    let here : p + 0 ≡ p = omega arith in
    let head = ap (λ n. ui_lower (get_or buf n 0)) (sym here) ∙ h 0 (omega arith) in
    let rest =
      same→match_at buf s (p + 1)
        (λ i k. ap (λ n. ui_lower (get_or buf n 0)) (omega arith) ∙ h (suc i) (omega arith)) in
    ground (arith, head, rest)

Nat-cases : (p q : ℕ) → p ≤ q → (p ≡ q) ⊎ (p + 1 ≤ q)
Nat-cases p q h = ground arith

module _ (buf s : List ℕ) where
  NoneIn : ℕ → ℕ → Type 0
  NoneIn lo hi = (q : ℕ) → lo ≤ q → q < hi → match_at buf s q ≡ false

  -- What one pass over `n` places from `p` on finds.
  Passed : ℕ → ℕ → Option ℕ → Type 0
  Passed n p none = NoneIn p (p + n)
  Passed n p (some r) = (p ≤ r) × (r < p + n) × (match_at buf s r ≡ true) × NoneIn p r

  skip_one :
      (n p : ℕ)
      → match_at buf s p ≡ false
      → (o : Option ℕ) → Passed n (p + 1) o
      → Passed (suc n) p o
  unfolding Passed NoneIn
  skip_one n p e none r = λ q a b. elim (Nat-cases p q a) [
    | inl same ↦ subst (λ k. match_at buf s k ≡ false) same e
    | inr more ↦ r q more (omega arith)
  ]
  skip_one n p e (some k) r = (
    omega (arith, r.0),
    omega (arith, r.1),
    r.2,
    λ q a b. elim (Nat-cases p q a) [
      | inl same ↦ subst (λ k. match_at buf s k ≡ false) same e
      | inr more ↦ r.3 q more b
    ],
  )

  find_pass-Passed : (n p : ℕ) → Passed n p (find_pass buf s n p)
  unfolding find_pass Passed NoneIn
  find_pass-Passed zero p = λ q a b. absurd (omega arith)
  find_pass-Passed (suc n) p = elim (Bool-cases (match_at buf s p)) [
    | inl e ↦ rw (find_pass, e) (omega arith, omega arith, e, λ q a b. absurd (omega arith))
    | inr e ↦
        rw (find_pass, e) (skip_one n p e (find_pass buf s n (p + 1)) (find_pass-Passed n (p + 1)))
  ]

  none→empty :
      (lo hi : ℕ) → NoneIn lo hi → length buf < hi + length s → (q : ℕ) → lo ≤ q → ¬ Occurs buf s q
  unfolding NoneIn Occurs
  none→empty lo hi n big q a o =
      let yes = same→match_at buf s q o.1 in
      let no = n q a (omega (arith, o.0)) in absurd (ground (arith, yes, no))

  none→before : (lo hi : ℕ) → NoneIn lo hi → (q : ℕ) → lo ≤ q → q < hi → ¬ Occurs buf s q
  unfolding NoneIn Occurs
  none→before lo hi n q a b o =
      let yes = same→match_at buf s q o.1 in let no = n q a b in absurd (ground (arith, yes, no))

  occurs : (p : ℕ) → p + length s ≤ length buf → match_at buf s p ≡ true → Occurs buf s p
  unfolding Occurs
  occurs p h e = (h, match_at→same buf s p e)

  -- Both passes, from a place where the text has room.
  pub find_passes-IsFirst :
      (from : ℕ)
      → length s ≤ length buf
      → from ≤ length buf - length s
      → IsFirst buf s from (find_passes buf s from)
  unfolding find_passes IsFirst Passed NoneIn
  find_passes-IsFirst from fits room =
      let rounds = length buf - length s + 1 - from in
      let one = find_pass-Passed rounds from in
      let two = find_pass-Passed from 0 in
      elim (Option-cases (find_pass buf s rounds from)) [
        | inr (p, e) ↦
            let got = subst (λ o. Passed rounds from o) e one in
            rw (find_passes, e)
              (
                occurs p (omega (arith, got.1)) got.2,
                inl (got.0, λ q a b. none→before from p got.3 q a b),
              )
        | inl e ↦
            let none_behind = subst (λ o. Passed rounds from o) e one in
            let behind : (q : ℕ) → from ≤ q → ¬ Occurs buf s q =
              none→empty from (from + rounds) none_behind (omega arith) in
            elim (Bool-cases (from == 0)) [
              | inl z ↦ rw (find_passes, e, z) (λ q. behind q (ground arith))
              | inr z ↦ elim (Option-cases (find_pass buf s from 0)) [
                | inr (p, d) ↦
                    let got = subst (λ o. Passed from 0 o) d two in
                    rw (find_passes, e, z, d)
                      (
                        occurs p (omega (arith, got.1)) got.2,
                        inr (
                          omega (arith, got.1),
                          behind,
                          λ q b. none→before 0 p got.3 q (omega arith) b,
                        ),
                      )
                | inl d ↦
                    let none_before = subst (λ o. Passed from 0 o) d two in
                    rw (find_passes, e, z, d)
                      (λ q. elim (Bool-cases (ltb q from)) [
                        | inl b ↦
                            none→before 0 (0 + from) none_before q (omega arith) (ground arith)
                        | inr b ↦ behind q (ground arith)
                      ])
              ]
            ]
      ]

-- From a place behind the last one where the text has room, the search starts over.
IsFirst-wrap :
    (buf s : List ℕ) (from : ℕ) (o : Option ℕ)
    → length buf < from + length s
    → IsFirst buf s 0 o
    → IsFirst buf s from o
unfolding IsFirst Occurs
IsFirst-wrap buf s from none h f = f
IsFirst-wrap buf s from (some p) h (o, inl (a, b)) =
    (o, inr (omega (arith, o.0), λ q c d. absurd (omega (arith, d.0)), λ q c. b q (omega arith) c))
IsFirst-wrap buf s from (some p) h (o, inr (a, b, c)) = absurd (omega arith)

found_of : (tick : ℕ) (v : View) (o : Option ℕ) → (show_match tick v o).found ≡ o
unfolding show_match say show_offset
found_of tick v none = refl
found_of tick v (some p) = refl

-- `FindText` for a text that is not empty, from any place: `MatchStart` is the first occurrence at or
-- behind the place, else the first one of all, and there is no match where the text does not occur.
-- Letters match in either case.
pub find_text-IsFirst :
    (tick : ℕ) (v : View) (from : ℕ)
    → 0 < length v.search_text
    → IsFirst v.buf v.search_text from (find_text tick v from).found
unfolding find_text IsFirst Occurs say
find_text-IsFirst tick v from some_text =
    let s = v.search_text in
    let last = length v.buf - length s in
    let start = if ltb last from then 0 else from in
    let full : (length s == 0) ≡ false = ground arith in
    elim (Bool-cases (ltb (length v.buf) (length s))) [
      | inl e ↦ rw (find_text, full, e) (λ p o. absurd (ground (arith, o.0)))
      | inr e ↦
          let first = find_passes-IsFirst v.buf s start (ground arith) (ground arith) in
          let all : IsFirst v.buf s from (find_passes v.buf s start) =
            elim (Bool-cases (ltb last from)) [
              | inl w ↦
                  IsFirst-wrap v.buf s from (find_passes v.buf s start) (ground arith) (
                    subst (λ k. IsFirst v.buf s k (find_passes v.buf s start)) (ground arith) first)
              | inr w ↦
                  subst (λ k. IsFirst v.buf s k (find_passes v.buf s start)) (ground arith) first
            ] in
          rw (find_text, full, e)
            (subst (λ o. IsFirst v.buf s from o) (sym (found_of tick v (find_passes v.buf s start)))
              all)
    ]
