-- ===== src/Viewer/Lines.antt =====
-- kernel/viewer.c, `BuildLines` and `LineForOffset`: the rows cut the text into pieces, and the binary
-- search finds the piece of a place.
use Prim.{tt}
use mathlib.Core.Path.{subst}
use bloom_os.Prelude.{
  ℕ, zero, suc, ◌+◌, ◌-◌, ◌/◌, ◌%◌, ◌≤◌, ◌<◌, ◌≡◌, refl, sym, ap, Bool, true, ◌&&◌, List, [], ◌∷◌,
  ◌++◌, leb, ltb, ◌==◌, if◌then◌else◌, arith, Bool-cases, inl, inr, length, get_or,
}
use bloom_os.Viewer.{
  View, view_max_lines, sequence_end, char_info, row_end, rows_from, build_lines, line_between,
  line_for_offset,
}

-- A list that rises from a number on.
abbrev RisingFrom : ℕ → List ℕ → Type 0
RisingFrom a [] = Unit
RisingFrom a (x ∷ xs) = (a < x) × RisingFrom x xs

RisingFrom-get_or :
    (a : ℕ) (xs : List ℕ) (i : ℕ)
    → RisingFrom a xs
    → suc i < length (a ∷ xs)
    → get_or (a ∷ xs) i 0 < get_or (a ∷ xs) (suc i) 0
RisingFrom-get_or a [] i h k = absurd (omega arith)
RisingFrom-get_or a (x ∷ xs) zero h k = h.0
RisingFrom-get_or a (x ∷ xs) (suc i) h k = RisingFrom-get_or x xs i h.1 (omega arith)

get_or-last : (xs : List ℕ) (a : ℕ) → get_or (xs ++ (a ∷ [])) (length xs) 0 ≡ a
get_or-last [] a = refl
get_or-last (x ∷ xs) a = get_or-last xs a

length-snoc : (xs : List ℕ) (a : ℕ) → length (xs ++ (a ∷ [])) ≡ suc (length xs)
length-snoc [] a = refl
length-snoc (x ∷ xs) a = ap suc (length-snoc xs a)

module _ (buf : List ℕ) (cols : ℕ) where
  sequence_end-bounds :
      (n end : ℕ)
      → end ≤ length buf
      → (end ≤ sequence_end buf cols n end) × (sequence_end buf cols n end ≤ length buf)
  unfolding sequence_end
  sequence_end-bounds zero end h = (omega arith, h)
  sequence_end-bounds (suc n) end h =
      elim (Bool-cases (ltb end (length buf) && get_or buf end 0 / 64 % 4 == 2)) [
        | inl e ↦
            let rest = sequence_end-bounds n (end + 1) (ground arith) in
            rw (sequence_end, e) (omega arith, rest.1)
        | inr e ↦ rw (sequence_end, e) (omega arith, h)
      ]

  char_info-next :
      (pos col : ℕ)
      → pos < length buf
      → (pos < (char_info buf cols pos col).2) × ((char_info buf cols pos col).2 ≤ length buf)
  unfolding char_info
  char_info-next pos col h =
      let c = get_or buf pos 0 in
      let need = if leb 0xF0 c then 4 else if leb 0xE0 c then 3 else 2 in
      let many = sequence_end-bounds (need - 1) (pos + 1) (omega arith) in ground (arith, many)

  row_end-bounds :
      (fuel pos col : ℕ)
      → pos ≤ length buf
      → (pos ≤ (row_end buf cols fuel pos col).0) × ((row_end buf cols fuel pos col).0 ≤ length buf)
  unfolding row_end
  row_end-bounds zero pos col h = (omega arith, h)
  row_end-bounds (suc fuel) pos col h = elim (Bool-cases (ltb pos (length buf))) [
    | inr e ↦ rw (row_end, e) (omega arith, h)
    | inl e ↦
        let info = char_info-next pos col (ground arith) in
        let next = (char_info buf cols pos col).2 in
        let width = (char_info buf cols pos col).0 in
        let after = row_end-bounds fuel (pos + 1) col (ground arith) in
        let on = row_end-bounds fuel next (col + width) info.1 in ground (arith, after, on, info)
  ]

  row_end-moves :
      (fuel pos : ℕ) → 0 < fuel → pos < length buf → pos < (row_end buf cols fuel pos 0).0
  unfolding row_end
  row_end-moves zero pos f h = absurd (omega arith)
  row_end-moves (suc fuel) pos f h =
      let info = char_info-next pos 0 h in
      let next = (char_info buf cols pos 0).2 in
      let width = (char_info buf cols pos 0).0 in
      let after = row_end-bounds fuel (pos + 1) 0 (omega arith) in
      let on = row_end-bounds fuel next (0 + width) info.1 in ground (arith, after, on, info)

  rows_from-RisingFrom :
      (room pos logical : ℕ) (fresh : Bool) (a : ℕ)
      → a < pos
      → pos < length buf
      → RisingFrom a ((rows_from buf cols room pos logical fresh).0 ++ (length buf ∷ []))
  unfolding rows_from
  rows_from-RisingFrom zero pos logical fresh a h k = (omega arith, tt)
  rows_from-RisingFrom (suc room) pos logical fresh a h k =
      let next = row_end buf cols (length buf) pos 0 in
      elim (Bool-cases (leb (length buf) next.0)) [
        | inl e ↦ rw (rows_from, e) (h, (k, tt))
        | inr e ↦
            let moves = row_end-moves (length buf) pos (omega arith) k in
            let rest =
              rows_from-RisingFrom room next.0 (if fresh then logical + 1 else logical) next.1 pos
                moves (ground arith) in
            rw (rows_from, e) (h, rest)
      ]

  -- The first row starts at the place that the loop starts at.
  rows_from-start :
      (room pos logical : ℕ) (fresh : Bool)
      → 0 < room
      → pos < length buf
      → (rest : List ℕ) × ((rows_from buf cols room pos logical fresh).0 ≡ pos ∷ rest)
        × RisingFrom pos (rest ++ (length buf ∷ []))
  unfolding rows_from
  rows_from-start zero pos logical fresh h k = absurd (omega arith)
  rows_from-start (suc room) pos logical fresh h k =
      let next = row_end buf cols (length buf) pos 0 in
      elim (Bool-cases (leb (length buf) next.0)) [
        | inl e ↦ ([], rw (rows_from, e) refl, (k, tt))
        | inr e ↦
            let moves = row_end-moves (length buf) pos (omega arith) k in
            let number = if fresh then logical + 1 else logical in
            let rest = (rows_from buf cols room next.0 number next.1).0 in
            (
              rest,
              rw (rows_from, e) refl,
              rows_from-RisingFrom room next.0 number next.1 pos moves (ground arith),
            )
      ]

line_between_lem :
    (fuel : ℕ) (line_off : List ℕ) (off lo hi : ℕ)
    → hi - lo ≤ fuel
    → lo ≤ hi
    → get_or line_off lo 0 ≤ off
    → off < get_or line_off (suc hi) 0
    → let r = line_between fuel line_off off lo hi in
      (r ≤ hi) × (get_or line_off r 0 ≤ off) × (off < get_or line_off (suc r) 0)
unfolding line_between
line_between_lem zero line_off off lo hi f h a b =
    let same : hi ≡ lo = omega arith in (h, a, ground (arith, same, b))
line_between_lem (suc fuel) line_off off lo hi f h a b =
    let mid = (lo + hi + 1) / 2 in
    elim (Bool-cases (ltb lo hi)) [
      | inr e ↦
          let same : hi ≡ lo = ground arith in rw (line_between, e) (h, a, ground (arith, same, b))
      | inl e ↦
          let inside : (lo < mid) × (mid ≤ hi) = ground arith in
          elim (Bool-cases (leb (get_or line_off mid 0) off)) [
            | inl l ↦
                let r =
                  line_between_lem fuel line_off off mid hi (omega arith) (omega arith)
                    (ground arith) b in
                rw (line_between, e, l) r
            | inr l ↦
                let last : suc (mid - 1) ≡ mid = omega arith in
                let above : off < get_or line_off (suc (mid - 1)) 0 = rw last (ground arith) in
                let r =
                  line_between_lem fuel line_off off lo (mid - 1) (omega arith) (omega arith) a
                    above in
                rw (line_between, e, l) (omega (arith, r.0), r.1, r.2)
          ]
    ]

-- The starts of `count` rows, and behind them the end of the text, cut a text of `len` bytes into
-- pieces none of which is empty.
pub record IsCut (line_off : List ℕ) (count len : ℕ) : Type 0 where
  pub some_row : 0 < count
  pub first : get_or line_off 0 0 ≡ 0
  pub rising : (i : ℕ) → i < count → get_or line_off i 0 < get_or line_off (suc i) 0
  pub last : get_or line_off count 0 ≡ len

cons-IsCut :
    (rest : List ℕ) (len : ℕ)
    → RisingFrom 0 (rest ++ (len ∷ []))
    → IsCut (0 ∷ (rest ++ (len ∷ []))) (suc (length rest)) len
cons-IsCut rest len r = record {
  some_row = omega arith;
  first = refl;
  rising =
      λ i h. RisingFrom-get_or 0 (rest ++ (len ∷ [])) i r (omega (arith, length-snoc rest len));
  last = get_or-last rest len;
}

-- `BuildLines` on a text that is not empty, on a screen of any width: the rows start at the place 0,
-- each has at least one byte, and the last one ends with the text, also where there are more than
-- the array has room for.
pub build_lines-IsCut :
    (v : View)
    → 0 < length v.buf
    → let w = build_lines v in IsCut w.line_off w.line_count (length v.buf)
unfolding build_lines
build_lines-IsCut v h =
    let start = rows_from-start v.buf v.cols view_max_lines 0 0 true (omega arith) h in
    subst (λ (xs : List ℕ). IsCut (xs ++ (length v.buf ∷ [])) (length xs) (length v.buf))
      (sym start.1) (cons-IsCut start.0 (length v.buf) start.2)

-- `LineForOffset` after `BuildLines`, for a place in the text: the binary search ends, and its row is
-- one of the rows, starts at or before the place and ends behind it.
pub line_for_offset_lem :
    (v : View) (off : ℕ)
    → off < length v.buf
    → let w = build_lines v in
      let r = line_for_offset w off in
      (r < w.line_count) × (get_or w.line_off r 0 ≤ off) × (off < get_or w.line_off (suc r) 0)
unfolding line_for_offset
line_for_offset_lem v off h =
    let w = build_lines v in
    let cut = build_lines-IsCut v (omega arith) in
    let end : suc (w.line_count - 1) ≡ w.line_count = omega (arith, cut.some_row) in
    let found =
      line_between_lem w.line_count w.line_off off 0 (w.line_count - 1) (omega arith) (omega arith)
        (omega (arith, cut.first)) (rw (end, cut.last) h) in
    (omega (arith, found.0, cut.some_row), found.1, found.2)
