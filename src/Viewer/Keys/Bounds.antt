-- ===== src/Viewer/Keys/Bounds.antt =====
-- kernel/viewer.c: what every key and click keeps.
use Prim.{tt}
use bloom_os.Prelude.{
  ℕ, ◌-◌, ◌/◌, ◌≤◌, ◌<◌, Bool, true, false, not, List, [], ◌∷◌, Option, none, some, ltb, ◌==◌,
  if◌then◌else◌, arith, Bool-cases, inl, inr, length,
}
use bloom_os.Prelude.Int.{ℤ}
use bloom_os.Viewer.{
  View, total_rows, clamp_top, top_offset, toggle_hex, show_offset, line_for_offset,
}
use bloom_os.Viewer.Search.{say, find_text, show_match, find_passes}
use bloom_os.Viewer.Search.First.{Occurs, IsFirst, find_passes-IsFirst}
use bloom_os.Viewer.Keys.{scroll, moved, drop_last}

unfoldable pub InText : ℕ → Option ℕ → Type 0
InText len none = Unit
InText len (some p) = p < len

-- The picture ends with the text or before it, the text to find fits in its buffer, and the last
-- match lies in the text.
pub record IsBounded (v : View) : Type 0 where
  pub shown : v.top ≤ total_rows v - v.rows
  pub typed : length v.search_text < 48
  pub matched : InText (length v.buf) v.found

pub clamp_top-shown : (v : View) (t : ℕ) → (clamp_top v t).top ≤ total_rows v - v.rows
unfolding clamp_top
clamp_top-shown v t = ground arith

pub pick_bounded :
    (b : Bool) (x y : View) → IsBounded x → IsBounded y → IsBounded (if b then x else y)
pick_bounded true x y p q = p
pick_bounded false x y p q = q

pub clamp_top-IsBounded : (v : View) (t : ℕ) → IsBounded v → IsBounded (clamp_top v t)
unfolding clamp_top total_rows
clamp_top-IsBounded v t b = record {
  shown = clamp_top-shown v t;
  typed = b.typed;
  matched = b.matched;
}

pub drawn :
    (v : View) (t c h : Bool)
    → IsBounded v
    → IsBounded (record v { draw_title = t; draw_content = c; draw_hint = h })
unfolding total_rows
drawn v t c h b = record { shown = b.shown; typed = b.typed; matched = b.matched }

pub scroll-IsBounded : (v : View) (d : ℤ) → IsBounded v → IsBounded (scroll v d)
unfolding scroll
scroll-IsBounded v d b =
    let v' = clamp_top v (moved v.top d) in
    let b' = clamp_top-IsBounded v (moved v.top d) b in
    pick_bounded (v'.top == v.top) _ _ b' (drawn v' true true v'.draw_hint b')

pub toggle_hex-IsBounded : (v : View) → IsBounded v → IsBounded (toggle_hex v)
unfolding toggle_hex
toggle_hex-IsBounded v b =
    let v' : View = record v { hex_mode = not v.hex_mode } in
    let top = if v'.hex_mode then top_offset v / 16 else line_for_offset v' (top_offset v) in
    record { shown = clamp_top-shown v' top; typed = b.typed; matched = b.matched }

pub IsFirst→InText :
    (buf s : List ℕ) (from : ℕ) (o : Option ℕ)
    → 0 < length s
    → IsFirst buf s from o
    → InText (length buf) o
unfolding InText IsFirst Occurs
IsFirst→InText buf s from none h f = tt
IsFirst→InText buf s from (some p) h f = omega (arith, f.0.0)

pub show_match-IsBounded :
    (tick : ℕ) (v : View) (o : Option ℕ)
    → IsBounded v
    → InText (length v.buf) o
    → IsBounded (show_match tick v o)
unfolding show_match say show_offset total_rows InText
show_match-IsBounded tick v none b h = record { shown = b.shown; typed = b.typed; matched = tt }
show_match-IsBounded tick v (some p) b h =
    let v' : View = record v { found = some p } in
    let top = if v.hex_mode then p / 16 - 2 else line_for_offset v' p - 2 in
    record { shown = clamp_top-shown v' top; typed = b.typed; matched = h }

pub find_text-IsBounded :
    (tick : ℕ) (v : View) (from : ℕ) → IsBounded v → IsBounded (find_text tick v from)
unfolding find_text say total_rows InText
find_text-IsBounded tick v from b =
    let s = v.search_text in
    let start = if ltb (length v.buf - length s) from then 0 else from in
    elim (Bool-cases (length s == 0)) [
      | inl z ↦ rw (find_text, z) b
      | inr z ↦ elim (Bool-cases (ltb (length v.buf) (length s))) [
        | inl e ↦ rw (find_text, z, e) (record { shown = b.shown; typed = b.typed; matched = tt })
        | inr e ↦
            let first = find_passes-IsFirst v.buf s start (ground arith) (ground arith) in
            rw (find_text, z, e)
              (show_match-IsBounded tick v (find_passes v.buf s start) b
                (IsFirst→InText v.buf s start _ (ground arith) first))
      ]
    ]

pub length-drop_last : (xs : List ℕ) → length (drop_last xs) ≤ length xs
length-drop_last [] = omega arith
length-drop_last (x ∷ []) = omega arith
length-drop_last (x ∷ y ∷ ys) = omega (arith, length-drop_last (y ∷ ys))

-- A change of the text to find and of the line below.
pub retyped :
    (v : View) (text : List ℕ) (searching : Bool) (message : List ℕ)
    → length text < 48
    → IsBounded v
    → IsBounded (record v {
      search_text = text;
      searching = searching;
      message = message;
      draw_hint = true;
    })
unfolding total_rows
retyped v text searching message h b = record { shown = b.shown; typed = h; matched = b.matched }
