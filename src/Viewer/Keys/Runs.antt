-- ===== src/Viewer/Keys/Runs.antt =====
-- kernel/viewer.c: the start of the viewer and whole runs of keys and clicks.
use Prim.{tt}
use mathlib.Core.Path.{subst}
use bloom_os.Prelude.{
  ℕ, ◌+◌, ◌-◌, ◌/◌, ◌%◌, ◌^◌, ◌≡◌, refl, ap, Bool, true, false, ◌&&◌, ◌||◌, List, [], ◌∷◌, ◌++◌,
  Option, none, some, ltb, leb, ◌==◌, if◌then◌else◌, arith, Bool-cases, inl, inr, length,
  length-append,
}
use bloom_os.Prelude.Int.{ℤ, pos, negsuc}
use bloom_os.Keyboard.{key_up, key_down, key_pgup, key_pgdn, key_home, key_end}
use bloom_os.Ui.{int_less, ui_inside}
use bloom_os.Viewer.{View, total_rows, clamp_top, build_lines, looks_binary}
use bloom_os.Viewer.Search.{say}
use bloom_os.Viewer.Load.{Loaded}
use bloom_os.Viewer.Keys.{
  scroll, neg, drop_last, search_from, handle_search_key, handle_command, handle_key, handle_click,
  blank_view, open_view, start_code, viewer_start, Event, key, click, handle, run_events,
}
use bloom_os.Viewer.Keys.Bounds.{
  clamp_top-shown, pick_bounded, scroll-IsBounded, toggle_hex-IsBounded, find_text-IsBounded,
  length-drop_last, retyped, InText, IsBounded,
}

module _ (tick : ℕ) where
  handle_search_key-IsBounded :
      (code : ℕ) (v : View) → IsBounded v → IsBounded (handle_search_key tick code v)
  unfolding handle_search_key
  handle_search_key-IsBounded code v b =
      let quiet = retyped v v.search_text false v.message b.typed b in
      let shorter =
        retyped v (drop_last v.search_text) v.searching v.message
          (omega (arith, length-drop_last v.search_text, b.typed)) b in
      pick_bounded (code == 27) _ _ quiet (
        pick_bounded (code == 10) _ _ (find_text-IsBounded tick _ (search_from v 0) quiet) (
          pick_bounded (code == 8) _ _ (pick_bounded (length v.search_text == 0) _ _ b shorter)
            (elim (Bool-cases (leb 32 code && (leb code 126 && ltb (length v.search_text) 47))) [
              | inl e ↦ rw e (
                  retyped v (v.search_text ++ (code ∷ [])) v.searching v.message
                    (ground (arith, length-append v.search_text (code ∷ []))) b)
              | inr e ↦ rw e b
            ])))

-- A handler's result keeps the bounds.
Keeps : Bool × View → Type 0
Keeps r = IsBounded r.1

keeps : (c : Bool) (v : View) → IsBounded v → Keeps (c, v)
unfolding Keeps
keeps c v b = b

pick_pair : (b : Bool) (x y : Bool × View) → Keeps x → Keeps y → Keeps (if b then x else y)
pick_pair true x y p q = p
pick_pair false x y p q = q

handle_command-Keeps : (tick code : ℕ) (v : View) → IsBounded v → Keeps (handle_command tick code v)
unfolding handle_command
handle_command-Keeps tick code v b =
    let moves = λ (d : ℤ). keeps false (scroll v d) (scroll-IsBounded v d b) in
    let searching = retyped v v.search_text true v.message b.typed b in
    let find =
      pick_bounded (ltb 0 (length v.search_text)) _ _
        (find_text-IsBounded tick v (search_from v 1) b) searching in
    let by_hex = keeps false _ (toggle_hex-IsBounded v b) in
    let ask = keeps false _ (retyped v [] true [] (omega arith) b) in
    pick_pair (code == 27 || (code == 8 || (code == b'q' || code == b'Q'))) _ _ (keeps true v b) (
      pick_pair (code == key_up) _ _ (moves (negsuc 0)) (
        pick_pair (code == key_down) _ _ (moves (pos 1)) (
          pick_pair (code == key_pgup) _ _ (moves (neg (v.rows - 1))) (
            pick_pair (code == key_pgdn || code == b' ') _ _ (moves (pos (v.rows - 1))) (
              pick_pair (code == key_home) _ _ (moves (neg (total_rows v))) (
                pick_pair (code == key_end) _ _ (moves (pos (total_rows v))) (
                  pick_pair (code == b'h' || code == b'H') _ _ by_hex (
                    pick_pair (code == b'/') _ _ ask (
                      pick_pair (code == b'n' || code == b'N') _ _ (keeps false _ find)
                        (keeps false v b))))))))))

handle_click-Keeps : (w h x y : ℕ) (v : View) → IsBounded v → Keeps (handle_click w h x y v)
unfolding handle_click
handle_click-Keeps w h x y v b =
    let height = (h + 2 ^ 32 - (28 + 28)) % 2 ^ 32 in
    let delta = if int_less y (28 + height / 2) then neg (v.rows - 1) else pos (v.rows - 1) in
    pick_pair (ui_inside x y 8 2 56 24) _ _ (keeps true v b) (
      pick_pair (ui_inside x y ((w + 2 ^ 32 - 130) % 2 ^ 32) 2 120 24) _ _
        (keeps false _ (toggle_hex-IsBounded v b))
        (pick_pair (ui_inside x y ((w + 2 ^ 32 - 10) % 2 ^ 32) 28 10 height) _ _
          (keeps false _ (scroll-IsBounded v delta b)) (keeps false v b)))

handle-Keeps : (w h : ℕ) (e : Event) (v : View) → IsBounded v → Keeps (handle w h e v)
unfolding handle handle_key
handle-Keeps w h (key tick code) v b =
    pick_pair v.searching _ _ (keeps false _ (handle_search_key-IsBounded tick code v b))
      (handle_command-Keeps tick code v b)
handle-Keeps w h (click x y) v b = handle_click-Keeps w h x y v b

run_events-IsBounded :
    (w h : ℕ) (es : List Event) (v : View) → IsBounded v → IsBounded (run_events w h es v)
unfolding run_events Keeps
run_events-IsBounded w h [] v b = b
run_events-IsBounded w h (e ∷ es) v b =
    let b' = handle-Keeps w h e v b in
    elim (Bool-cases (handle w h e v).0) [
      | inl c ↦ rw (run_events, c) b'
      | inr c ↦ rw (run_events, c) (run_events-IsBounded w h es (handle w h e v).1 b')
    ]

open_view-IsBounded : (v : View) → v.search_text ≡ [] → v.found ≡ none → IsBounded (open_view v)
unfolding open_view build_lines total_rows clamp_top InText
open_view-IsBounded v e f = record {
  shown = clamp_top-shown (record (build_lines v) { hex_mode = looks_binary v.buf }) 0;
  typed = rw e (omega arith);
  matched = rw f tt;
}

-- A start that gives no viewer, or one within the bounds.
IsStart : ℕ × Option View × List ℕ → Type 0
IsStart (code, none, log) = Unit
IsStart (code, some v, log) = IsBounded v

pick-IsStart :
    (b : Bool) (x y : ℕ × Option View × List ℕ)
    → IsStart x
    → IsStart y
    → IsStart (if b then x else y)
pick-IsStart true x y p q = p
pick-IsStart false x y p q = q

viewer_start-IsStart :
    (tick w h : ℕ) (file : Loaded) (log : List ℕ) → IsStart (viewer_start tick w h file log)
unfolding viewer_start IsStart say total_rows blank_view
viewer_start-IsStart tick w h file log =
    let v = open_view (blank_view w h file log) in
    let b = open_view-IsBounded (blank_view w h file log) refl refl in
    pick-IsStart (ltb 0 file.error) _ _ tt (
      pick-IsStart (ltb v.rows 4 || ltb v.cols 20) _ _ tt (
        pick-IsStart (start_code file v == 0) _ _ b
          (record { shown = b.shown; typed = b.typed; matched = b.matched })))

started : (r : ℕ × Option View × List ℕ) (v : View) → r.1 ≡ some v → IsStart r → IsBounded v
unfolding IsStart
started (code, none, log) v e h = cc
started (code, some x, log) v e h =
    subst IsBounded (ap (λ o. elim o as (λ _. View) [ none ↦ x | some y ↦ y ]) e) h

-- A viewer that `ViewerRun` starts, on a screen of any size and for any file, and any keys and clicks
-- after that: the picture never starts behind the last page, the text to find fits in its buffer with
-- its terminating zero, and the last match lies in the text.
pub run_events-start :
    (tick w h : ℕ) (file : Loaded) (log : List ℕ) (v : View) (es : List Event)
    → (viewer_start tick w h file log).1 ≡ some v
    → IsBounded (run_events w h es v)
run_events-start tick w h file log v es e =
    run_events-IsBounded w h es v
      (started (viewer_start tick w h file log) v e (viewer_start-IsStart tick w h file log))
