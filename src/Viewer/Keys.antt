-- ===== src/Viewer/Keys.antt =====
-- kernel/viewer.c, `Scroll`, the handlers of keys and clicks, and the start of `ViewerRun`.
pub mod Bounds
pub mod Runs
use bloom_os.Prelude.{
  ℕ, zero, suc, ◌+◌, ◌-◌, ◌*◌, ◌/◌, ◌%◌, ◌^◌, Bool, true, false, ◌&&◌, ◌||◌, not, List, [], ◌∷◌,
  ◌++◌, Option, none, some, ltb, leb, ◌==◌, if◌then◌else◌, take, length,
}
use bloom_os.Prelude.Int.{ℤ, pos, negsuc}
use bloom_os.Prelude.Text.{chars}
use bloom_os.Keyboard.{key_up, key_down, key_pgup, key_pgdn, key_home, key_end}
use bloom_os.Errors.{error_log}
use bloom_os.Ui.{int_less, ui_inside}
use bloom_os.Viewer.{View, total_rows, clamp_top, top_offset, toggle_hex, build_lines, looks_binary}
use bloom_os.Viewer.Search.{say, find_text}
use bloom_os.Viewer.Load.{Loaded, e_file_read}

abbrev pub search_max : ℕ
search_max = 48

abbrev pub neg : ℕ → ℤ
neg zero = pos 0
neg (suc n) = negsuc n

-- `Top + Delta`, where a sum below 0 is 0, which `ClampTop` would make of it.
abbrev pub moved : ℕ → ℤ → ℕ
moved top (pos n) = top + n
moved top (negsuc n) = top - suc n

unfoldable pub scroll : View → ℤ → View
scroll v delta =
    let v' = clamp_top v (moved v.top delta) in
    if v'.top == v.top then v' else record v' { draw_content = true; draw_title = true }

abbrev drop_last : List ℕ → List ℕ
drop_last [] = []
drop_last (x ∷ []) = []
drop_last (x ∷ y ∷ ys) = x ∷ drop_last (y ∷ ys)

-- The place that a search starts at: `match` behind the last match, if there is one, else the top.
abbrev pub search_from : View → ℕ → ℕ
search_from v behind = elim v.found [ some p ↦ p + behind | none ↦ top_offset v ]

module _ (tick : ℕ) where
  unfoldable pub handle_search_key : ℕ → View → View
  handle_search_key key v =
      if key == 27
      then record v { searching = false; draw_hint = true }
      else if key == 10
      then find_text tick (record v { searching = false; draw_hint = true }) (search_from v 0)
      else if key == 8
      then (if length v.search_text == 0
          then v
          else record v { search_text = drop_last v.search_text; draw_hint = true })
      else if leb 32 key && (leb key 126 && ltb (length v.search_text) (search_max - 1))
      then record v { search_text = v.search_text ++ (key ∷ []); draw_hint = true }
      else v

  -- The `switch` of `HandleKey`: whether the viewer closes.
  unfoldable pub handle_command : ℕ → View → Bool × View
  unfolding scroll
  handle_command key v =
      if key == 27 || (key == 8 || (key == b'q' || key == b'Q'))
      then (true, v)
      else if key == key_up
      then (false, scroll v (negsuc 0))
      else if key == key_down
      then (false, scroll v (pos 1))
      else if key == key_pgup
      then (false, scroll v (neg (v.rows - 1)))
      else if key == key_pgdn || key == b' '
      then (false, scroll v (pos (v.rows - 1)))
      else if key == key_home
      then (false, scroll v (neg (total_rows v)))
      else if key == key_end
      then (false, scroll v (pos (total_rows v)))
      else if key == b'h' || key == b'H'
      then (false, toggle_hex v)
      else if key == b'/'
      then (false, record v { searching = true; search_text = []; message = []; draw_hint = true })
      else if key == b'n' || key == b'N'
      then (
        false,
        if ltb 0 (length v.search_text)
            then find_text tick v (search_from v 1)
            else record v { searching = true; draw_hint = true },
      )
      else (false, v)

  unfoldable pub handle_key : ℕ → View → Bool × View
  unfolding handle_search_key handle_command
  handle_key key v = if v.searching then (false, handle_search_key key v) else handle_command key v

-- `HandleClick` at a place of a screen of `w` times `h` dots, all 32-bit words; the title and the hint are
-- 28 dots high, the bar for scrolling is 10 wide.
unfoldable pub handle_click : ℕ → ℕ → ℕ → ℕ → View → Bool × View
unfolding scroll
handle_click w h x y v =
    let height = (h + 2 ^ 32 - (28 + 28)) % 2 ^ 32 in
    let delta = if int_less y (28 + height / 2) then neg (v.rows - 1) else pos (v.rows - 1) in
    if ui_inside x y 8 2 56 24
    then (true, v)
    else if ui_inside x y ((w + 2 ^ 32 - 130) % 2 ^ 32) 2 120 24
    then (false, toggle_hex v)
    else if ui_inside x y ((w + 2 ^ 32 - 10) % 2 ^ 32) 28 10 height
    then (false, scroll v delta)
    else (false, v)

-- The code of the first message of `ViewerRun`, 0 for none.
abbrev pub start_code : Loaded → View → ℕ
start_code file v =
    if file.warning == e_file_read
    then e_file_read
    else if ltb (length file.bytes) file.total_size
    then 112
    else if v.hex_mode
    then 113
    else if v.lines_truncated
    then 115
    else if file.total_size == 0
    then 114
    else 0

-- The state in which `ViewerRun` calls `BuildLines`, on a screen of `w` times `h` dots.
unfoldable pub blank_view : ℕ → ℕ → Loaded → List ℕ → View
blank_view w h file log = record {
  buf = file.bytes;
  total_size = file.total_size;
  line_off = [];
  line_num = [];
  line_count = 0;
  lines_truncated = false;
  hex_mode = false;
  top = 0;
  rows = (h + 2 ^ 32 - (28 + 28 + 8)) % 2 ^ 32 / 18;
  cols = (w + 2 ^ 32 - (72 + 16 + 10)) % 2 ^ 32 / 8;
  draw_title = true;
  draw_content = true;
  draw_hint = true;
  message = [];
  message_kind = 0;
  message_until = 0;
  search_text = [];
  searching = false;
  found = none;
  log = log;
}

unfoldable pub open_view : View → View
open_view v = clamp_top (record (build_lines v) { hex_mode = looks_binary v.buf }) 0

-- `ViewerRun` up to the drawing of the first picture: the code that it returns with, or the viewer.
unfoldable pub viewer_start : ℕ → ℕ → ℕ → Loaded → List ℕ → ℕ × Option View × List ℕ
unfolding blank_view open_view
viewer_start tick w h file log =
    let v = open_view (blank_view w h file log) in
    let code = start_code file v in
    let info = if code == e_file_read then file.detail else [] in
    let told = say tick code info v in
    if ltb 0 file.error
    then (file.error, none, error_log (chars "viewer") file.error file.detail log)
    else if ltb v.rows 4 || ltb v.cols 20
    then (116, none, error_log (chars "viewer") 116 (chars "viewer area is too small") log)
    else if code == 0
    then (0, some v, v.log)
    else (0, some told, told.log)

-- A round of the main loop: a key, or a click at a place, at a time.
pub data Event : Type 0 where
  key : ℕ → ℕ → Event
  click : ℕ → ℕ → Event

unfoldable pub handle : ℕ → ℕ → Event → View → Bool × View
unfolding handle_key handle_click
handle w h (key tick code) v = handle_key tick code v
handle w h (click x y) v = handle_click w h x y v

-- The main loop over what the user does: it ends where a handler closes the viewer.
unfoldable pub run_events : ℕ → ℕ → List Event → View → View
unfolding handle
run_events w h [] v = v
run_events w h (e ∷ es) v =
    let (closed, v') = handle w h e v in elim closed [ true ↦ v' | false ↦ run_events w h es v' ]
