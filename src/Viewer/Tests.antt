-- ===== src/Viewer/Tests.antt =====
-- kernel/viewer.c: a small file in the viewer, and the theorems at inputs that meet their hypotheses.
use bloom_os.Prelude.{suc, ◌<◌, ◌≤◌, ◌≡◌, refl, List, [], ◌∷◌, some, arith, get_or}
use bloom_os.Prelude.Text.{chars}
use bloom_os.Viewer.{
  View, build_lines, rows_from, row_end, char_info, sequence_end, line_for_offset, clamp_top,
  looks_binary, odd_chars,
}
use bloom_os.Viewer.Lines.{IsCut, build_lines-IsCut, line_for_offset_lem}
use bloom_os.Viewer.Search.{find_text}
use bloom_os.Viewer.Search.First.{IsFirst, find_text-IsFirst}
use bloom_os.Viewer.Load.{Loaded}
use bloom_os.Viewer.Keys.{Event, key, click, blank_view, open_view, viewer_start, run_events}
use bloom_os.Viewer.Keys.Bounds.{IsBounded}
use bloom_os.Viewer.Keys.Runs.{run_events-start}

abbrev file : Loaded
file = record {
  error = 0;
  warning = 0;
  bytes = chars "To be,\nor not to be";
  total_size = 19;
  detail = [];
}

abbrev blank : View
blank = blank_view 800 600 file []

-- On six columns the second line takes three rows.
narrow_rows : (build_lines (record blank { cols = 6 })).line_off ≡ 0 ∷ 7 ∷ 13 ∷ 19 ∷ []
unfolding build_lines rows_from row_end char_info sequence_end blank_view
narrow_rows = refl

abbrev searching_for_be : View
searching_for_be = record blank { search_text = chars "BE" }

build_lines-IsCut_example : let w = build_lines blank in IsCut w.line_off w.line_count 19
unfolding blank_view
build_lines-IsCut_example = build_lines-IsCut blank (omega arith)

line_for_offset_lem_example :
    let w = build_lines blank in
    let r = line_for_offset w 10 in
    (r < w.line_count) × (get_or w.line_off r 0 ≤ 10) × (10 < get_or w.line_off (suc r) 0)
unfolding blank_view
line_for_offset_lem_example = line_for_offset_lem blank 10 (omega arith)

find_text-IsFirst_example :
    IsFirst (chars "To be,\nor not to be") (chars "BE") 5 (find_text 0 searching_for_be 5).found
unfolding blank_view
find_text-IsFirst_example = find_text-IsFirst 0 searching_for_be 5 (omega arith)

abbrev events : List Event
events = key 1 b'/' ∷ key 2 b'b' ∷ key 3 10 ∷ key 4 b'n' ∷ click 700 10 ∷ []

opens : (viewer_start 0 800 600 file []).1 ≡ some (open_view blank)
unfolding viewer_start open_view build_lines rows_from row_end char_info sequence_end blank_view
    clamp_top looks_binary odd_chars
opens = refl

run_events-start_example : IsBounded (run_events 800 600 events (open_view blank))
run_events-start_example = run_events-start 0 800 600 file [] (open_view blank) events opens
