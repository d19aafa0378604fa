-- ===== src/Viewer.antt =====
-- kernel/viewer.c: the text and hex viewer without its drawing. The static variables are the record
-- `View`; `buf` is the part of `Buf` that holds the file, `Len` its length, and the parts of the
-- screen that `Flags` asks to draw are three truth values. `TickCount` is an argument.
pub mod Lines
pub mod Search
pub mod Load
pub mod Keys
mod Tests
use bloom_os.Prelude.{
  ℕ, zero, suc, ◌+◌, ◌-◌, ◌*◌, ◌/◌, ◌%◌, Bool, true, false, ◌&&◌, ◌||◌, not, List, [], ◌∷◌, ◌++◌,
  Option, none, some, ltb, leb, ◌==◌, if◌then◌else◌, take, length, get_or,
}

abbrev pub view_max_lines : ℕ
view_max_lines = 16384

-- `LineOff` has the end of the text behind the starts of the rows; `found` is `MatchStart`, if there is
-- a match.
pub record View : Type 0 where
  pub buf : List ℕ
  pub total_size : ℕ
  pub line_off : List ℕ
  pub line_num : List ℕ
  pub line_count : ℕ
  pub lines_truncated : Bool
  pub hex_mode : Bool
  pub top : ℕ
  pub rows : ℕ
  pub cols : ℕ
  pub draw_title : Bool
  pub draw_content : Bool
  pub draw_hint : Bool
  pub message : List ℕ
  pub message_kind : ℕ
  pub message_until : ℕ
  pub search_text : List ℕ
  pub searching : Bool
  pub found : Option ℕ
  pub log : List ℕ

-- `LooksBinary`: the loop, with the number of odd characters: whether it meets a zero.
unfoldable pub odd_chars : List ℕ → ℕ → Option ℕ
odd_chars [] odd = some odd
odd_chars (c ∷ s) odd =
    let rest =
      odd_chars s (if ltb c 9 || (ltb 13 c && (ltb c 32 && not (c == 27))) then odd + 1 else odd) in
    if c == 0 then none else rest

unfoldable pub looks_binary : List ℕ → Bool
unfolding odd_chars
looks_binary buf =
    let check = if ltb (length buf) 4096 then length buf else 4096 in
    elim (odd_chars (take 4096 buf) 0) [
      | none ↦ true
      | some odd ↦ ltb 0 check && ltb check (odd * 20)
    ]

-- The rows that a text takes on a screen of `cols` columns.
module _ (buf : List ℕ) (cols : ℕ) where
  -- The loop of `CharInfo` over the bytes that follow in a UTF-8 sequence, with the number left.
  unfoldable pub sequence_end : ℕ → ℕ → ℕ
  sequence_end zero end = end
  sequence_end (suc n) end =
      let rest = sequence_end n (end + 1) in
      if ltb end (length buf) && get_or buf end 0 / 64 % 4 == 2 then rest else end

  -- `CharInfo`: the width, the glyph and the place behind the character.
  unfoldable pub char_info : ℕ → ℕ → ℕ × ℕ × ℕ
  unfolding sequence_end
  char_info pos col =
      let c = get_or buf pos 0 in
      let need = if leb 0xF0 c then 4 else if leb 0xE0 c then 3 else 2 in
      if c == 9
      then (4 - col % 4, b' ', pos + 1)
      else if leb 0xC0 c
      then (1, b'?', sequence_end (need - 1) (pos + 1))
      else if leb 0x80 c
      then (1, b'?', pos + 1)
      else if ltb c 32 || c == 127
      then (1, b'.', pos + 1)
      else (1, c, pos + 1)

  -- The `while` loop of `BuildLines`, on fuel: where the row ends, and whether at a line break.
  unfoldable pub row_end : ℕ → ℕ → ℕ → ℕ × Bool
  unfolding char_info
  row_end zero pos col = (pos, false)
  row_end (suc fuel) pos col =
      let c = get_or buf pos 0 in
      let (width, _, next) = char_info pos col in
      elim (ltb pos (length buf)) [
        | false ↦ (pos, false)
        | true ↦ elim (c == 10) [
          | true ↦ (pos + 1, true)
          | false ↦ elim (c == 13) [
            | true ↦ row_end fuel (pos + 1) col
            | false ↦ elim (ltb cols (col + width) && ltb 0 col) [
              | true ↦ (pos, false)
              | false ↦ row_end fuel next (col + width)
            ]
          ]
        ]
      ]

  -- The outer loop, with the number of lines that there is room for: the starts of the rows, their
  -- numbers, and whether there were too many.
  unfoldable pub rows_from : ℕ → ℕ → ℕ → Bool → List ℕ × List ℕ × Bool
  unfolding row_end
  rows_from zero pos logical fresh = ([], [], true)
  rows_from (suc room) pos logical fresh =
      let number = if fresh then logical + 1 else logical in
      let (next, fresh') = row_end (length buf) pos 0 in
      let shown = if fresh then number else 0 in
      elim (leb (length buf) next) [
        | true ↦ (pos ∷ [], shown ∷ [], false)
        | false ↦
            let rest = rows_from room next number fresh' in (pos ∷ rest.0, shown ∷ rest.1, rest.2)
      ]

unfoldable pub build_lines : View → View
unfolding rows_from
build_lines v =
    let (off, num, truncated) = rows_from v.buf v.cols view_max_lines 0 0 true in
    record v {
      line_off = off ++ (length v.buf ∷ []);
      line_num = num;
      line_count = length off;
      lines_truncated = truncated;
    }

unfoldable pub total_rows : View → ℕ
total_rows v = if v.hex_mode then (length v.buf + 15) / 16 else v.line_count

-- `ClampTop`, on the value that `Top` was set to; a value below 0 is 0 here, as it is behind the
-- function.
unfoldable pub clamp_top : View → ℕ → View
unfolding total_rows
clamp_top v top =
    let max = if ltb v.rows (total_rows v) then total_rows v - v.rows else 0 in
    record v { top = if ltb max top then max else top }

-- The loop of `LineForOffset`, on fuel.
unfoldable pub line_between : ℕ → List ℕ → ℕ → ℕ → ℕ → ℕ
line_between zero line_off off lo hi = lo
line_between (suc fuel) line_off off lo hi =
    let mid = (lo + hi + 1) / 2 in
    elim (ltb lo hi) [
      | false ↦ lo
      | true ↦ elim (leb (get_or line_off mid 0) off) [
        | true ↦ line_between fuel line_off off mid hi
        | false ↦ line_between fuel line_off off lo (mid - 1)
      ]
    ]

unfoldable pub line_for_offset : View → ℕ → ℕ
unfolding line_between
line_for_offset v off = line_between v.line_count v.line_off off 0 (v.line_count - 1)

unfoldable pub top_offset : View → ℕ
top_offset v =
    if v.hex_mode
    then v.top * 16
    else if ltb v.top v.line_count
    then get_or v.line_off v.top 0
    else 0

unfoldable pub show_offset : View → ℕ → View
unfolding clamp_top line_for_offset
show_offset v off =
    record (clamp_top v (if v.hex_mode then off / 16 - 2 else line_for_offset v off - 2)) {
      draw_content = true;
      draw_title = true;
    }

unfoldable pub toggle_hex : View → View
unfolding clamp_top line_for_offset top_offset
toggle_hex v =
    let off = top_offset v in
    let v' = record v { hex_mode = not v.hex_mode } in
    record (clamp_top v' (if v'.hex_mode then off / 16 else line_for_offset v' off)) {
      draw_content = true;
      draw_title = true;
      draw_hint = true;
    }
