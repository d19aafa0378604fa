-- ===== src/Console.antt =====
-- kernel/console.c: the text console without its drawing. `Chars` and `Attrs` are one function of the
-- row and the column, `Dirty` is a function of the row. A tab is written by a loop that need not end;
-- it runs on fuel here, and a result of none says that the fuel was too little.
pub mod Tab
mod Tests
use bloom_os.Prelude.{
  ℕ, zero, suc, ◌+◌, ◌-◌, ◌*◌, ◌/◌, ◌%◌, ◌^◌, Bool, true, false, ◌&&◌, ◌||◌, List, [], ◌∷◌, Option,
  none, some, ltb, leb, ◌==◌, if◌then◌else◌,
}
use bloom_os.Prelude.Monad.{◌>>=◌}
use bloom_os.Klog.{decimal_from, hex_text}

abbrev pub max_cols : ℕ
max_cols = 256

abbrev pub max_rows : ℕ
max_rows = 128

-- A cell is a character and its attribute; the attribute 0 is the normal one.
pub record Console : Type 0 where
  pub cells : ℕ → ℕ → ℕ × ℕ
  pub dirty : ℕ → Bool
  pub cols : ℕ
  pub rows : ℕ
  pub cur_col : ℕ
  pub cur_row : ℕ
  pub prev_row : ℕ
  pub cur_attr : ℕ

abbrev pub blank : ℕ × ℕ
blank = (b' ', 0)

unfoldable pub clear_row : ℕ → Console → Console
clear_row row s = record s {
  cells = λ r c. if r == row && ltb c max_cols then blank else s.cells r c;
  dirty = λ r. if r == row then true else s.dirty r;
}

unfoldable pub scroll_up : Console → Console
unfolding clear_row
scroll_up s =
    let moved : Console = record s {
      cells = λ r c. if ltb (r + 1) s.rows && ltb c s.cols then s.cells (r + 1) c else s.cells r c;
    } in
    let cleared = clear_row (s.rows - 1) moved in
    record cleared { dirty = λ r. if ltb r s.rows then true else cleared.dirty r }

unfoldable pub new_line : Console → Console
unfolding scroll_up
new_line s =
    let s' : Console = record s { cur_col = 0 } in
    if ltb (s.cur_row + 1) s.rows then record s' { cur_row = s.cur_row + 1 } else scroll_up s'

-- The write of a cell at the cursor.
unfoldable pub put_cell : ℕ × ℕ → Console → Console
put_cell cell s = record s {
  cells = λ r c. if r == s.cur_row && c == s.cur_col then cell else s.cells r c;
  dirty = λ r. if r == s.cur_row then true else s.dirty r;
}

unfoldable pub backspace : Console → Console
unfolding put_cell
backspace s =
    let up : Console = record s {
      dirty = λ r. if r == s.cur_row then true else s.dirty r;
      cur_row = s.cur_row - 1;
      cur_col = s.cols - 1;
    } in
    if ltb 0 s.cur_col
    then put_cell blank (record s { cur_col = s.cur_col - 1 })
    else if ltb 0 s.cur_row
    then put_cell blank up
    else s

-- The end of `ConsolePutChar`: a character that is shown.
unfoldable pub put_shown : ℕ → Console → Console
unfolding put_cell new_line
put_shown c s =
    let s' : Console = record (put_cell (c, s.cur_attr) s) { cur_col = s.cur_col + 1 } in
    if leb s.cols (s.cur_col + 1) then new_line s' else s'

-- The loop for a tab, on fuel.
unfoldable pub put_tab : ℕ → ℕ → Console → Option Console
unfolding put_shown
put_tab zero next s = none
put_tab (suc fuel) next s = elim (ltb s.cur_col next) [
  | true ↦ put_tab fuel next (put_shown b' ' s)
  | false ↦ some s
]

abbrev pub tab_stop : ℕ → ℕ
tab_stop col = (col + 4) / 4 * 4

unfoldable pub console_put_char : ℕ → ℕ → Console → Option Console
unfolding new_line backspace put_tab put_shown
console_put_char fuel c s =
    if c == 10
    then some (new_line s)
    else if c == 13
    then some (record s { cur_col = 0 })
    else if c == 8
    then some (backspace s)
    else if c == 9
    then put_tab fuel (tab_stop s.cur_col) s
    else if ltb c 32 || ltb 126 c
    then some s
    else some (put_shown c s)

unfoldable pub console_print : ℕ → List ℕ → Console → Option Console
unfolding console_put_char
console_print fuel [] s = some s
console_print fuel (c ∷ text) s = console_put_char fuel c s >>= λ s'. console_print fuel text s'

unfoldable pub console_print_uint : ℕ → ℕ → Console → Option Console
unfolding console_print
console_print_uint fuel value s =
    console_print fuel (if value == 0 then b'0' ∷ [] else decimal_from 20 value []) s

unfoldable pub console_print_hex : ℕ → ℕ → ℕ → Console → Option Console
unfolding console_print
console_print_hex fuel value min_digits s = console_print fuel (hex_text value min_digits) s

unfoldable pub console_set_attr : ℕ → Console → Console
console_set_attr attr s = record s { cur_attr = attr % 4 }

-- `ConsoleFlush` without the drawing of the rows.
unfoldable pub console_flush : Console → Console
console_flush s = record s {
  dirty = λ r. if ltb r s.rows then false else s.dirty r;
  prev_row = s.cur_row;
}

unfoldable pub console_clear : Console → Console
unfolding console_flush
console_clear s = console_flush (record s {
  cells = λ r c. if ltb r max_rows && ltb c max_cols then blank else s.cells r c;
  dirty = λ r. if ltb r max_rows then true else s.dirty r;
  cur_col = 0;
  cur_row = 0;
  prev_row = 0;
})

-- `ConsoleInit` for a screen of `w` times `h` dots, with a margin of 8 dots and characters of 8 times
-- 16 dots.
unfoldable pub console_init : ℕ → ℕ → Console → Console
unfolding console_clear
console_init w h s =
    let cols = (w + 2 ^ 64 - 16) % 2 ^ 64 / 8 % 2 ^ 32 in
    let rows = (h + 2 ^ 64 - 16) % 2 ^ 64 / 16 % 2 ^ 32 in
    console_clear (record s {
      cols = if ltb max_cols cols then max_cols else cols;
      rows = if ltb max_rows rows then max_rows else rows;
      cur_attr = 0;
    })
