-- ===== src/Console/Tests.antt =====
-- kernel/console.c: a screen of 1024 times 768 dots, and the theorems at inputs that meet their
-- hypotheses.
use Prim.{tt}
use bloom_os.Prelude.{ℕ, ◌≤◌, ◌<◌, ◌≡◌, refl, false, none, some, arith}
use bloom_os.Prelude.Text.{chars}
use bloom_os.Console.{
  Console, blank, console_init, console_clear, console_flush, console_put_char, console_print,
  tab_stop,
}
use bloom_os.Console.Tab.{IsOnScreen, put_tab_lem, console_print-IsOnScreen}

abbrev dark : Console
dark = record {
  cells = λ r c. blank;
  dirty = λ r. false;
  cols = 0;
  rows = 0;
  cur_col = 0;
  cur_row = 0;
  prev_row = 0;
  cur_attr = 0;
}

abbrev screen : Console
screen = console_init 1024 768 dark

-- The cursor in the last column but one.
abbrev at_end : Console
at_end = record screen { cur_col = 124 }

screen-IsOnScreen : IsOnScreen 126 47 screen
unfolding console_init console_clear console_flush
screen-IsOnScreen = record {
  columns = refl;
  lines = refl;
  column = omega arith;
  line = omega arith;
}

at_end-IsOnScreen : IsOnScreen 126 47 at_end
unfolding console_init console_clear console_flush
at_end-IsOnScreen = record {
  columns = refl;
  lines = refl;
  column = omega arith;
  line = omega arith;
}

put_tab_lem_example :
    (tab_stop 124 < 126
      → (s' : Console) × (console_put_char 5 9 at_end ≡ some s')
        × IsOnScreen 126 47 s'
        × (s'.cur_col ≡ tab_stop 124)
        × (s'.cur_row ≡ at_end.cur_row))
    × (126 ≤ tab_stop 124 → (fuel : ℕ) → console_put_char fuel 9 at_end ≡ none)
put_tab_lem_example = put_tab_lem 126 47 at_end at_end-IsOnScreen

-- No number of rounds is enough for a tab there.
tab_hangs : console_put_char 100000 9 at_end ≡ none
tab_hangs = (put_tab_lem 126 47 at_end at_end-IsOnScreen).1 (omega arith) 100000

console_print-IsOnScreen_example :
    (s' : Console) × (console_print 0 (chars "ok") screen ≡ some s') × IsOnScreen 126 47 s'
console_print-IsOnScreen_example =
    console_print-IsOnScreen 126 47 0 (chars "ok") screen
      ((λ e. absurd (omega (arith, e))), ((λ e. absurd (omega (arith, e))), tt)) screen-IsOnScreen
