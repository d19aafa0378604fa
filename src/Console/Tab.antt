-- ===== src/Console/Tab.antt =====
-- kernel/console.c: the cursor, and the loop for a tab.
use bloom_os.Prelude.{
  ℕ, zero, suc, ◌+◌, ◌-◌, ◌≤◌, ◌<◌, ◌≡◌, ◌≢◌, refl, ◌∙◌, Bool, true, false, ◌||◌, List, [], ◌∷◌,
  Option, none, some, ltb, leb, ◌==◌, if◌then◌else◌, arith, Bool-cases, inl, inr, All,
}
use bloom_os.Prelude.Monad.{>>=-of_some}
use bloom_os.Console.{
  Console, scroll_up, clear_row, new_line, put_cell, backspace, put_shown, put_tab, tab_stop,
  console_put_char, console_print,
}

-- The cursor is on a screen of `cols` columns and `rows` rows.
pub record IsOnScreen (cols rows : ℕ) (s : Console) : Type 0 where
  pub columns : s.cols ≡ cols
  pub lines : s.rows ≡ rows
  pub column : s.cur_col < cols
  pub line : s.cur_row < rows

module _ (cols rows : ℕ) where
  pick-IsOnScreen :
      (b : Bool) (x y : Console)
      → IsOnScreen cols rows x
      → IsOnScreen cols rows y
      → IsOnScreen cols rows (if b then x else y)
  pick-IsOnScreen true x y p q = p
  pick-IsOnScreen false x y p q = q

  new_line-IsOnScreen : (s : Console) → IsOnScreen cols rows s → IsOnScreen cols rows (new_line s)
  unfolding new_line scroll_up clear_row
  new_line-IsOnScreen s h = elim (Bool-cases (ltb (s.cur_row + 1) s.rows)) [
    | inl e ↦
        rw (new_line, e)
          (record {
            columns = h.columns;
            lines = h.lines;
            column = omega (arith, h.column);
            line = ground (arith, h.lines);
          })
    | inr e ↦
        rw (new_line, e)
          (record {
            columns = h.columns;
            lines = h.lines;
            column = omega (arith, h.column);
            line = h.line;
          })
  ]

  backspace-IsOnScreen : (s : Console) → IsOnScreen cols rows s → IsOnScreen cols rows (backspace s)
  unfolding backspace put_cell
  backspace-IsOnScreen s h =
      pick-IsOnScreen (ltb 0 s.cur_col) _ _
        (record {
          columns = h.columns;
          lines = h.lines;
          column = omega (arith, h.column);
          line = h.line;
        })
        (pick-IsOnScreen (ltb 0 s.cur_row) _ _
          (record {
            columns = h.columns;
            lines = h.lines;
            column = omega (arith, h.column, h.columns);
            line = omega (arith, h.line);
          })
          h)

  put_shown-IsOnScreen :
      (c : ℕ) (s : Console) → IsOnScreen cols rows s → IsOnScreen cols rows (put_shown c s)
  unfolding put_shown put_cell new_line scroll_up clear_row
  put_shown-IsOnScreen c s h = elim (Bool-cases (leb s.cols (s.cur_col + 1))) [
    | inr e ↦
        rw (put_shown, e)
          (record {
            columns = h.columns;
            lines = h.lines;
            column = ground (arith, h.columns);
            line = h.line;
          })
    | inl e ↦ elim (Bool-cases (ltb (s.cur_row + 1) s.rows)) [
      | inl r ↦
          rw (put_shown, e, new_line, r)
            (record {
              columns = h.columns;
              lines = h.lines;
              column = omega (arith, h.column);
              line = ground (arith, h.lines);
            })
      | inr r ↦
          rw (put_shown, e, new_line, r)
            (record {
              columns = h.columns;
              lines = h.lines;
              column = omega (arith, h.column);
              line = h.line;
            })
    ]
  ]

  -- Inside the row, a character moves the cursor by one.
  put_shown-next :
      (c : ℕ) (s : Console)
      → s.cur_col + 1 < s.cols
      → ((put_shown c s).cur_col ≡ s.cur_col + 1) × ((put_shown c s).cur_row ≡ s.cur_row)
  unfolding put_shown put_cell
  put_shown-next c s h =
      let e : leb s.cols (s.cur_col + 1) ≡ false = ground arith in rw (put_shown, e) (refl, refl)

  put_tab-ends :
      (n fuel next : ℕ) (s : Console)
      → IsOnScreen cols rows s
      → s.cur_col + n ≡ next
      → next < cols
      → n < fuel
      → (s' : Console) × (put_tab fuel next s ≡ some s')
        × IsOnScreen cols rows s'
        × (s'.cur_col ≡ next)
        × (s'.cur_row ≡ s.cur_row)
  unfolding put_tab
  put_tab-ends n zero next s h e k f = absurd (omega arith)
  put_tab-ends zero (suc fuel) next s h e k f =
      let stop : ltb s.cur_col next ≡ false = ground arith in
      (s, rw (put_tab, stop) refl, h, omega arith, refl)
  put_tab-ends (suc n) (suc fuel) next s h e k f =
      let go : ltb s.cur_col next ≡ true = ground arith in
      let step = put_shown-next b' ' s (omega (arith, h.columns)) in
      let rest =
        put_tab-ends n fuel next (put_shown b' ' s) (put_shown-IsOnScreen b' ' s h)
          (omega (arith, step.0)) k (omega arith) in
      (rest.0, rw (put_tab, go) rest.1, rest.2, rest.3, rest.4 ∙ step.1)

  put_tab-hangs :
      (fuel next : ℕ) (s : Console)
      → IsOnScreen cols rows s
      → cols ≤ next
      → put_tab fuel next s ≡ none
  unfolding put_tab
  put_tab-hangs zero next s h k = refl
  put_tab-hangs (suc fuel) next s h k =
      let go : ltb s.cur_col next ≡ true = ground (arith, h.column) in
      rw (put_tab, go)
        (put_tab-hangs fuel next (put_shown b' ' s) (put_shown-IsOnScreen b' ' s h) k)

  -- `ConsolePutChar` for a tab, with the cursor on the screen: if the next multiple of 4 is a column of
  -- the screen, the loop ends there within 4 rounds, in the same row; if it is not, which is so in the
  -- last columns of every row, the loop does not end, however many rounds it is given.
  pub put_tab_lem :
      (s : Console)
      → IsOnScreen cols rows s
      → (tab_stop s.cur_col < cols
          → (s' : Console) × (console_put_char 5 9 s ≡ some s')
            × IsOnScreen cols rows s'
            × (s'.cur_col ≡ tab_stop s.cur_col)
            × (s'.cur_row ≡ s.cur_row))
        × (cols ≤ tab_stop s.cur_col → (fuel : ℕ) → console_put_char fuel 9 s ≡ none)
  unfolding console_put_char
  put_tab_lem s h = (
    λ k.
        put_tab-ends (tab_stop s.cur_col - s.cur_col) 5 (tab_stop s.cur_col) s h (omega arith) k
          (omega arith),
    λ k fuel. put_tab-hangs fuel (tab_stop s.cur_col) s h k,
  )

  Ends : Option Console → Type 0
  Ends o = (s : Console) × (o ≡ some s) × IsOnScreen cols rows s

  ends : (s : Console) → IsOnScreen cols rows s → Ends (some s)
  unfolding Ends
  ends s h = (s, refl, h)

  pick-Ends : (b : Bool) (x y : Option Console) → Ends x → Ends y → Ends (if b then x else y)
  pick-Ends true x y p q = p
  pick-Ends false x y p q = q

  skip-Ends : (b : Bool) (x y : Option Console) → b ≡ false → Ends y → Ends (if b then x else y)
  skip-Ends true x y e q = cc
  skip-Ends false x y e q = q

  put_char-Ends :
      (fuel c : ℕ) (s : Console) → c ≢ 9 → IsOnScreen cols rows s → Ends (console_put_char fuel c s)
  unfolding console_put_char
  put_char-Ends fuel c s n h =
      let first : IsOnScreen cols rows (record s { cur_col = 0 }) = record {
        columns = h.columns;
        lines = h.lines;
        column = omega (arith, h.column);
        line = h.line;
      } in
      pick-Ends (c == 10) _ _ (ends (new_line s) (new_line-IsOnScreen s h)) (
        pick-Ends (c == 13) _ _ (ends (record s { cur_col = 0 }) first) (
          pick-Ends (c == 8) _ _ (ends (backspace s) (backspace-IsOnScreen s h)) (
            skip-Ends (c == 9) _ _ (ground arith) (
              pick-Ends (ltb c 32 || ltb 126 c) _ _ (ends s h)
                (ends (put_shown c s) (put_shown-IsOnScreen c s h))))))

  -- `ConsolePrint` of a text without tabs, with the cursor on the screen: it ends, and the cursor is on
  -- the screen again.
  pub console_print-IsOnScreen :
      (fuel : ℕ) (text : List ℕ) (s : Console)
      → All (λ c. c ≢ 9) text
      → IsOnScreen cols rows s
      → (s' : Console) × (console_print fuel text s ≡ some s') × IsOnScreen cols rows s'
  unfolding console_print Ends
  console_print-IsOnScreen fuel [] s n h = (s, refl, h)
  console_print-IsOnScreen fuel (c ∷ text) s n h =
      let first = put_char-Ends fuel c s n.0 h in
      let rest = console_print-IsOnScreen fuel text first.0 n.1 first.2 in
      (rest.0, >>=-of_some (λ s'. console_print fuel text s') first.1 ∙ rest.1, rest.2)
