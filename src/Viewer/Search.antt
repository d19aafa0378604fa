-- ===== src/Viewer/Search.antt =====
-- kernel/viewer.c, `Say`, `MatchAt` and `FindText`.
pub mod First
use bloom_os.Prelude.{
  ℕ, zero, suc, ◌+◌, ◌-◌, Bool, true, false, ◌&&◌, List, [], ◌∷◌, Option, none, some, ltb, leb,
  ◌==◌, if◌then◌else◌, length, get_or,
}
use bloom_os.Prelude.Text.{chars}
use bloom_os.Errors.{error_format, error_log, error_is_warning}
use bloom_os.Ui.{ui_lower, ui_str_copy}
use bloom_os.Viewer.{View, show_offset}

abbrev pub e_text_notfound : ℕ
e_text_notfound = 140

unfoldable pub say : ℕ → ℕ → List ℕ → View → View
say tick code info v = record v {
  message = ui_str_copy (error_format code info 200) 200;
  message_kind = if error_is_warning code then 2 else 1;
  message_until = tick + 6000;
  draw_hint = true;
  log = error_log (chars "viewer") code info v.log;
}

unfoldable pub match_at : List ℕ → List ℕ → ℕ → Bool
match_at buf [] pos = true
match_at buf (c ∷ s) pos = ui_lower (get_or buf pos 0) == ui_lower c && match_at buf s (pos + 1)

-- The inner loop of `FindText`, with the rounds left and the place.
unfoldable pub find_pass : List ℕ → List ℕ → ℕ → ℕ → Option ℕ
unfolding match_at
find_pass buf s zero p = none
find_pass buf s (suc n) p =
    let rest = find_pass buf s n (p + 1) in if match_at buf s p then some p else rest

-- Both passes, from a place where the text has room: where the text is found.
unfoldable pub find_passes : List ℕ → List ℕ → ℕ → Option ℕ
unfolding find_pass
find_passes buf s from =
    let last = length buf - length s in
    let second = if from == 0 then none else find_pass buf s from 0 in
    elim (find_pass buf s (last + 1 - from) from) [ some p ↦ some p | none ↦ second ]

unfoldable pub show_match : ℕ → View → Option ℕ → View
unfolding say
show_match tick v none =
    say tick e_text_notfound v.search_text (record v { found = none; draw_content = true })
show_match tick v (some p) = show_offset (record v { found = some p }) p

unfoldable pub find_text : ℕ → View → ℕ → View
unfolding find_passes show_match
find_text tick v from =
    let last = length v.buf - length v.search_text in
    if length v.search_text == 0
    then v
    else if ltb (length v.buf) (length v.search_text)
    then say tick e_text_notfound v.search_text (record v { found = none })
    else show_match tick v (find_passes v.buf v.search_text (if ltb last from then 0 else from))
