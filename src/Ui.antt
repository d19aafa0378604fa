-- ===== src/Ui.antt =====
-- kernel/ui.c: the helpers on texts and on numbers. A buffer of characters is the text in it.
use bloom_os.Prelude.{
  ℕ, ◌+◌, ◌-◌, ◌*◌, ◌/◌, ◌%◌, ◌^◌, Bool, true, false, not, ◌&&◌, List, [], ◌∷◌, ◌++◌, ltb, leb,
  ◌==◌, if◌then◌else◌, take, length,
}
use bloom_os.Prelude.Text.{chars}
use bloom_os.Klog.{decimal_from}

unfoldable pub ui_str_copy : List ℕ → ℕ → List ℕ
ui_str_copy src max = take (max - 1) src

unfoldable pub ui_str_append : List ℕ → List ℕ → ℕ → List ℕ
ui_str_append dst src max = dst ++ take (max - 1 - length dst) src

unfoldable pub ui_str_equal : List ℕ → List ℕ → Bool
ui_str_equal [] [] = true
ui_str_equal [] (b ∷ u) = false
ui_str_equal (a ∷ s) [] = false
ui_str_equal (a ∷ s) (b ∷ u) = a == b && ui_str_equal s u

unfoldable pub ui_lower : ℕ → ℕ
ui_lower c = if leb b'A' c && leb c b'Z' then c - b'A' + b'a' else c

-- The two characters whose difference `UiCompareNames` returns, where a terminator is 0.
unfoldable pub ui_compare_names : List ℕ → List ℕ → ℕ × ℕ
unfolding ui_lower
ui_compare_names [] [] = (0, 0)
ui_compare_names [] (b ∷ u) = (0, ui_lower b)
ui_compare_names (a ∷ s) [] = (ui_lower a, 0)
ui_compare_names (a ∷ s) (b ∷ u) =
    let rest = ui_compare_names s u in
    if ui_lower a == ui_lower b then rest else (ui_lower a, ui_lower b)

unfoldable pub ui_uint_to_text : ℕ → List ℕ
ui_uint_to_text value = if value == 0 then b'0' ∷ [] else decimal_from 20 value []

unfoldable pub ui_format_size : ℕ → List ℕ
unfolding ui_str_append ui_uint_to_text
ui_format_size size =
    let tail = λ (value : ℕ) (unit : List ℕ).
      ui_str_append (ui_str_append [] (ui_uint_to_text value) 24) unit 24 in
    let small = ltb size (1024 * 1024 * 1024) in
    let unit = if small then 1024 * 1024 else 1024 * 1024 * 1024 in
    let tenths = size * 10 / unit in
    let whole = ui_str_append (tail (tenths / 10) (chars ".")) (ui_uint_to_text (tenths % 10)) 24 in
    if ltb size 1024
    then tail size (chars " B")
    else if ltb size (1024 * 1024)
    then tail (size / 1024) (chars " KB")
    else ui_str_append whole (if small then chars " MB" else chars " GB") 24

unfoldable pub ui_format_time : ℕ → List ℕ
unfolding ui_str_append ui_str_copy ui_uint_to_text
ui_format_time seconds =
    let minutes = ui_str_append (ui_str_copy (ui_uint_to_text (seconds / 60)) 24) (chars ":") 24 in
    let padded = if ltb (seconds % 60) 10 then ui_str_append minutes (chars "0") 24 else minutes in
    ui_str_append padded (ui_uint_to_text (seconds % 60)) 24

-- `<` of two 32-bit words as signed numbers.
unfoldable pub int_less : ℕ → ℕ → Bool
int_less a b = ltb ((a + 2 ^ 31) % 2 ^ 32) ((b + 2 ^ 31) % 2 ^ 32)

-- `UiInside`; the signed place is given by its 32-bit words.
unfoldable pub ui_inside : ℕ → ℕ → ℕ → ℕ → ℕ → ℕ → Bool
unfolding int_less
ui_inside x y left top width height =
    not (int_less x left)
    && (not (int_less y top) && (int_less x (left + width) && int_less y (top + height)))
