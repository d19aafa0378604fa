-- ===== src/Errors.antt =====
-- kernel/errors.c: the texts of the error codes, and the lines made of them. A buffer of characters is
-- the text in it; a null pointer for the detail is the empty text.
use bloom_os.Prelude.{
  ℕ, ◌-◌, Bool, true, false, List, [], ◌∷◌, ◌++◌, ◌==◌, if◌then◌else◌, take, length,
}
use bloom_os.Prelude.Text.{chars}
use bloom_os.Klog.{klog, klog_uint, decimal_from}

-- `ERROR_ENTRY`.
record ErrorEntry : Type 0 where
  code : ℕ
  warning : Bool
  text : List ℕ

abbrev row : ℕ → Bool → List ℕ → ErrorEntry
row code warning text = record { code = code; warning = warning; text = text }

abbrev table : List ErrorEntry
table =
    row 100 false (chars "no readable volumes found")
    ∷ row 102 false (chars "cannot read folder")
    ∷ row 103 true (chars "folder is large, showing the first 1024 entries")
    ∷ row 104 false (chars "name is too long to open")
    ∷ row 105 false (chars "path is too long")
    ∷ row 110 false (chars "cannot open file")
    ∷ row 111 false (chars "read error while loading file")
    ∷ row 112 true (chars "file is large, showing only the first 256 KB")
    ∷ row 113 true (chars "binary file, opened in hex view")
    ∷ row 114 true (chars "file is empty")
    ∷ row 115 true (chars "too many lines, view is truncated")
    ∷ row 116 false (chars "internal viewer range error")
    ∷ row 120 false (chars "sample rate is not supported by the HDA driver")
    ∷ row 121 false (chars "unsupported WAV format (need PCM 8/16/24/32-bit, 1-8 channels)")
    ∷ row 122 false (chars "HDA audio stream is not available")
    ∷ row 123 false (chars "not enough low memory for audio buffers")
    ∷ row 124 false (chars "read error during playback")
    ∷ row 125 false (chars "not a RIFF/WAVE file")
    ∷ row 130 false (chars "internal selection error, auto-corrected")
    ∷ row 131 false (chars "screen is too small, need at least 800x480")
    ∷ row 140 true (chars "text not found")
    ∷ row 141 false (chars "cannot read file details")
    ∷ []

abbrev text_in : List ErrorEntry → ℕ → List ℕ
text_in [] code = chars "unknown error"
text_in (e ∷ es) code = if e.code == code then e.text else text_in es code

abbrev warning_in : List ErrorEntry → ℕ → Bool
warning_in [] code = false
warning_in (e ∷ es) code = if e.code == code then e.warning else warning_in es code

unfoldable pub error_text : ℕ → List ℕ
error_text code = text_in table code

unfoldable pub error_is_warning : ℕ → Bool
error_is_warning code = warning_in table code

abbrev is_empty : List ℕ → Bool
is_empty [] = true
is_empty (_ ∷ _) = false

-- `Append`: as much of the text as the buffer of `max` characters has room for.
unfoldable pub append : List ℕ → List ℕ → ℕ → List ℕ
append dst src max = dst ++ take (max - 1 - length dst) src

-- `UIntText`: 11 characters are room for the digits of an `int`.
unfoldable pub code_text : ℕ → List ℕ
code_text value = if value == 0 then b'0' ∷ [] else decimal_from 11 value []

unfoldable pub error_format : ℕ → List ℕ → ℕ → List ℕ
unfolding append
error_format code detail max =
    let head = append (append [] (chars "E") max) (code_text code) max in
    let line = append (append head (chars " ") max) (error_text code) max in
    if is_empty detail then line else append (append line (chars ": ") max) detail max

unfoldable pub error_log : List ℕ → ℕ → List ℕ → List ℕ → List ℕ
error_log source code detail log =
    let named = klog_uint code (klog (chars ": E") (klog source log)) in
    let line = klog (error_text code) (klog (chars " ") named) in
    let more = klog (chars "]") (klog detail (klog (chars " [") line)) in
    let full = if is_empty detail then line else more in klog (chars "\n") full
