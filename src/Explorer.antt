-- ===== src/Explorer.antt =====
-- kernel/explorer.c: the list of a folder's entries in the file explorer. The static variables are
-- the record `Explorer`; an index is never negative. `TickCount` is an argument.
pub mod Sort
pub mod Listing
pub mod Entries
pub mod Select
pub mod Folder
mod Tests
use Prim.Native.Nat.{bit_and, bit_or}
use bloom_os.Prelude.{
  ℕ, zero, suc, ◌+◌, ◌-◌, ◌*◌, ◌/◌, Bool, true, false, not, ◌&&◌, ◌||◌, List, [], ◌∷◌, ◌++◌, Option,
  none, some, ltb, leb, ◌==◌, if◌then◌else◌, get_or, get_elem?, length, take,
}
use bloom_os.Prelude.Text.{chars}
use bloom_os.Errors.{error_format, error_log, error_is_warning}
use bloom_os.Ui.{ui_str_copy, ui_str_append, ui_compare_names}
use bloom_os.Explorer.Sort.{sort_order}

abbrev pub kind_dir : ℕ
kind_dir = 0

abbrev pub kind_wav : ℕ
kind_wav = 1

abbrev pub kind_text : ℕ
kind_text = 2

abbrev pub kind_file : ℕ
kind_file = 3

abbrev pub sort_size : ℕ
sort_size = 1

abbrev pub sort_type : ℕ
sort_type = 2

abbrev pub fs_path_max : ℕ
fs_path_max = 512

-- `ENTRY`.
pub record FileEntry : Type 0 where
  pub name : List ℕ
  pub size : ℕ
  pub kind : ℕ
  pub usable : Bool
  pub hidden : Bool

pub record Explorer : Type 0 where
  pub entries : List FileEntry
  pub order : List ℕ
  pub truncated : Bool
  pub volume : ℕ
  pub dir : List ℕ
  pub sort_mode : ℕ
  pub show_hidden : Bool
  pub selected : ℕ
  pub scroll : ℕ
  pub row_dirty : Option (ℕ × ℕ)
  pub flags : ℕ
  pub message : List ℕ
  pub message_kind : ℕ
  pub message_until : ℕ
  pub visible : ℕ
  pub log : List ℕ

-- The text behind the last dot; the second argument is the text behind the last dot so far.
abbrev extension_from : List ℕ → List ℕ → List ℕ
extension_from [] dot = dot
extension_from (c ∷ s) dot = extension_from s (if c == b'.' then s else dot)

unfoldable pub extension_of : List ℕ → List ℕ
extension_of name = extension_from name []

-- `UiCompareNames` gives 0, and gives less than 0.
abbrev pub same_names : List ℕ → List ℕ → Bool
same_names a b = let d = ui_compare_names a b in d.0 == d.1

abbrev pub name_less : List ℕ → List ℕ → Bool
name_less a b = let d = ui_compare_names a b in ltb d.0 d.1

unfoldable pub ext_is : List ℕ → List ℕ → Bool
unfolding extension_of
ext_is name ext = same_names (extension_of name) ext

abbrev text_extensions : List (List ℕ)
text_extensions =
    chars "txt"
    ∷ chars "md"
    ∷ chars "log"
    ∷ chars "ini"
    ∷ chars "cfg"
    ∷ chars "conf"
    ∷ chars "c"
    ∷ chars "h"
    ∷ chars "cpp"
    ∷ chars "hpp"
    ∷ chars "asm"
    ∷ chars "s"
    ∷ chars "py"
    ∷ chars "js"
    ∷ chars "json"
    ∷ chars "xml"
    ∷ chars "csv"
    ∷ chars "html"
    ∷ chars "htm"
    ∷ chars "css"
    ∷ chars "sh"
    ∷ chars "bat"
    ∷ chars "cmd"
    ∷ chars "yml"
    ∷ chars "yaml"
    ∷ chars "toml"
    ∷ chars "rs"
    ∷ chars "go"
    ∷ chars "java"
    ∷ chars "lua"
    ∷ chars "tex"
    ∷ chars "ld"
    ∷ chars "mk"
    ∷ chars "makefile"
    ∷ chars "license"
    ∷ chars "readme"
    ∷ []

abbrev has_text_name : List ℕ → List (List ℕ) → Bool
has_text_name name [] = false
has_text_name name (e ∷ es) = ext_is name e || (same_names name e || has_text_name name es)

unfoldable pub classify_file : List ℕ → ℕ
unfolding ext_is
classify_file name =
    if ext_is name (chars "wav")
    then kind_wav
    else if has_text_name name text_extensions
    then kind_text
    else kind_file

abbrev pub is_root : List ℕ → Bool
is_root (c ∷ []) = c == b'/'
is_root _ = false

unfoldable pub item_count : Explorer → ℕ
item_count s = length s.entries + (if is_root s.dir then 0 else 1)

-- The entry of an item; none is the item for the folder above.
unfoldable pub item_entry : Explorer → ℕ → Option FileEntry
item_entry s index =
    let shift = if is_root s.dir then 0 else 1 in
    if ltb index shift || leb (length s.entries) (index - shift)
    then none
    else get_elem? s.entries (get_or s.order (index - shift) 0)

unfoldable pub set_message : ℕ → List ℕ → ℕ → Explorer → Explorer
set_message tick text kind s = record s {
  message = ui_str_copy text 220;
  message_kind = kind;
  message_until = tick + (if kind == 0 then 5000 else 7000);
  flags = bit_or s.flags 0x10;
}

unfoldable pub set_error : ℕ → ℕ → List ℕ → Explorer → Explorer
unfolding set_message
set_error tick code detail s =
    set_message tick (error_format code detail 220) (if error_is_warning code then 2 else 1)
      (record s { log = error_log (chars "explorer") code detail s.log })

unfoldable pub dir_join : List ℕ → List ℕ → List ℕ
dir_join dir name =
    let base = if is_root dir then dir else ui_str_append dir (chars "/") fs_path_max in
    ui_str_append base name fs_path_max

-- The loop of `DirUp`, from the end of the path: the last part, and what stands before it.
unfoldable pub cut_last : List ℕ → List ℕ × List ℕ
cut_last [] = ([], [])
cut_last (c ∷ s) =
    let (before, last) = cut_last s in
    if not (length before == 0)
    then (c ∷ before, last)
    else if c == b'/'
    then (c ∷ [], last)
    else ([], c ∷ last)

abbrev drop_end : List ℕ → List ℕ
drop_end [] = []
drop_end (c ∷ []) = []
drop_end (c ∷ d ∷ s) = c ∷ drop_end (d ∷ s)

-- `DirUp`: the folder above, and the last part of the path.
unfoldable pub dir_up : List ℕ → ℕ → List ℕ × List ℕ
unfolding cut_last
dir_up dir max =
    let (before, last) = cut_last dir in
    (if leb (length before) 1 then b'/' ∷ [] else drop_end before, ui_str_copy last max)

-- `EntryLess` on the two entries.
unfoldable pub entry_less : ℕ → FileEntry → FileEntry → Bool
unfolding extension_of
entry_less sort_mode a b =
    let a_dir = a.kind == kind_dir in
    let b_dir = b.kind == kind_dir in
    let by_name = name_less a.name b.name in
    let by_type =
      if same_names (extension_of a.name) (extension_of b.name)
      then by_name
      else name_less (extension_of a.name) (extension_of b.name) in
    if a_dir && not b_dir
    then true
    else if not a_dir && b_dir
    then false
    else if not a_dir && (sort_mode == sort_size && not (a.size == b.size))
    then ltb b.size a.size
    else if not a_dir && sort_mode == sort_type
    then by_type
    else by_name

abbrev pub no_entry : FileEntry
no_entry = record { name = []; size = 0; kind = 0; usable = false; hidden = false }

abbrev pub entry_at : List FileEntry → ℕ → FileEntry
entry_at [] i = no_entry
entry_at (e ∷ es) zero = e
entry_at (e ∷ es) (suc i) = entry_at es i

abbrev pub less_at : Explorer → ℕ → ℕ → Bool
less_at s a b = entry_less s.sort_mode (entry_at s.entries a) (entry_at s.entries b)

unfoldable pub sort_entries : Explorer → Explorer
unfolding entry_less
sort_entries s = record s { order = sort_order (less_at s) (length s.entries) }

-- `ClampScroll` behind its test of the selection.
unfoldable pub scroll_to : Explorer → Explorer
scroll_to s =
    let count = item_count s in
    let max_scroll = if ltb s.visible count then count - s.visible else 0 in
    let first = if ltb max_scroll s.scroll then max_scroll else s.scroll in
    let above = if ltb s.selected first then s.selected else first in
    record s {
      scroll = if leb (above + s.visible) s.selected then s.selected + 1 - s.visible else above;
    }

unfoldable pub clamp_scroll : ℕ → Explorer → Explorer
unfolding scroll_to
clamp_scroll tick s =
    let count = item_count s in
    let lost = record (set_error tick 130 (chars "selection index out of range") s) {
      selected = count - 1;
    } in
    if ltb 0 count && leb count s.selected then scroll_to lost else scroll_to s
