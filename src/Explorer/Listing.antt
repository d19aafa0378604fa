-- ===== src/Explorer/Listing.antt =====
-- kernel/explorer.c: reading a folder, and moving in it and between folders. Blocks are read and
-- paths are resolved by the file system layer.
use Prim.Native.Nat.{bit_and, bit_or}
use bloom_os.Prelude.{
  ℕ, zero, suc, ◌+◌, ◌-◌, ◌%◌, Bool, true, false, not, ◌&&◌, ◌||◌, List, [], ◌∷◌, ◌++◌, Option,
  none, some, ltb, leb, ◌==◌, if◌then◌else◌, get_or, length,
}
use bloom_os.Prelude.Int.{ℤ, pos, negsuc}
use bloom_os.Prelude.Text.{chars}
use bloom_os.Fat.Disk.{ReadFn}
use bloom_os.Fat.Dir.{Callback}
use bloom_os.Fs.{
  Fs, Node, fs_resolve, fs_list, fs_volume_count, fs_volume_name, fs_error_text, fs_err_notdir,
}
use bloom_os.Ui.{ui_str_copy, ui_str_append, ui_str_equal, ui_lower}
use bloom_os.Explorer.{
  FileEntry, Explorer, kind_dir, classify_file, is_root, item_count, item_entry, set_error,
  dir_join, dir_up, sort_entries, clamp_scroll,
}

abbrev pub max_entries : ℕ
max_entries = 1024

abbrev pub name_stored : ℕ
name_stored = 120

unfoldable pub list_callback : Callback Explorer
list_callback e s =
    let is_hidden = not (bit_and e.attr 6 == 0) in
    let entry : FileEntry = record {
      name = ui_str_copy e.name name_stored;
      size = e.size;
      kind = if not (bit_and e.attr 0x10 == 0) then kind_dir else classify_file e.name;
      usable = ltb (length e.name) name_stored;
      hidden = is_hidden;
    } in
    if is_hidden && not s.show_hidden
    then (false, s)
    else if leb max_entries (length s.entries)
    then (true, record s { truncated = true })
    else (false, record s { entries = s.entries ++ (entry ∷ []) })

-- The loop of `FindItemByName`, with the rounds left and the item.
unfoldable pub find_item_from : Explorer → List ℕ → ℕ → ℕ → Option ℕ
find_item_from s name zero i = none
find_item_from s name (suc n) i =
    let rest = find_item_from s name n (i + 1) in
    elim (item_entry s i) [
      | none ↦ rest
      | some e ↦ if ui_str_equal e.name name then some i else rest
    ]

unfoldable pub find_item_by_name : Explorer → List ℕ → Option ℕ
unfolding find_item_from
find_item_by_name s name = find_item_from s name (item_count s) 0

abbrev pub or_first : Option ℕ → ℕ
or_first none = 0
or_first (some i) = i

-- The item that `LoadDir` selects.
unfoldable pub focus_item : List ℕ → Explorer → ℕ
unfolding find_item_by_name
focus_item [] s = if not (is_root s.dir) && ltb 1 (item_count s) then 1 else 0
focus_item (c ∷ focus) s = or_first (find_item_by_name s (c ∷ focus))

module _ (tick : ℕ) (reads : ℕ → ReadFn) (units : List ℕ) (partitions : List (List ℕ)) where
  abbrev pub list_resolved : Explorer → ℤ × Node × Fs → ℤ × Explorer × Fs
  list_resolved s (negsuc k, node, f) = (negsuc k, s, f)
  list_resolved s (pos k, node, f) =
      if not (k == 1)
      then (pos k, s, f)
      else if not node.is_dir
      then (fs_err_notdir, s, f)
      else fs_list list_callback reads units f node s

  -- `LoadDir` behind the listing: the order, the item selected, the messages.
  unfoldable pub show_list : List ℕ → ℤ × Explorer × Fs → Bool × Explorer × Fs
  unfolding focus_item
  show_list focus (status, listed, f) =
      let sorted = sort_entries listed in
      let s = clamp_scroll tick (record sorted { selected = focus_item focus sorted }) in
      let failed : Bool × Explorer × Fs = (false, set_error tick 102 (fs_error_text status) s, f) in
      elim status [
        | negsuc k ↦ failed
        | pos k ↦
            if not (k == 1)
            then failed
            else (true, if s.truncated then set_error tick 103 [] s else s, f)
      ]

  unfoldable pub load_dir : List ℕ → Node → Explorer → Fs → Bool × Explorer × Fs
  unfolding show_list list_callback
  load_dir focus scratch s f =
      let empty : Explorer = record s {
        entries = [];
        truncated = false;
        selected = 0;
        scroll = 0;
        row_dirty = none;
        flags = bit_or s.flags 0x1F;
      } in
      let name = ui_str_copy (fs_volume_name f (pos s.volume)) 808 in
      let input = ui_str_append (ui_str_append name (chars ":") 808) s.dir 808 in
      if fs_volume_count f == 0
      then (false, set_error tick 100 [] empty, f)
      else show_list focus (list_resolved empty (fs_resolve reads units partitions f input scratch))

  -- `Select`, for an index that is not negative.
  unfoldable pub select : ℕ → Explorer → Explorer
  select wanted s =
      let count = item_count s in
      let index = if leb count wanted then count - 1 else wanted in
      let s' = clamp_scroll tick (record s { selected = index }) in
      if count == 0 || index == s.selected
      then s
      else if s'.scroll == s.scroll
      then record s' { row_dirty = some (s.selected, s'.selected) }
      else record s' { flags = bit_or s'.flags 0x04 }

  unfoldable pub switch_volume : ℕ → Node → Explorer → Fs → Explorer × Fs
  unfolding load_dir
  switch_volume index scratch s f =
      let loaded = load_dir [] scratch (record s { volume = index; dir = b'/' ∷ [] }) f in
      if leb (fs_volume_count f) index then (s, f) else (loaded.1, loaded.2)

  unfoldable pub go_up : Node → Explorer → Fs → Explorer × Fs
  unfolding load_dir
  go_up scratch s f =
      let (dir, last) = dir_up s.dir 256 in
      let loaded = load_dir last scratch (record s { dir = dir }) f in
      if is_root s.dir then (s, f) else (loaded.1, loaded.2)

  -- `Activate` for a folder.
  unfoldable pub enter_dir : FileEntry → Node → Explorer → Fs → Explorer × Fs
  unfolding load_dir
  enter_dir e scratch s f =
      let joined = dir_join s.dir e.name in
      let (entered, s', f') = load_dir [] scratch (record s { dir = joined }) f in
      let back = load_dir [] scratch (record s' { dir = ui_str_copy s.dir 512 }) f' in
      if not e.usable
      then (set_error tick 104 e.name s, f)
      else if leb (512 - 2) (length joined)
      then (set_error tick 105 e.name (record s { dir = ui_str_copy s.dir 512 }), f)
      else if entered
      then (s', f')
      else (back.1, back.2)

  abbrev focus_name : Option FileEntry → List ℕ
  focus_name none = []
  focus_name (some e) = ui_str_copy e.name 256

  unfoldable pub refresh : Node → Explorer → Fs → Bool × Explorer × Fs
  unfolding load_dir
  refresh scratch s f = load_dir (focus_name (item_entry s s.selected)) scratch s f

  abbrev refocus : List ℕ → Explorer → ℕ
  refocus [] s = 0
  refocus (c ∷ focus) s = or_first (find_item_by_name s (c ∷ focus))

  unfoldable pub cycle_sort : Explorer → Explorer
  cycle_sort s =
      let sorted = sort_entries (record s { sort_mode = (s.sort_mode + 1) % 3 }) in
      let found = refocus (focus_name (item_entry s s.selected)) sorted in
      let s' = clamp_scroll tick (record sorted { selected = found; scroll = 0 }) in
      record s' { flags = bit_or s'.flags 0x05 }

  -- The loop of `JumpToLetter`, with the rounds left and the step.
  unfoldable pub jump_from : ℕ → ℕ → ℕ → Explorer → Explorer
  unfolding select
  jump_from letter zero step s = s
  jump_from letter (suc n) step s =
      let index = (s.selected + step) % item_count s in
      let rest = jump_from letter n (step + 1) s in
      elim (item_entry s index) [
        | none ↦ rest
        | some e ↦ if ui_lower (get_or e.name 0 0) == ui_lower letter then select index s else rest
      ]

  unfoldable pub jump_to_letter : ℕ → Explorer → Explorer
  unfolding jump_from
  jump_to_letter letter s = jump_from letter (item_count s) 1 s
