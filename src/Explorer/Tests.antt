-- ===== src/Explorer/Tests.antt =====
-- kernel/explorer.c: a small folder, and the theorems at inputs that meet their hypotheses.
use bloom_os.Prelude.{ℕ, ◌≡◌, refl, true, false, List, [], ◌∷◌, ◌++◌, none, some, arith, replicate}
use bloom_os.Prelude.Text.{chars}
use bloom_os.Fat.Disk.{ReadFn}
use bloom_os.Fat.Boot.{Volume}
use bloom_os.Fs.{Fs, Node}
use bloom_os.Ui.{ui_compare_names, ui_lower, ui_str_append, ui_str_copy}
use bloom_os.Explorer.{
  FileEntry, Explorer, entry_less, less_at, sort_entries, extension_of, dir_join, dir_up, cut_last,
}
use bloom_os.Explorer.Sort.{sort_order, sort_gaps, sort_pass, shift}
use bloom_os.Explorer.Sort.Order.{IsOrder}
use bloom_os.Explorer.Entries.{sort_entries-IsOrder}
use bloom_os.Explorer.Listing.{load_dir}
use bloom_os.Explorer.Select.{IsListing}
use bloom_os.Explorer.Folder.{load_dir-IsListing}

abbrev file : List ℕ → ℕ → ℕ → FileEntry
file name size kind = record {
  name = name;
  size = size;
  kind = kind;
  usable = true;
  hidden = false;
}

abbrev folder : Explorer
folder = record {
  entries =
      file (chars "notes.txt") 10 2 ∷ file (chars "Music") 0 0 ∷ file (chars "beep.wav") 900 1 ∷ [];
  order = [];
  truncated = false;
  volume = 0;
  dir = b'/' ∷ [];
  sort_mode = 0;
  show_hidden = false;
  selected = 0;
  scroll = 0;
  row_dirty = none;
  flags = 0;
  message = [];
  message_kind = 0;
  message_until = 0;
  visible = 5;
  log = [];
}

folders_come_first : (sort_entries folder).order ≡ 1 ∷ 2 ∷ 0 ∷ []
unfolding sort_entries sort_order sort_gaps sort_pass shift entry_less ui_compare_names ui_lower
    extension_of
folders_come_first = refl

up_and_down : dir_up (dir_join (chars "/a") (chars "b")) 256 ≡ (chars "/a", chars "b")
unfolding dir_up dir_join cut_last ui_str_append ui_str_copy
up_and_down = refl

sort_entries-IsOrder_example : IsOrder (less_at folder) 3 (sort_entries folder).order
sort_entries-IsOrder_example = sort_entries-IsOrder folder

abbrev volume : Volume
volume = record {
  geometry = record {
    start_lba = 0;
    sectors_per_cluster = 1;
    fat_start = 1;
    first_data = 2;
    root_cluster = 2;
  };
  sector_buffer = 4096;
  fat_buffer_page = 8192;
  fat_buffer = [];
  fat_buffer_lba = 0;
  fat_buffer_valid = false;
  cursor_first = 0;
  cursor_index = 0;
  cursor_cluster = 0;
}

abbrev system : Fs
system = record {
  volumes = record { name = b'd' ∷ []; partition = 0; device = 0; fat = volume } ∷ [];
  cwd_volume = none;
  cwd_path = [];
}

abbrev scratch : Node
scratch = record {
  volume = 0;
  is_dir = false;
  entry = record { name = []; attr = 0; size = 0; cluster = 0 };
  path = [];
}

-- Each sector holds the records of two files.
abbrev reads : ℕ → ReadFn
reads device lba count =
    some (chars "B       TXT" ++ (replicate 21 0 ++ (chars "A       TXT" ++ replicate 21 0)))

load_dir-IsListing_example :
    IsListing (load_dir 0 reads (replicate 261 0) [] [] scratch folder system).1
load_dir-IsListing_example =
    load_dir-IsListing 0 reads (replicate 261 0) [] [] scratch folder system (omega arith)
