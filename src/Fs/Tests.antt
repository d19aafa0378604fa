-- ===== src/Fs/Tests.antt =====
-- kernel/fs.c: the theorems at concrete paths.
use Prim.{tt}
use bloom_os.Prelude.{ℕ, ◌≡◌, refl, false, none, some, List, [], ◌∷◌, arith}
use bloom_os.Fat.Disk.{ReadFn}
use bloom_os.Fat.Boot.{Volume}
use bloom_os.Fs.{Fs, Node, fs_resolve, fs_chdir}
use bloom_os.Fs.Chdir.{Moves, fs_chdir-Moves}
use bloom_os.Fs.Paths.{split_into}
use bloom_os.Fs.Paths.Split.{path_text, split_into-path_text}

abbrev names : List (List ℕ)
names = (b'a' ∷ b'b' ∷ []) ∷ (b'.' ∷ b'c' ∷ []) ∷ []

split_into-path_text_example : split_into (path_text names) [] ≡ names
split_into-path_text_example =
    split_into-path_text names
      (
        record {
          plain = (refl, (refl, tt));
          some_text = refl;
          no_dot = refl;
          no_dot_dot = refl;
          short = omega arith;
        },
        (
          record {
            plain = (refl, (refl, tt));
            some_text = refl;
            no_dot = refl;
            no_dot_dot = refl;
            short = omega arith;
          },
          tt,
        ),
      )
      (omega arith)

abbrev volume : Volume
volume = record {
  geometry = record {
    start_lba = 0;
    sectors_per_cluster = 1;
    fat_start = 1;
    first_data = 2;
    root_cluster = 2;
  };
  sector_buffer = 4096;
  fat_buffer_page = 8192;
  fat_buffer = [];
  fat_buffer_lba = 0;
  fat_buffer_valid = false;
  cursor_first = 0;
  cursor_index = 0;
  cursor_cluster = 0;
}

-- One volume "d", whose directory "ab" is the current one.
abbrev system : Fs
system = record {
  volumes = record { name = b'd' ∷ []; partition = 0; device = 0; fat = volume } ∷ [];
  cwd_volume = some 0;
  cwd_path = b'/' ∷ b'a' ∷ b'b' ∷ [];
}

abbrev scratch : Node
scratch = record {
  volume = 0;
  is_dir = false;
  entry = record { name = []; attr = 0; size = 0; cluster = 0 };
  path = [];
}

abbrev reads : ℕ → ReadFn
reads device lba count = none

-- The path `..` leads to the root.
fs_chdir-Moves_example :
    Moves system
      (fs_resolve reads [] [] system (b'.' ∷ b'.' ∷ []) scratch)
      (fs_chdir reads [] [] system (b'.' ∷ b'.' ∷ []) scratch)
fs_chdir-Moves_example = fs_chdir-Moves reads [] [] system (b'.' ∷ b'.' ∷ []) scratch
