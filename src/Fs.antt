-- ===== src/Fs.antt =====
-- kernel/fs.c: paths over the mounted volumes. The array of components is a list; the current
-- directory and the volumes are the record `Fs`. Block reads are a function of the device.
-- `MountNewPartitions` is not modelled: the names in the table of partitions are an argument.
pub mod Paths
pub mod Chdir
mod Tests
use Prim.Native.Nat.{bit_and}
use bloom_os.Prelude.{
  ℕ, zero, suc, ◌+◌, ◌-◌, Bool, true, false, not, ◌&&◌, ◌||◌, List, [], ◌∷◌, ◌++◌, Option, none,
  some, ltb, leb, ◌==◌, if◌then◌else◌, take, length, get_elem?, set,
}
use bloom_os.Prelude.Int.{ℤ, pos, negsuc}
use bloom_os.Prelude.Text.{chars}
use bloom_os.Prelude.Monad.{◌>>=◌}
use bloom_os.Fat.Disk.{ReadFn}
use bloom_os.Fat.Boot.{Volume}
use bloom_os.Fat.File.{Entry, is_directory, fat_read_at}
use bloom_os.Fat.Dir.{Callback, fat_list_dir, fat_lookup}
use bloom_os.Fat.Dir.Names.{lower_ascii}
use bloom_os.Fs.Paths.{is_separator, is_empty, split_into, colon_in}

abbrev pub fs_path_max : ℕ
fs_path_max = 512

abbrev pub fs_ok : ℤ
fs_ok = pos 1

abbrev pub fs_err_novolume : ℤ
fs_err_novolume = negsuc 0

abbrev pub fs_err_notfound : ℤ
fs_err_notfound = negsuc 1

abbrev pub fs_err_notdir : ℤ
fs_err_notdir = negsuc 2

abbrev pub fs_err_io : ℤ
fs_err_io = negsuc 3

abbrev pub fs_err_unsupported : ℤ
fs_err_unsupported = negsuc 5

-- `FS_VOLUME`, with the device that its FAT volume lies on.
pub record FsVolume : Type 0 where
  pub name : List ℕ
  pub partition : ℕ
  pub device : ℕ
  pub fat : Volume

pub record Fs : Type 0 where
  pub volumes : List FsVolume
  pub cwd_volume : Option ℕ
  pub cwd_path : List ℕ

-- `FS_NODE`.
pub record Node : Type 0 where
  pub volume : ℕ
  pub is_dir : Bool
  pub entry : Entry
  pub path : List ℕ

pub fs_volume_count : Fs → ℕ
fs_volume_count s = length s.volumes

abbrev volume_at : Fs → ℤ → Option FsVolume
volume_at s (negsuc _) = none
volume_at s (pos i) = get_elem? s.volumes i

pub fs_volume_name : Fs → ℤ → List ℕ
fs_volume_name s index = elim (volume_at s index) [ none ↦ [] | some v ↦ v.name ]

pub fs_volume_partition : Fs → ℤ → ℤ
fs_volume_partition s index = elim (volume_at s index) [
  | none ↦ negsuc 0
  | some v ↦ pos v.partition
]

-- The inner loop of `FindVolume` and of `PartitionExists`.
pub name_matches : List ℕ → List ℕ → Bool
name_matches [] [] = true
name_matches [] (b ∷ ys) = false
name_matches (a ∷ xs) [] = false
name_matches (a ∷ xs) (b ∷ ys) = lower_ascii a == lower_ascii b && name_matches xs ys

pub find_volume : ℕ → List FsVolume → List ℕ → Option ℕ
unfolding name_matches
find_volume i [] name = none
find_volume i (v ∷ vs) name =
    let rest = find_volume (i + 1) vs name in if name_matches v.name name then some i else rest

-- `partitions` has the names of the partitions.
pub partition_exists : List (List ℕ) → List ℕ → Bool
unfolding name_matches
partition_exists [] name = false
partition_exists (p ∷ ps) name = name_matches p name || partition_exists ps name

abbrev is_absolute : List ℕ → Bool
is_absolute [] = false
is_absolute (c ∷ _) = is_separator c

-- The status, and where it is 1 the volume and the components.
abbrev pub Parsed : Type 0
Parsed = ℤ × ℕ × List (List ℕ)

pub parse_named : Fs → List (List ℕ) → List ℕ → List ℕ → Parsed
unfolding find_volume partition_exists
parse_named s partitions name path = elim (find_volume 0 s.volumes name) [
  | none ↦ (if partition_exists partitions name then fs_err_unsupported else fs_err_novolume, 0, [])
  | some v ↦ (fs_ok, v, split_into path [])
]

pub parse_input : Fs → List (List ℕ) → List ℕ → Parsed
unfolding parse_named
parse_input s partitions input = elim (colon_in input) [
  | some parts ↦ parse_named s partitions parts.0 parts.1
  | none ↦ elim s.cwd_volume [
    | none ↦ (fs_err_novolume, 0, [])
    | some v ↦
        if is_absolute input
        then (fs_ok, v, split_into input [])
        else (fs_ok, v, split_into input (split_into s.cwd_path []))
  ]
]

-- What `FsResolve` appends to the path of the node.
pub add_to_path : List ℕ → List ℕ → List ℕ
add_to_path path name =
    if ltb (length path) (fs_path_max - 2)
    then take (fs_path_max - 1) (path ++ (b'/' ∷ name))
    else path

-- The loop over the components.
pub walk : ReadFn → List ℕ → List (List ℕ) → Node → Volume → ℤ × Node × Volume
unfolding add_to_path
walk read units [] node v = (fs_ok, node, v)
walk read units (c ∷ cs) node v = elim node.is_dir [
  | false ↦ (fs_err_notdir, node, v)
  | true ↦
      let (found, v') = fat_lookup read units v node.entry.cluster c in
      elim found [
        | none ↦ (fs_err_notfound, node, v')
        | some entry ↦
            walk read units cs
              (record node {
                entry = entry;
                is_dir = is_directory entry;
                path = add_to_path node.path entry.name;
              })
              v'
      ]
]

abbrev root_node : ℕ → FsVolume → Node
root_node i v = record {
  volume = i;
  is_dir = true;
  entry = record { name = []; attr = 0x10; size = 0; cluster = v.fat.geometry.root_cluster };
  path = [];
}

abbrev put_fat : Fs → ℕ → FsVolume → Volume → Fs
put_fat s i v fat = record s { volumes = set s.volumes i (record v { fat = fat }) }

abbrev with_root : Node → Node
with_root node = if is_empty node.path then record node { path = b'/' ∷ [] } else node

-- The end of `FsResolve`: the root's path is written only where the walk succeeds.
pub finish_resolve : Fs → ℕ → FsVolume → ℤ × Node × Volume → ℤ × Node × Fs
finish_resolve s i v (pos k, found, fat) = (pos k, with_root found, put_fat s i v fat)
finish_resolve s i v (negsuc k, found, fat) = (negsuc k, found, put_fat s i v fat)

-- `FsResolve` behind `ParseInput`.
pub resolve_in : (ℕ → ReadFn) → List ℕ → Fs → Parsed → Node → Option FsVolume → ℤ × Node × Fs
unfolding walk finish_resolve
resolve_in reads units s (negsuc k, i, components) node volume = (negsuc k, node, s)
resolve_in reads units s (pos k, i, components) node none = (pos k, node, s)
resolve_in reads units s (pos k, i, components) node (some v) =
    finish_resolve s i v (walk (reads v.device) units components (root_node i v) v.fat)

pub fs_resolve : (ℕ → ReadFn) → List ℕ → List (List ℕ) → Fs → List ℕ → Node → ℤ × Node × Fs
unfolding parse_input resolve_in
fs_resolve reads units partitions s input node =
    let parsed = parse_input s partitions input in
    resolve_in reads units s parsed node (get_elem? s.volumes parsed.1)

-- `FsChdir` on what `FsResolve` gives.
pub finish_chdir : ℤ × Node × Fs → ℤ × Fs
finish_chdir (negsuc k, node, s) = (negsuc k, s)
finish_chdir (pos k, node, s) = if not node.is_dir then (fs_err_notdir, s) else (
  fs_ok,
  record s { cwd_volume = some node.volume; cwd_path = take (fs_path_max - 1) node.path },
)

pub fs_chdir : (ℕ → ReadFn) → List ℕ → List (List ℕ) → Fs → List ℕ → Node → ℤ × Fs
unfolding fs_resolve finish_chdir
fs_chdir reads units partitions s input scratch =
    finish_chdir (fs_resolve reads units partitions s input scratch)

pub fs_read : (ℕ → ReadFn) → Fs → Node → ℕ → ℕ → List ℕ × Fs
fs_read reads s file offset count = elim (get_elem? s.volumes file.volume) [
  | none ↦ ([], s)
  | some v ↦
      if file.is_dir
      then ([], s)
      else let (bytes, fat) = fat_read_at (reads v.device) v.fat file.entry offset count in
        (bytes, put_fat s file.volume v fat)
]

pub fs_has_cwd : Fs → Bool
fs_has_cwd s = elim s.cwd_volume [ none ↦ false | some _ ↦ true ]

unfoldable pub fs_list :
    {C : Type 0} → Callback C → (ℕ → ReadFn) → List ℕ → Fs → Node → C → ℤ × C × Fs
fs_list callback reads units s dir c = elim (get_elem? s.volumes dir.volume) [
  | none ↦ (fs_err_io, c, s)
  | some v ↦
      if not dir.is_dir
      then (fs_err_notdir, c, s)
      else let (listed, c', fat) =
          fat_list_dir callback (reads v.device) units dir.entry.cluster v.fat c in
        (if listed then fs_ok else fs_err_io, c', put_fat s dir.volume v fat)
]

pub fs_error_text : ℤ → List ℕ
fs_error_text (pos code) = chars "error"
fs_error_text (negsuc k) =
    if k == 0
    then chars "no such volume or no volume selected"
    else if k == 1
    then chars "no such file or directory"
    else if k == 2
    then chars "not a directory"
    else if k == 3
    then chars "read error"
    else if k == 4
    then chars "bad path"
    else if k == 5
    then chars "filesystem is not supported yet"
    else chars "error"
