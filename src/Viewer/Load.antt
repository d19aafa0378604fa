-- ===== src/Viewer/Load.antt =====
-- kernel/viewer.c, `LoadFile`, on `FsResolve` and `FsRead` of the file system layer.
use bloom_os.Prelude.{
  ℕ, zero, suc, ◌-◌, ◌*◌, true, false, ◌||◌, List, [], ◌++◌, ltb, ◌==◌, if◌then◌else◌, length,
}
use bloom_os.Prelude.Int.{ℤ, pos, negsuc}
use bloom_os.Prelude.Text.{chars}
use bloom_os.Fat.Disk.{ReadFn}
use bloom_os.Fs.{Fs, Node, fs_resolve, fs_read, fs_error_text}
use bloom_os.Ui.{ui_str_copy, ui_str_append, ui_uint_to_text}

abbrev pub view_max_bytes : ℕ
view_max_bytes = 256 * 1024

abbrev pub e_file_open : ℕ
e_file_open = 110

abbrev pub e_file_read : ℕ
e_file_read = 111

-- What `LoadFile` returns and leaves in `Buf`, `TotalSize` and `Detail`: `Status` is the error, or the
-- warning where it is negative.
pub record Loaded : Type 0 where
  pub error : ℕ
  pub warning : ℕ
  pub bytes : List ℕ
  pub total_size : ℕ
  pub detail : List ℕ

abbrev nothing_loaded : ℕ → ℕ → List ℕ → Loaded
nothing_loaded error total_size detail = record {
  error = error;
  warning = 0;
  bytes = [];
  total_size = total_size;
  detail = ui_str_copy detail 160;
}

module _ (reads : ℕ → ReadFn) where
  -- The loop, on fuel: the bytes read, behind those read before.
  unfoldable pub load_loop : ℕ → Node → ℕ → List ℕ → Fs → List ℕ × Fs
  load_loop zero node want buf s = (buf, s)
  load_loop (suc fuel) node want buf s =
      let left = want - length buf in
      let chunk = if ltb 16384 left then 16384 else left in
      let (got, s') = fs_read reads s node (length buf) chunk in
      elim (ltb (length buf) want) [
        | false ↦ (buf, s)
        | true ↦ elim (length got == 0 || ltb chunk (length got)) [
          | true ↦ (buf, s')
          | false ↦ load_loop fuel node want (buf ++ got) s'
        ]
      ]

  abbrev finish_load : ℕ → ℕ → List ℕ → Loaded
  finish_load total want buf =
      let stopped =
        ui_str_append (ui_str_copy (chars "stopped at byte ") 160) (ui_uint_to_text (length buf))
          160 in
      if length buf == 0
      then nothing_loaded e_file_read total (chars "no data could be read")
      else record {
        error = 0;
        warning = if ltb (length buf) want then e_file_read else 0;
        bytes = buf;
        total_size = total;
        detail = if ltb (length buf) want then stopped else [];
      }

  unfoldable pub load_node : Node → Fs → Loaded × Fs
  unfolding load_loop
  load_node node s =
      let total = node.entry.size in
      let want = if ltb view_max_bytes total then view_max_bytes else total in
      let (buf, s') = load_loop want node want [] s in
      if node.is_dir
      then (nothing_loaded e_file_open 0 (chars "is a folder"), s)
      else if total == 0
      then (nothing_loaded 0 0 [], s)
      else (finish_load total want buf, s')

  unfoldable pub load_resolved : ℤ × Node × Fs → Loaded × Fs
  unfolding load_node
  load_resolved (pos k, node, s) =
      if k == 1 then load_node node s else (nothing_loaded e_file_open 0 (fs_error_text (pos k)), s)
  load_resolved (negsuc k, node, s) = (nothing_loaded e_file_open 0 (fs_error_text (negsuc k)), s)

  unfoldable pub load_file : List ℕ → List (List ℕ) → List ℕ → Node → Fs → Loaded × Fs
  unfolding load_resolved
  load_file units partitions path scratch s =
      load_resolved (fs_resolve reads units partitions s path scratch)
