-- ===== src/Fs/Chdir.antt =====
-- kernel/fs.c, `FsChdir`: the current directory changes only where the call succeeds.
use bloom_os.Prelude.{
  ℕ, ◌≡◌, refl, true, List, Option, none, some, take, get_elem?, ◌⊎◌, Bool-cases, inl, inr,
}
use bloom_os.Prelude.Int.{ℤ, pos, negsuc}
use bloom_os.Fat.Disk.{ReadFn}
use bloom_os.Fat.Boot.{Volume}
use bloom_os.Fs.{
  Fs, FsVolume, Node, Parsed, parse_input, resolve_in, fs_resolve, fs_chdir, finish_chdir,
  finish_resolve, walk, root_node,
}

-- The same current directory.
abbrev pub SameCwd : Fs → Fs → Type 0
SameCwd s t = (s.cwd_volume ≡ t.cwd_volume) × (s.cwd_path ≡ t.cwd_path)

finish_resolve-SameCwd :
    (s : Fs) (i : ℕ) (v : FsVolume) (r : ℤ × Node × Volume) → SameCwd s (finish_resolve s i v r).2
unfolding finish_resolve
finish_resolve-SameCwd s i v (pos k, found, fat) = (refl, refl)
finish_resolve-SameCwd s i v (negsuc k, found, fat) = (refl, refl)

resolve_in-SameCwd :
    (reads : ℕ → ReadFn) (units : List ℕ) (s : Fs) (parsed : Parsed) (node : Node)
    (volume : Option FsVolume)
    → SameCwd s (resolve_in reads units s parsed node volume).2
unfolding resolve_in
resolve_in-SameCwd reads units s (negsuc k, i, components) node volume = (refl, refl)
resolve_in-SameCwd reads units s (pos k, i, components) node none = (refl, refl)
resolve_in-SameCwd reads units s (pos k, i, components) node (some v) =
    finish_resolve-SameCwd s i v (walk (reads v.device) units components (root_node i v) v.fat)

-- What `FsChdir` makes of a resolved path in the state `s`: it fails and the current directory
-- stays, or it returns 1, the node is a directory and becomes the current one.
abbrev pub Moves : Fs → ℤ × Node × Fs → ℤ × Fs → Type 0
Moves s r (status, s') =
    ((n : ℕ) × (status ≡ negsuc n) × SameCwd s s')
    ⊎ ((status ≡ pos 1)
        × (r.1.is_dir ≡ true)
        × (s'.cwd_volume ≡ some r.1.volume)
        × (s'.cwd_path ≡ take 511 r.1.path))

finish_chdir-Moves : (s : Fs) (r : ℤ × Node × Fs) → SameCwd s r.2 → Moves s r (finish_chdir r)
unfolding finish_chdir
finish_chdir-Moves s (negsuc k, node, s') same = inl (k, refl, same)
finish_chdir-Moves s (pos k, node, s') same = elim (Bool-cases node.is_dir) [
  | inl e ↦ rw (finish_chdir, e) (inr (refl, refl, refl, refl))
  | inr e ↦ rw (finish_chdir, e) (inl (2, refl, same))
]

-- `FsChdir` keeps the current volume and path unless it returns 1; then they are those of the node
-- that the path resolves to, which is a directory.
pub fs_chdir-Moves :
    (reads : ℕ → ReadFn) (units : List ℕ) (partitions : List (List ℕ)) (s : Fs) (input : List ℕ)
    (node : Node)
    → Moves s
        (fs_resolve reads units partitions s input node)
        (fs_chdir reads units partitions s input node)
unfolding fs_chdir fs_resolve
fs_chdir-Moves reads units partitions s input node =
    let parsed = parse_input s partitions input in
    let volume = get_elem? s.volumes parsed.1 in
    finish_chdir-Moves s (resolve_in reads units s parsed node volume)
      (resolve_in-SameCwd reads units s parsed node volume)
