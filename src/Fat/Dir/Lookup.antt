-- ===== src/Fat/Dir/Lookup.antt =====
-- kernel/fat32.c, `FatListDir`: what a callback keeps, the listing keeps.
use bloom_os.Prelude.{
  ℕ, zero, suc, ◌+◌, ◌*◌, ◌%◌, ◌^◌, Bool, true, false, List, Option, none, some, Bool-cases, inl,
  inr, take, drop,
}
use bloom_os.Fat.Disk.{ReadFn}
use bloom_os.Fat.Boot.{Volume}
use bloom_os.Fat.File.{Entry}
use bloom_os.Fat.Table.{cluster_lba, cluster_valid, next_cluster}
use bloom_os.Fat.Dir.{
  Callback, LongName, Shown, the_end, hidden, shown, Turn, returned, goes_on, show_record,
  list_records, list_sectors, list_clusters, fat_list_dir, max_chain,
}

abbrev pub context : {C : Type 0} → Turn C → C
context (returned r c) = c
context (goes_on l c) = c

module _ {C : Type 0} (callback : Callback C) (P : C → Type 0)
    (keeps : (entry : Entry) (c : C) → P c → P (callback entry c).1) where
  -- A record, with what the rest of the loop does.
  record_kept :
      (s : Shown) (rest : LongName → C → Turn C) (c : C)
      → ((l : LongName) (c' : C) → P c' → P (context (rest l c')))
      → P c
      → P (
          context (elim s as (λ _. Turn C) [
            | the_end ↦ returned true c
            | hidden l ↦ rest l c
            | shown l entry ↦ elim (callback entry c).0 as (λ _. Turn C) [
              | true ↦ returned true (callback entry c).1
              | false ↦ rest l (callback entry c).1
            ]
          ]))
  record_kept the_end rest c keep p = p
  record_kept (hidden l) rest c keep p = keep l c p
  record_kept (shown l entry) rest c keep p = elim (Bool-cases (callback entry c).0) [
    | inl e ↦ rw e (keeps entry c p)
    | inr e ↦ rw e (keep l (callback entry c).1 (keeps entry c p))
  ]

  pub list_records_kept :
      (n e : ℕ) (buffer : List ℕ) (l : LongName) (c : C)
      → P c
      → P (context (list_records callback n e buffer l c))
  unfolding list_records
  list_records_kept zero e buffer l c p = p
  list_records_kept (suc n) e buffer l c p =
      record_kept (show_record (take 32 (drop (e * 32) buffer)) l)
        (λ l' c'. list_records callback n (e + 1) buffer l' c') c
        (λ l' c'. list_records_kept n (e + 1) buffer l' c') p

  module _ (read : ReadFn) where
    turn_kept :
        (t : Turn C) (rest : LongName → C → Turn C)
        → P (context t)
        → ((l : LongName) (c' : C) → P c' → P (context (rest l c')))
        → P (
            context (elim t as (λ _. Turn C) [
              | returned b c' ↦ returned b c'
              | goes_on l c' ↦ rest l c'
            ]))
    turn_kept (returned b c) rest p keep = p
    turn_kept (goes_on l c) rest p keep = keep l c p

    sector_kept :
        (r : Option (List ℕ)) (now : List ℕ → Turn C) (rest : LongName → C → Turn C) (c : C)
        → ((buffer : List ℕ) → P (context (now buffer)))
        → ((l : LongName) (c' : C) → P c' → P (context (rest l c')))
        → P c
        → P (
            context (elim r as (λ _. Turn C) [
              | none ↦ returned false c
              | some buffer ↦ elim (now buffer) as (λ _. Turn C) [
                | returned b c' ↦ returned b c'
                | goes_on l c' ↦ rest l c'
              ]
            ]))
    sector_kept none now rest c here keep p = p
    sector_kept (some buffer) now rest c here keep p =
        turn_kept (now buffer) rest (here buffer) keep

    pub list_sectors_kept :
        (n s lba : ℕ) (l : LongName) (c : C)
        → P c
        → P (context (list_sectors callback read n s lba l c))
    unfolding list_sectors
    list_sectors_kept zero s lba l c p = p
    list_sectors_kept (suc n) s lba l c p =
        sector_kept (read ((lba + s) % 2 ^ 64) 1) (λ buffer. list_records callback 16 0 buffer l c)
          (λ l' c'. list_sectors callback read n (s + 1) lba l' c') c
          (λ buffer. list_records_kept 16 0 buffer l c p)
          (λ l' c'. list_sectors_kept n (s + 1) lba l' c') p

    cluster_kept :
        (t : Turn C) (v : Volume) (rest : LongName → C → Bool × C × Volume)
        → P (context t)
        → ((l : LongName) (c' : C) → P c' → P (rest l c').1)
        → P
            (elim t as (λ _. Bool × C × Volume) [
              | returned r c' ↦ (r, c', v)
              | goes_on l c' ↦ rest l c'
            ]).1
    cluster_kept (returned r c) v rest p keep = p
    cluster_kept (goes_on l c) v rest p keep = keep l c p

    pub list_clusters_kept :
        (guard cluster : ℕ) (v : Volume) (l : LongName) (c : C)
        → P c
        → P (list_clusters callback read guard cluster v l c).1
    unfolding list_clusters
    list_clusters_kept zero cluster v l c p = p
    list_clusters_kept (suc guard) cluster v l c p = elim (Bool-cases (cluster_valid cluster)) [
      | inr e ↦ rw (list_clusters, e) p
      | inl e ↦
          let turn =
            list_sectors callback read v.geometry.sectors_per_cluster 0
              (cluster_lba v.geometry cluster) l c in
          rw (list_clusters, e)
            (cluster_kept turn v
              (λ l' c'.
                list_clusters callback read guard (next_cluster read v cluster).0
                  (next_cluster read v cluster).1 l' c')
              (list_sectors_kept v.geometry.sectors_per_cluster 0 (cluster_lba v.geometry cluster) l
                c p)
              (λ l' c'.
                list_clusters_kept guard (next_cluster read v cluster).0
                  (next_cluster read v cluster).1 l' c'))
    ]

    -- What holds of the callback's context before a listing and is kept by each call of the
    -- callback holds of it after the listing, however that ends.
    pub fat_list_dir_kept :
        (units : List ℕ) (dir_cluster : ℕ) (v : Volume) (c : C)
        → P c
        → P (fat_list_dir callback read units dir_cluster v c).1
    unfolding fat_list_dir
    fat_list_dir_kept units dir_cluster v c p = list_clusters_kept max_chain dir_cluster v _ c p
