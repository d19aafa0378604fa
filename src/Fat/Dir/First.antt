-- ===== src/Fat/Dir/First.antt =====
-- kernel/fat32.c, `FatLookup`: its loops over sectors and clusters beside those of a listing.
use Prim.{tt}
use mathlib.Core.Path.{subst}
use bloom_os.Prelude.{
  ℕ, zero, suc, ◌+◌, ◌%◌, ◌^◌, refl, Bool, false, List, [], Option, none, some, Bool-cases, inl,
  inr,
}
use bloom_os.Fat.Disk.{ReadFn}
use bloom_os.Fat.Boot.{Volume}
use bloom_os.Fat.File.{Entry}
use bloom_os.Fat.Table.{cluster_lba, cluster_valid, next_cluster}
use bloom_os.Fat.Dir.{
  LongName, Turn, returned, goes_on, list_records, list_sectors, list_clusters, fat_list_dir,
  lookup_callback, fat_lookup, max_chain,
}
use bloom_os.Fat.Dir.Lookup.{context, list_sectors_kept, list_clusters_kept}
use bloom_os.Fat.Dir.Beside.{
  collect, IsFirst, Unmatched, collect-IsFirst, Beside, KeepsFirst, list_records-Beside,
  turn-Beside,
}

module _ (name : List ℕ) where
  module _ (read : ReadFn) where
    sector-Beside :
        (r : Option (List ℕ)) (now : List ℕ → Turn (Option Entry))
        (now' : List ℕ → Turn (List Entry)) (rest : LongName → Option Entry → Turn (Option Entry))
        (rest' : LongName → List Entry → Turn (List Entry)) (xs : List Entry)
        → Unmatched name xs
        → ((buffer : List ℕ) → Beside name (now buffer) (now' buffer))
        → ((l : LongName) (ys : List Entry)
            → Unmatched name ys
            → Beside name (rest l none) (rest' l ys))
        → KeepsFirst name (λ l ys. context (rest' l ys))
        → Beside name
            (elim r as (λ _. Turn (Option Entry)) [
              | none ↦ returned false none
              | some buffer ↦ elim (now buffer) as (λ _. Turn (Option Entry)) [
                | returned b c ↦ returned b c
                | goes_on l c ↦ rest l c
              ]
            ])
            (elim r as (λ _. Turn (List Entry)) [
              | none ↦ returned false xs
              | some buffer ↦ elim (now' buffer) as (λ _. Turn (List Entry)) [
                | returned b c ↦ returned b c
                | goes_on l c ↦ rest' l c
              ]
            ])
    unfolding Beside
    sector-Beside none now now' rest rest' xs u here go keep = u
    sector-Beside (some buffer) now now' rest rest' xs u here go keep =
        turn-Beside name (now buffer) (now' buffer) rest rest' (here buffer) go keep

    list_sectors-Beside :
        (n s lba : ℕ) (l : LongName) (xs : List Entry)
        → Unmatched name xs
        → Beside name
            (list_sectors (lookup_callback name) read n s lba l none)
            (list_sectors collect read n s lba l xs)
    unfolding list_sectors Beside
    list_sectors-Beside zero s lba l xs u = (refl, u)
    list_sectors-Beside (suc n) s lba l xs u =
        sector-Beside (read ((lba + s) % 2 ^ 64) 1)
          (λ buffer. list_records (lookup_callback name) 16 0 buffer l none)
          (λ buffer. list_records collect 16 0 buffer l xs)
          (λ l' c. list_sectors (lookup_callback name) read n (s + 1) lba l' c)
          (λ l' c. list_sectors collect read n (s + 1) lba l' c) xs u
          (λ buffer. list_records-Beside name 16 0 buffer l xs u)
          (λ l' ys. list_sectors-Beside n (s + 1) lba l' ys)
          (λ found l' ys.
            list_sectors_kept collect (IsFirst name (some found)) (collect-IsFirst name found) read
              n (s + 1) lba l' ys)

    cluster-IsFirst :
        (t : Turn (Option Entry)) (t' : Turn (List Entry)) (v : Volume)
        (rest : LongName → Option Entry → Bool × Option Entry × Volume)
        (rest' : LongName → List Entry → Bool × List Entry × Volume)
        → Beside name t t'
        → ((l : LongName) (ys : List Entry)
            → Unmatched name ys
            → IsFirst name (rest l none).1 (rest' l ys).1)
        → KeepsFirst name (λ l ys. (rest' l ys).1)
        → IsFirst name
            (elim t as (λ _. Bool × Option Entry × Volume) [
              | returned r c ↦ (r, c, v)
              | goes_on l c ↦ rest l c
            ]).1
            (elim t' as (λ _. Bool × List Entry × Volume) [
              | returned r c ↦ (r, c, v)
              | goes_on l c ↦ rest' l c
            ]).1
    unfolding Beside
    cluster-IsFirst (goes_on l none) (goes_on l' xs) v rest rest' (same, u) go keep =
        subst (λ k. IsFirst name (rest l none).1 (rest' k xs).1) same (go l xs u)
    cluster-IsFirst (goes_on l none) (returned b' xs) v rest rest' u go keep = absurd u
    cluster-IsFirst (goes_on l (some e)) t v rest rest' u go keep = absurd u
    cluster-IsFirst (returned b none) (goes_on l' xs) v rest rest' u go keep = absurd u
    cluster-IsFirst (returned b none) (returned b' xs) v rest rest' u go keep = u
    cluster-IsFirst (returned b (some e)) (returned b' xs) v rest rest' p go keep = p
    cluster-IsFirst (returned b (some e)) (goes_on l xs) v rest rest' p go keep = keep e l xs p

    list_clusters-IsFirst :
        (guard cluster : ℕ) (v : Volume) (l : LongName) (xs : List Entry)
        → Unmatched name xs
        → IsFirst name
            (list_clusters (lookup_callback name) read guard cluster v l none).1
            (list_clusters collect read guard cluster v l xs).1
    unfolding list_clusters
    list_clusters-IsFirst zero cluster v l xs u = u
    list_clusters-IsFirst (suc guard) cluster v l xs u = elim (Bool-cases (cluster_valid cluster)) [
      | inr e ↦ rw (list_clusters, e) u
      | inl e ↦
          let sectors = v.geometry.sectors_per_cluster in
          let at = cluster_lba v.geometry cluster in
          let (next, v') = next_cluster read v cluster in
          rw (list_clusters, e)
            (cluster-IsFirst (list_sectors (lookup_callback name) read sectors 0 at l none)
              (list_sectors collect read sectors 0 at l xs) v
              (λ l' c. list_clusters (lookup_callback name) read guard next v' l' c)
              (λ l' c. list_clusters collect read guard next v' l' c)
              (list_sectors-Beside sectors 0 at l xs u)
              (λ l' ys. list_clusters-IsFirst guard next v' l' ys)
              (λ found l' ys.
                list_clusters_kept collect (IsFirst name (some found)) (collect-IsFirst name found)
                  read guard next v' l' ys))
    ]

-- `FatLookup` beside the listing of the same directory by a callback that keeps every entry and never
-- stops it: the entry found is the first one listed that has the name asked for, which is the same
-- characters up to the case of ASCII letters; where none is found, no entry listed has it.
pub fat_lookup-IsFirst :
    (read : ReadFn) (units : List ℕ) (v : Volume) (dir_cluster : ℕ) (name : List ℕ)
    → IsFirst name
        (fat_lookup read units v dir_cluster name).0
        (fat_list_dir collect read units dir_cluster v []).1
unfolding fat_lookup fat_list_dir
fat_lookup-IsFirst read units v dir_cluster name =
    list_clusters-IsFirst name read max_chain dir_cluster v
      (record { valid = false; sum = 0; count = 0; units = units }) [] tt
