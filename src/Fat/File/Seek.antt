-- ===== src/Fat/File/Seek.antt =====
-- kernel/fat32.c, `FatReadAt`: following the chain.
use bloom_os.Prelude.{ℕ, zero, suc, ◌+◌, ◌≤◌, ◌≡◌, refl, true, some, arith}
use bloom_os.Fat.Disk.{ReadFn}
use bloom_os.Fat.Boot.{Geometry, Volume}
use bloom_os.Fat.Table.{cluster_valid, next_cluster}
use bloom_os.Fat.Table.Chain.{chain, IsCoherent, next_in_chain}
use bloom_os.Fat.File.{seek}

seek_step :
    (read : ReadFn) (n cluster : ℕ) (v : Volume)
    → cluster_valid (next_cluster read v cluster).0 ≡ true
    → seek read (suc n) cluster v
      ≡ seek read n (next_cluster read v cluster).0 (next_cluster read v cluster).1
unfolding seek
seek_step read n cluster v e = ground (arith, e)

-- From the `k`-th cluster of a chain whose next clusters are valid the loop reaches the wanted one.
pub seek_lem :
    (read : ReadFn) (g : Geometry) (first n k : ℕ) (v : Volume)
    → v.geometry ≡ g
    → IsCoherent read v
    → ((j : ℕ) → j ≤ k + n → cluster_valid (chain read g first j) ≡ true)
    → ((seek read n (chain read g first k) v).0 ≡ some (chain read g first (k + n)))
      × ((seek read n (chain read g first k) v).1.geometry ≡ g)
      × IsCoherent read (seek read n (chain read g first k) v).1
unfolding seek
seek_lem read g first zero k v same h valid =
    let at : k + 0 ≡ k = omega arith in (rw at refl, same, h)
seek_lem read g first (suc n) k v same h valid =
    let (is_next, same', h') = next_in_chain read v g first k same h in
    let is_valid : cluster_valid (next_cluster read v (chain read g first k)).0 ≡ true =
      rw is_next (valid (k + 1) (omega arith)) in
    let at : k + suc n ≡ k + 1 + n = omega arith in
    rw (seek_step read n (chain read g first k) v is_valid, at, is_next)
      (seek_lem read g first n (k + 1) (next_cluster read v (chain read g first k)).1 same' h'
        (λ j l. valid j (omega arith)))
