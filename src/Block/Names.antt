-- ===== src/Block/Names.antt =====
-- kernel/blockdev.c: how names resolve after a registration or a removal, and the names that
-- `BlockRegisterNext` chooses.
use bloom_os.Prelude.{
  ℕ, zero, suc, ◌+◌, ◌<◌, ◌≤◌, ◌≡◌, ◌≢◌, ◌∙◌, sym, ap, refl, true, false, List, [], ◌∷◌, ◌++◌,
  Option, none, some, ◌==◌, if◌then◌else◌, arith, inl, inr, Bool-cases, Option-cases, length, take,
  get_elem?, set, length-append, length-set, length-take,
}
use bloom_os.Prelude.Int.{ℤ, pos, negsuc}
use bloom_os.Block.{
  Device, Table, ReadFn, ReadExFn, copy_name, block_find, add_device, block_remove, put_offline,
  unit_digits, free_name, block_register_next,
}
use bloom_os.Block.Registry.{
  IsValid, IsUsable, index_of, block_find-index_of, name_eq_self, name_eq_sound, entry,
  name-new_device, copy_name_of_short, index_of-eq-none, add_named_cases, index_of-append,
  index_of-set,
}

-- After a registration that returned an index, the index is that of the new last entry, the name
-- (cut to the 15 characters that are kept) resolves to it, and every other name resolves as before.
pub block_find-add_device :
    (name : List ℕ) (legacy : Option ReadFn) (read : Option ReadExFn)
    (context sector_size sector_count max_count : ℕ) (t : Table) {i : ℕ} {t' : Table}
    → add_device (some name) legacy read context sector_size sector_count max_count t ≡ (pos i, t')
    → (i ≡ length t)
      × (length t' ≡ length t + 1)
      × (block_find t' (some (copy_name name)) ≡ pos i)
      × ((n : List ℕ) → n ≢ copy_name name → block_find t' (some n) ≡ block_find t (some n))
unfolding add_device
block_find-add_device name legacy read context size count max t {i} {t'} h =
    elim (add_named_cases name legacy read context size count max t) [
      | inl e ↦ absurd (refused e)
      | inr (a, e) ↦
          let new = entry name legacy read context size count max in
          let keeps = name-new_device name legacy read context size count max in
          let parts : (i ≡ length t) × (t' ≡ t ++ (new ∷ [])) = ground (arith, e, h) in
          (
            parts.0,
            rw parts.1 (omega (arith, length-append t (new ∷ []))),
            rw (parts.1, block_find-index_of)
                (ground (
                  arith,
                  parts.0,
                  a.fresh,
                  keeps,
                  index_of-append t new (copy_name name),
                  name_eq_self (copy_name name),
                )),
            λ n ne. rw parts.1 (
                ground (
                  arith,
                  block_find-index_of t n,
                  block_find-index_of (t ++ (new ∷ [])) n,
                  index_of-append t new n,
                  keeps,
                  name_eq_sound new.name n,
                  (λ (q : copy_name name ≡ n). ne (sym q)),
                )),
          )
    ]
  where
    refused :
        ◌≡◌ {A = ℤ × Table}
          (add_device (some name) legacy read context size count max t)
          (negsuc 0, t)
        → ⊥
    refused e = ground (arith, e, h)

get_elem?-set :
    (t : Table) (i : ℕ) (d e : Device) (j : ℕ)
    → get_elem? t i ≡ some d
    → get_elem? (set t i e) j ≡ (if i == j then some e else get_elem? t j)
get_elem?-set [] i d e j h = cc
get_elem?-set (x ∷ t) zero d e zero h = ground arith
get_elem?-set (x ∷ t) zero d e (suc j) h = ground arith
get_elem?-set (x ∷ t) (suc i) d e zero h = ground arith
get_elem?-set (x ∷ t) (suc i) d e (suc j) h = ground (arith, get_elem?-set t i d e j h)

-- `BlockRemove` at the index of a device of a valid table succeeds and marks the device offline: the
-- entry keeps its place and all its other fields, every other entry stays as it is, every name resolves
-- as before, also the removed device's own, and the table stays valid.
pub block_remove_lem :
    (t : Table) (i : ℕ) (d : Device)
    → IsValid t
    → get_elem? t i ≡ some d
    → ((block_remove (pos i) t).0 ≡ true)
      × ((j : ℕ)
          → get_elem? (block_remove (pos i) t).1 j
            ≡ (if i == j then some (record d { online = false }) else get_elem? t j))
      × ((n : List ℕ) → block_find (block_remove (pos i) t).1 (some n) ≡ block_find t (some n))
      × IsValid (block_remove (pos i) t).1
unfolding block_remove
block_remove_lem t i d v at = rw (at, put_offline) (refl, entries, lookups, valid)
  where
    off : Device
    off = record d { online = false }

    entries : (j : ℕ) → get_elem? (set t i off) j ≡ (if i == j then some off else get_elem? t j)
    entries j = get_elem?-set t i d off j at

    lookups : (n : List ℕ) → block_find (set t i off) (some n) ≡ block_find t (some n)
    lookups n = ground (
      arith,
      block_find-index_of (set t i off) n,
      block_find-index_of t n,
      index_of-set t i d off n at refl,
    )

    off-IsUsable : IsUsable off
    off-IsUsable =
        let u = v.usable i d at in
        record {
          sized = record { whole = u.sized.whole; known = u.sized.known };
          positive = u.positive;
          named = u.named;
          short = u.short;
          driven = u.driven;
        }

    valid : IsValid (set t i off)
    valid = record {
      few = omega (arith, v.few, length-set t i off);
      usable = λ j e h. elim (Bool-cases (i == j)) [
        | inl same ↦ let is_off : e ≡ off = ground (arith, entries j, h) in rw is_off off-IsUsable
        | inr other ↦ v.usable j e (ground (arith, entries j))
      ];
      found = λ j e h. elim (Bool-cases (i == j)) [
        | inl same ↦ ground (arith, entries j, v.found i d at, lookups e.name)
        | inr other ↦ ground (arith, entries j, v.found j e, lookups e.name)
      ];
    }

-- The first of the numbers from `n` on whose name is not taken.
free_name_lem :
    (rounds n : ℕ) (prefix : List ℕ) (t : Table) {name : List ℕ}
    → free_name rounds n prefix t ≡ some name
    → (k : ℕ) × (n ≤ k)
      × (k < n + rounds)
      × (name ≡ prefix ++ unit_digits k)
      × (index_of t name ≡ none)
      × ((m : ℕ) → n ≤ m → m < k → index_of t (prefix ++ unit_digits m) ≢ none)
unfolding free_name
free_name_lem zero n prefix t h = cc
free_name_lem (suc rounds) n prefix t {name = name} h =
    elim (Option-cases (index_of t (prefix ++ unit_digits n))) [
      | inl free ↦
          let chosen : name ≡ prefix ++ unit_digits n =
            ground (arith, h, free, block_find-index_of t (prefix ++ unit_digits n)) in
          (n, omega arith, omega arith, chosen, rw chosen free, λ m a b. absurd (omega arith))
      | inr (j, taken) ↦
          let later : free_name rounds (n + 1) prefix t ≡ some name =
            ground (arith, h, taken, block_find-index_of t (prefix ++ unit_digits n)) in
          let (k, a, b, c, e, f) = free_name_lem rounds (n + 1) prefix t later in
          (
            k,
            omega arith,
            omega arith,
            c,
            e,
            λ m p q. elim (Bool-cases (n == m)) [
              | inl same ↦ ground (arith, taken)
              | inr other ↦ f m (ground arith) q
            ],
          )
    ]

short_name : (k : ℕ) (prefix : List ℕ) → length (take 12 prefix ++ unit_digits k) ≤ 15
unfolding unit_digits
short_name k prefix =
    grind (arith, length-append (take 12 prefix) (unit_digits k), length-take 12 prefix)

-- `BlockRegisterNext`, where it registers a device, gives it the first free name among the prefix
-- (cut to 12 characters) followed by a number below 100: that name was not taken, the names with
-- smaller numbers were, and afterwards it resolves to the new device.
pub block_register_next_lem :
    (prefix : List ℕ) (read : Option ReadExFn) (context sector_size sector_count max_count : ℕ)
    (t : Table) {i : ℕ} {t' : Table}
    → block_register_next (some prefix) read context sector_size sector_count max_count t
      ≡ (pos i, t')
    → (k : ℕ) × (k < 100)
      × (block_find t (some (take 12 prefix ++ unit_digits k)) ≡ negsuc 0)
      × ((m : ℕ) → m < k → block_find t (some (take 12 prefix ++ unit_digits m)) ≢ negsuc 0)
      × (i ≡ length t)
      × (block_find t' (some (take 12 prefix ++ unit_digits k)) ≡ pos i)
unfolding block_register_next
block_register_next_lem [] read context size count max t h = cc
block_register_next_lem (c ∷ cs) read context size count max t {i} {t'} h =
    elim (Option-cases (free_name 100 0 (take 12 (c ∷ cs)) t)) [
      | inl full ↦ ground (arith, h)
      | inr (name, e) ↦
          let (k, a, b, is_name, free, taken) = free_name_lem 100 0 (take 12 (c ∷ cs)) t e in
          let added : add_device (some name) none read context size count max t ≡ (pos i, t') =
            ground (arith, h) in
          let (at, len, finds, others) =
            block_find-add_device name none read context size count max t added in
          (
            k,
            omega arith,
            ground (arith, free, is_name, block_find-index_of t name),
            (λ m l z. taken m (omega arith) l (index_of-eq-none t _ z)),
            at,
            ap (λ n. block_find t' (some n))
                  (sym (copy_name_of_short name (rw is_name (short_name k (c ∷ cs))) ∙ is_name))
                ∙ finds,
          )
    ]
