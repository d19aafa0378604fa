-- ===== src/Block/Registry.antt =====
-- kernel/blockdev.c, `AddDevice`, `BlockFind` and `BlockRemove`: the table of devices.
use bloom_os.Prelude.{
  ℕ, zero, suc, ◌+◌, ◌*◌, ◌/◌, ◌<◌, ◌≤◌, ◌≡◌, ap, refl, true, false, List, [], ◌∷◌, ◌++◌, Option,
  none, some, leb, if◌then◌else◌, arith, ◌⊎◌, inl, inr, Bool-cases, ◌&&◌, ◌||◌, length, take,
  get_elem?, set, length-append, length-take,
}
use bloom_os.Prelude.Int.{ℤ, pos, negsuc}
use bloom_os.Block.{
  Device, Table, ReadFn, ReadExFn, max_block_devices, name_size, name_eq, copy_name, find_from,
  block_find, valid_sector_size, new_device, add_named, add_device, is_negative, is_null, is_empty,
}
use bloom_os.Block.Loops.{IsSized, IsRatio}

pub name_eq_self : (a : List ℕ) → name_eq a a ≡ true
unfolding name_eq
name_eq_self [] = refl
name_eq_self (x ∷ xs) = ground (arith, name_eq_self xs)

pub name_eq_sound : (a b : List ℕ) → name_eq a b ≡ true → a ≡ b
unfolding name_eq
name_eq_sound [] [] h = refl
name_eq_sound [] (y ∷ ys) h = cc
name_eq_sound (x ∷ xs) [] h = cc
name_eq_sound (x ∷ xs) (y ∷ ys) h = ground (arith, name_eq_sound xs ys)

-- The place of the first device of a name, and the search of `BlockFind` in terms of it.
pub index_of : Table → List ℕ → Option ℕ
index_of [] name = none
index_of (d ∷ ds) name =
    if name_eq d.name name
    then some 0
    else elim (index_of ds name) [ none ↦ none | some k ↦ some (suc k) ]

abbrev pub status : ℕ → Option ℕ → ℤ
status i none = negsuc 0
status i (some k) = pos (i + k)

find_from-index_of :
    (i : ℕ) (t : Table) (name : List ℕ) → find_from i t name ≡ status i (index_of t name)
unfolding find_from index_of
find_from-index_of i [] name = refl
find_from-index_of i (d ∷ ds) name = ground (arith, find_from-index_of (i + 1) ds name)

pub block_find-index_of :
    (t : Table) (name : List ℕ) → block_find t (some name) ≡ status 0 (index_of t name)
unfolding block_find
block_find-index_of t name = find_from-index_of 0 t name

pub index_of-append :
    (t : Table) (d : Device) (name : List ℕ)
    → index_of (t ++ (d ∷ [])) name ≡ elim (index_of t name) [
      | some k ↦ some k
      | none ↦ if name_eq d.name name then some (length t) else none
    ]
unfolding index_of
index_of-append [] d name = ground arith
index_of-append (e ∷ ds) d name = ground (arith, index_of-append ds d name)

pub index_of-eq-none :
    (t : Table) (name : List ℕ) → block_find t (some name) ≡ negsuc 0 → index_of t name ≡ none
index_of-eq-none t name h = ground (arith, block_find-index_of t name)

-- A changed entry that keeps its name changes no lookup.
pub index_of-set :
    (t : Table) (i : ℕ) (d e : Device) (name : List ℕ)
    → get_elem? t i ≡ some d
    → e.name ≡ d.name
    → index_of (set t i e) name ≡ index_of t name
unfolding index_of
index_of-set [] i d e name h k = refl
index_of-set (x ∷ t) zero d e name h k = ground arith
index_of-set (x ∷ t) (suc i) d e name h k = ground (arith, index_of-set t i d e name h k)

get_elem?-append :
    (t : Table) (d e : Device) (i : ℕ)
    → get_elem? (t ++ (d ∷ [])) i ≡ some e
    → (get_elem? t i ≡ some e) ⊎ ((i ≡ length t) × (e ≡ d))
get_elem?-append [] d e zero h = inr (refl, cc)
get_elem?-append [] d e (suc i) h = cc
get_elem?-append (x ∷ t) d e zero h = inl h
get_elem?-append (x ∷ t) d e (suc i) h = elim (get_elem?-append t d e i h) [
  | inl old ↦ inl old
  | inr (a, b) ↦ inr (ap suc a, b)
]

-- A registered device can be read from, and its name fits its array.
pub record IsUsable (d : Device) : Type 0 where
  pub sized : IsSized d
  pub positive : 0 < d.max_count
  pub named : 0 < length d.name
  pub short : length d.name < name_size
  pub driven : (is_null d.legacy && is_null d.read) ≡ false

-- The table is not overfull, its devices are usable, and each is found under its own name.
pub record IsValid (t : Table) : Type 0 where
  pub few : length t ≤ max_block_devices
  pub usable : (i : ℕ) (d : Device) → get_elem? t i ≡ some d → IsUsable d
  pub found : (i : ℕ) (d : Device) → get_elem? t i ≡ some d → block_find t (some d.name) ≡ pos i

take_twice : (n : ℕ) (xs : List ℕ) → take n (take n xs) ≡ take n xs
take_twice zero xs = refl
take_twice (suc n) [] = refl
take_twice (suc n) (x ∷ xs) = ap (λ l. x ∷ l) (take_twice n xs)

take_all : (n : ℕ) (xs : List ℕ) → length xs ≤ n → take n xs ≡ xs
take_all zero [] h = refl
take_all zero (x ∷ xs) h = absurd (omega arith)
take_all (suc n) [] h = refl
take_all (suc n) (x ∷ xs) h = ap (λ l. x ∷ l) (take_all n xs (omega arith))

pub copy_name_of_short : (name : List ℕ) → length name ≤ 15 → copy_name name ≡ name
unfolding copy_name
copy_name_of_short name h = take_all 15 name h

copy_name_twice : (name : List ℕ) → copy_name (copy_name name) ≡ copy_name name
unfolding copy_name
copy_name_twice name = take_twice 15 name

copy_name_short : (name : List ℕ) → length (copy_name name) < name_size
unfolding copy_name
copy_name_short name = omega (arith, length-take 15 name)

copy_name_named : (name : List ℕ) → is_empty name ≡ false → 0 < length (copy_name name)
unfolding copy_name
copy_name_named [] h = cc
copy_name_named (x ∷ xs) h = omega arith

valid_sector_size_sized :
    (size : ℕ) → valid_sector_size size ≡ true → (size ≡ size / 512 * 512) × IsRatio (size / 512)
unfolding valid_sector_size
valid_sector_size_sized size h = ground arith

module _ (name : List ℕ) (legacy : Option ReadFn) (read : Option ReadExFn)
    (context sector_size sector_count max_count : ℕ) where
  abbrev pub entry : Device
  entry = new_device name legacy read context sector_size sector_count max_count

  pub name-new_device : entry.name ≡ copy_name name
  unfolding new_device
  name-new_device = copy_name_twice name

  new_device-IsUsable :
      is_empty name ≡ false
      → (is_null legacy && is_null read) ≡ false
      → valid_sector_size sector_size ≡ true
      → IsUsable entry
  unfolding new_device
  new_device-IsUsable named driven valid = record {
    sized = record {
      whole = (valid_sector_size_sized sector_size valid).0;
      known = (valid_sector_size_sized sector_size valid).1;
    };
    positive = ground arith;
    named = rw (copy_name_twice name) (copy_name_named name named);
    short = rw (copy_name_twice name) (copy_name_short name);
    driven = driven;
  }

  -- What the tests of `AddDevice` say of a device that it accepts.
  pub record Accepted (t : Table) : Type 0 where
    pub space : length t < max_block_devices
    pub usable : IsUsable entry
    pub fresh : index_of t (copy_name name) ≡ none

  -- `AddDevice` refuses and leaves the table, or it puts the device at the end.
  pub add_named_cases :
      (t : Table)
      → (add_named name legacy read context sector_size sector_count max_count t ≡ (negsuc 0, t))
        ⊎ (Accepted t
            × (add_named name legacy read context sector_size sector_count max_count t
                ≡ (pos (length t), t ++ (entry ∷ []))))
  unfolding add_named
  add_named_cases t =
      elim (Bool-cases
        (leb max_block_devices (length t) || (is_empty name || (is_null legacy && is_null read)))) [
          | inl a ↦ inl (rw a refl)
          | inr a ↦ elim (Bool-cases (valid_sector_size sector_size)) [
            | inr b ↦ inl (rw (a, b) refl)
            | inl b ↦ elim (Bool-cases (is_negative (block_find t (some (copy_name name))))) [
              | inr c ↦ inl (rw (a, b, c) refl)
              | inl c ↦ inr (
                record {
                  space = ground arith;
                  usable = new_device-IsUsable (ground arith) (ground arith) b;
                  fresh = ground (arith, block_find-index_of t (copy_name name));
                },
                rw (a, b, c) refl,
              )
            ]
          ]
        ]

  append-IsValid : (t : Table) → IsValid t → Accepted t → IsValid (t ++ (entry ∷ []))
  append-IsValid t v a = record {
    few = omega (arith, length-append t (entry ∷ []), a.space);
    usable = λ i d e. elim (get_elem?-append t entry d i e) [
      | inl old ↦ v.usable i d old
      | inr (_, new) ↦ rw new a.usable
    ];
    found = λ i d e. elim (get_elem?-append t entry d i e) [
      | inl old ↦ ground (
        arith,
        v.found i d old,
        block_find-index_of t d.name,
        block_find-index_of (t ++ (entry ∷ [])) d.name,
        index_of-append t entry d.name,
      )
      | inr (at, new) ↦ ground (
        arith,
        a.fresh,
        at,
        new,
        name-new_device,
        name_eq_self entry.name,
        block_find-index_of (t ++ (entry ∷ [])) entry.name,
        index_of-append t entry entry.name,
      )
    ];
  }

-- Registering a device, by whatever name and with whatever parameters, keeps the table valid: never
-- more than 64 devices, each with a driver, a sector size that reads can handle, a name that fits,
-- and each found under its own name.
pub add_device-IsValid :
    (name : Option (List ℕ)) (legacy : Option ReadFn) (read : Option ReadExFn)
    (context sector_size sector_count max_count : ℕ) (t : Table)
    → IsValid t
    → IsValid (add_device name legacy read context sector_size sector_count max_count t).1
unfolding add_device
add_device-IsValid none legacy read context size count max t v = v
add_device-IsValid (some name) legacy read context size count max t v =
    elim (add_named_cases name legacy read context size count max t) [
      | inl e ↦ rw e v
      | inr (a, e) ↦ rw e (append-IsValid name legacy read context size count max t v a)
    ]
