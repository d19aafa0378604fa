-- ===== src/Part/Adds.antt =====
-- kernel/part.c, `AddPart`: what a scan may do to the table of partitions.
use bloom_os.Prelude.{
  ℕ, ◌+◌, ◌≡◌, refl, sym, ap, ◌∙◌, Bool, List, [], ◌∷◌, ◌++◌, if◌then◌else◌, length, length-append,
  append_nil, append_assoc, All, arith, Bool-cases, inl, inr,
}
use Prim.{tt}
use bloom_os.Block.{Table}
use bloom_os.Part.{Scan, page_for, new_part, add_part}
use bloom_os.Part.Names.{Part}

-- From one state to another, exactly `count` entries of the device are added behind the old ones,
-- and no device is marked as scanned or unmarked.
pub record Adds (device : ℕ) (s : Scan) (count : ℕ) (s' : Scan) : Type 0 where
  pub new : List Part
  pub parts : s'.parts ≡ s.parts ++ new
  pub on_device : All (λ p. p.device ≡ device) new
  pub number : length new ≡ count
  pub marks : s'.scanned ≡ s.scanned

All-append :
    (P : Part → Type 0) (later earlier : List Part)
    → All P earlier
    → All P later
    → All P (earlier ++ later)
All-append P later [] h k = k
All-append P later (p ∷ ps) h k = (h.0, All-append P later ps h.1 k)

pub Adds-nothing :
    (device : ℕ) (s s' : Scan) → s'.parts ≡ s.parts → s'.scanned ≡ s.scanned → Adds device s 0 s'
Adds-nothing device s s' e m = record {
  new = [];
  parts = e ∙ sym (append_nil s.parts);
  on_device = tt;
  number = refl;
  marks = m;
}

pub Adds-trans :
    (device m n : ℕ) (s s' s'' : Scan)
    → Adds device s m s'
    → Adds device s' n s''
    → Adds device s (m + n) s''
Adds-trans device m n s s' s'' a b = record {
  new = a.new ++ b.new;
  parts = b.parts ∙ ap (λ l. l ++ b.new) a.parts ∙ append_assoc s.parts a.new b.new;
  on_device = All-append (λ p. p.device ≡ device) b.new a.new a.on_device b.on_device;
  number = omega (arith, length-append a.new b.new, a.number, b.number);
  marks = b.marks ∙ a.marks;
}

pub page_for-Adds : (device : ℕ) (s : Scan) → Adds device s 0 (page_for s).1
unfolding page_for
page_for-Adds device s =
    let same : (page_for s).1.parts ≡ s.parts = ground arith in
    let marks : (page_for s).1.scanned ≡ s.scanned = ground arith in
    Adds-nothing device s (page_for s).1 same marks

-- The number of entries that `AddPart` adds.
abbrev pub as_count : Bool → ℕ
as_count b = if b then 1 else 0

pub add_part-Adds :
    (t : Table) (device number start count scheme : ℕ) (edit : Part → Part) (s : Scan)
    → ((p : Part) → (edit p).device ≡ p.device)
    → Adds device s
        (as_count (add_part t device number start count scheme edit s).0)
        (add_part t device number start count scheme edit s).1
unfolding add_part new_part
add_part-Adds t device number start count scheme edit s keeps =
    let p = edit (new_part t device number start count scheme) in
    let roomy = page_for-Adds device s in
    elim (Bool-cases (page_for s).0) [
      | inl e ↦
          rw (add_part, e)
            (Adds-trans device 0 1 s (page_for s).1 _ roomy (record {
              new = p ∷ [];
              parts = refl;
              on_device = (keeps (new_part t device number start count scheme), tt);
              number = refl;
              marks = refl;
            }))
      | inr e ↦ rw (add_part, e) roomy
    ]
