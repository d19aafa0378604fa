-- ===== src/Keyboard/Ring.antt =====
-- kernel/keyboard.c: the ring of the waiting keys as a queue of at most 255 keys.
use Prim.{tt}
use mathlib.Core.Path.{subst}
use bloom_os.Prelude.{
  ℕ, zero, suc, ◌+◌, ◌-◌, ◌%◌, ◌<◌, ◌≡◌, refl, sym, ap, ◌≢◌, true, List, [], ◌∷◌, ◌++◌, ltb, ◌==◌,
  if◌then◌else◌, get_or, set, length, length-set, get_or-set_self, get_or-set_ne, All, arith,
  Bool-cases, inl, inr, ◌⊎◌, ltb→lt, lt→ltb, ==_iff,
}
use bloom_os.Keyboard.{Keyboard, push_char, keyboard_get_key}

-- The `n` places of a ring from the place `i` on.
abbrev pub window : ℕ → ℕ → List ℕ → List ℕ
window zero i buffer = []
window (suc n) i buffer = get_or buffer i 0 ∷ window n ((i + 1) % 256) buffer

abbrev pub waiting : Keyboard → ℕ
waiting s = (s.head + 256 - s.tail) % 256

-- The queue that the ring stands for, the oldest key first.
abbrev pub queue : Keyboard → List ℕ
queue s = window (waiting s) s.tail s.key_buffer

abbrev pub IsKey : ℕ → Type 0
IsKey k = 0 < k

-- The ring has 256 places, the two indices lie in it, and no waiting key is 0.
pub record RingIsValid (buffer : List ℕ) (head tail : ℕ) : Type 0 where
  pub size : length buffer ≡ 256
  pub head_bound : head < 256
  pub tail_bound : tail < 256
  pub keys : All IsKey (window ((head + 256 - tail) % 256) tail buffer)

abbrev pub IsValid : Keyboard → Type 0
IsValid s = RingIsValid s.key_buffer s.head s.tail

length-window : (n i : ℕ) (buffer : List ℕ) → length (window n i buffer) ≡ n
length-window zero i buffer = refl
length-window (suc n) i buffer = ap suc (length-window n ((i + 1) % 256) buffer)

window_snoc :
    (n i : ℕ) (buffer : List ℕ)
    → i < 256
    → window (suc n) i buffer ≡ window n i buffer ++ (get_or buffer ((i + n) % 256) 0 ∷ [])
window_snoc zero i buffer h = ap (λ k. get_or buffer k 0 ∷ []) (omega arith)
window_snoc (suc n) i buffer h =
    let step : ((i + 1) % 256 + n) % 256 ≡ (i + suc n) % 256 = omega arith in
    rw (sym step)
      (ap (λ t. get_or buffer i 0 ∷ t) (window_snoc n ((i + 1) % 256) buffer (omega arith)))

-- A write in front of a window that does not go all the way round.
window-set :
    (n i j v : ℕ) (buffer : List ℕ)
    → i < 256
    → j < 256
    → n < 256
    → (j + 256 - i) % 256 ≡ n
    → window n i (set buffer j v) ≡ window n i buffer
window-set zero i j v buffer hi hj hn h = refl
window-set (suc n) i j v buffer hi hj hn h =
    rw
      (
        get_or-set_ne buffer j i v 0 (λ e. omega (arith, e)),
        window-set n ((i + 1) % 256) j v buffer (omega arith) hj (omega arith) (omega arith),
      )
      refl

All-snoc : (P : ℕ → Type 0) (xs : List ℕ) (x : ℕ) → All P xs → P x → All P (xs ++ (x ∷ []))
All-snoc P [] x hs h = (h, tt)
All-snoc P (y ∷ ys) x hs h = (hs.0, All-snoc P ys x hs.1 h)

window_push :
    (n i j c : ℕ) (buffer : List ℕ)
    → i < 256
    → j < length buffer
    → (i + n) % 256 ≡ j
    → j < 256
    → n < 255
    → window (suc n) i (set buffer j c) ≡ window n i buffer ++ (c ∷ [])
window_push n i j c buffer hi hj e h hn =
    rw
      (
        window_snoc n i (set buffer j c) hi,
        e,
        get_or-set_self buffer j c 0 hj,
        window-set n i j c buffer hi h (omega arith) (omega arith),
      )
      refl

push_char-room :
    (s : Keyboard) (c : ℕ)
    → IsValid s
    → waiting s < 255
    → push_char c s ≡ record s { key_buffer = set s.key_buffer s.head c; head = (s.head + 1) % 256 }
unfolding push_char
push_char-room s c v room = ground arith

push_char-full : (s : Keyboard) (c : ℕ) → IsValid s → ¬ (waiting s < 255) → push_char c s ≡ s
unfolding push_char
push_char-full s c v room = ground arith

queue-push_char :
    (s : Keyboard) (c : ℕ)
    → IsValid s
    → waiting s < 255
    → queue (push_char c s) ≡ queue s ++ (c ∷ [])
queue-push_char s c v room =
    let grown : ((s.head + 1) % 256 + 256 - s.tail) % 256 ≡ suc (waiting s) =
      omega (arith, v.head_bound, v.tail_bound) in
    rw (push_char-room s c v room, grown)
      (window_push (waiting s) s.tail s.head c s.key_buffer v.tail_bound
        (omega (arith, v.size, v.head_bound)) (omega (arith, v.head_bound, v.tail_bound))
        v.head_bound room)

push_char-IsValid :
    (s : Keyboard) (c : ℕ) → IsValid s → IsKey c → waiting s < 255 → IsValid (push_char c s)
push_char-IsValid s c v k room =
    let q = queue-push_char s c v room in
    record {
      size = rw (push_char-room s c v room, length-set s.key_buffer s.head c) v.size;
      head_bound = rw (push_char-room s c v room) (omega arith);
      tail_bound = rw (push_char-room s c v room) v.tail_bound;
      keys = rw q (All-snoc IsKey (queue s) c v.keys k);
    }

-- `PushChar` adds a key behind the waiting ones where fewer than 255 wait and drops it otherwise,
-- and keeps the ring valid.
pub push_char_lem :
    (s : Keyboard) (c : ℕ)
    → IsValid s
    → IsKey c
    → IsValid (push_char c s)
      × (queue (push_char c s)
          ≡ (if ltb (length (queue s)) 255 then queue s ++ (c ∷ []) else queue s))
push_char_lem s c v k =
    rw (length-window (waiting s) s.tail s.key_buffer) (elim (Bool-cases (ltb (waiting s) 255)) [
      | inl e ↦
          rw e (push_char-IsValid s c v k (ltb→lt _ _ e), queue-push_char s c v (ltb→lt _ _ e))
      | inr e ↦ rw (e, push_char-full s c v (λ h. absurd (ground (arith, lt→ltb _ _ h)))) (v, refl)
    ])

window_uncons :
    (n i : ℕ) (buffer : List ℕ)
    → 0 < n
    → window n i buffer ≡ get_or buffer i 0 ∷ window (n - 1) ((i + 1) % 256) buffer
window_uncons zero i buffer h = absurd (omega arith)
window_uncons (suc n) i buffer h =
    ap (λ k. get_or buffer i 0 ∷ window k ((i + 1) % 256) buffer) (omega arith)

take_key :
    (s : Keyboard)
    → IsValid s
    → s.tail ≢ s.head
    → queue s
      ≡ get_or s.key_buffer s.tail 0 ∷ window (waiting s - 1) ((s.tail + 1) % 256) s.key_buffer
take_key s v ne =
    window_uncons (waiting s) s.tail s.key_buffer (omega (arith, v.head_bound, v.tail_bound, ne))

no_wait : (s : Keyboard) → (s.tail == s.head) ≡ true → queue s ≡ []
no_wait s e =
    let none_waits : waiting s ≡ 0 = ground (arith, ==_iff s.tail s.head) in rw none_waits refl

rest_waiting :
    (s : Keyboard)
    → IsValid s
    → s.tail ≢ s.head
    → (s.head + 256 - (s.tail + 1) % 256) % 256 ≡ waiting s - 1
rest_waiting s v ne = omega (arith, v.head_bound, v.tail_bound, ne)

-- `KeyboardGetKey` returns 0 exactly where no key waits and then changes nothing; otherwise it
-- takes out the oldest key. The ring stays valid.
pub keyboard_get_key_lem :
    (s : Keyboard)
    → IsValid s
    → ((queue s ≡ []) × (keyboard_get_key s ≡ (0, s)))
      ⊎ ((k : ℕ) × (rest : List ℕ) × (queue s ≡ k ∷ rest)
          × (0 < k)
          × ((keyboard_get_key s).0 ≡ k)
          × (queue (keyboard_get_key s).1 ≡ rest)
          × IsValid (keyboard_get_key s).1)
unfolding keyboard_get_key
keyboard_get_key_lem s v = elim (Bool-cases (s.tail == s.head)) [
  | inl e ↦ inl (no_wait s e, rw e refl)
  | inr e ↦ inr (
      let ne : s.tail ≢ s.head = λ same. ground (arith, ==_iff s.tail s.head) in
      let taken = take_key s v ne in
      let left = rest_waiting s v ne in
      let keys : All IsKey (
          get_or s.key_buffer s.tail 0 ∷ window (waiting s - 1) ((s.tail + 1) % 256) s.key_buffer) =
        subst (All IsKey) taken v.keys in
      rw e (
        get_or s.key_buffer s.tail 0,
        window (waiting s - 1) ((s.tail + 1) % 256) s.key_buffer,
        taken,
        keys.0,
        refl,
        rw left refl,
        record {
          size = v.size;
          head_bound = v.head_bound;
          tail_bound = omega arith;
          keys = rw left keys.1;
        },
      ))
]
