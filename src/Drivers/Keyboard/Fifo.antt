-- ===== src/Drivers/Keyboard/Fifo.antt =====
-- The FIFO of the keyboard is a queue of at most 127 characters.
use benmosh_os.Prelude.{
  ℕ, zero, suc, ◌+◌, ◌-◌, ◌%◌, ◌<◌, ◌≤◌, ◌≡◌, ◌≢◌, refl, sym, ap, ◌∙◌, List, [], ◌∷◌, ◌++◌, arith,
  ltb, ◌==◌, ◌||◌, if◌then◌else◌, update, length, Bool-cases, inl, inr, true, false,
}
use benmosh_os.Drivers.Keyboard.{Keyboard, kbd_getchar, push_char}

pub record IsValid (k : Keyboard) : Type 0 where
  pub head_lt : k.kbd_head < 128
  pub tail_lt : k.kbd_tail < 128

-- `n` entries from `t` on, around the end of the array.
abbrev pub window : (ℕ → ℕ) → ℕ → ℕ → List ℕ
window f t zero = []
window f t (suc n) = f t ∷ window f ((t + 1) % 128) n

-- How far the head is ahead of the tail.
pub distance : ℕ → ℕ → ℕ
distance t h = (h + 128 - t) % 128

-- The characters that wait, oldest first.
unfoldable pub queue : Keyboard → List ℕ
queue k = window k.kbd_fifo k.kbd_tail (distance k.kbd_tail k.kbd_head)

-- A queue with room for 127 takes a character, a full one drops it.
pub offer : ℕ → List ℕ → List ℕ
offer c q = if c == 0 then q else if ltb (length q) 127 then q ++ c ∷ [] else q

abbrev pub front : List ℕ → ℕ
front [] = 0
front (c ∷ cs) = c

abbrev pub rest : List ℕ → List ℕ
rest [] = []
rest (c ∷ cs) = cs

length-window : (f : ℕ → ℕ) (t n : ℕ) → length (window f t n) ≡ n
length-window f t zero = refl
length-window f t (suc n) = ap suc (length-window f ((t + 1) % 128) n)

window-snoc :
    (f : ℕ → ℕ) (t n : ℕ) → t < 128 → window f t (suc n) ≡ window f t n ++ f ((t + n) % 128) ∷ []
window-snoc f t zero b = ap (λ i. f i ∷ []) (omega (arith, b))
window-snoc f t (suc n) b =
    ap (λ xs. f t ∷ xs)
      (window-snoc f ((t + 1) % 128) n (omega arith)
        ∙ ap (λ i. window f ((t + 1) % 128) n ++ f i ∷ []) (omega (arith, b)))

window-update :
    (f : ℕ → ℕ) (t n h v : ℕ)
    → t < 128
    → h < 128
    → n ≤ distance t h
    → window (update f h v) t n ≡ window f t n
unfolding distance
window-update f t zero h v a b c = refl
window-update f t (suc n) h v a b c =
    let i = window-update f ((t + 1) % 128) n h v (omega arith) b (omega (arith, a, b, c)) in
    ground (arith, a, b, c, i)

distance-pop :
    (t h : ℕ) → t < 128 → h < 128 → h ≢ t → distance t h ≡ suc (distance ((t + 1) % 128) h)
unfolding distance
distance-pop t h a b n = omega (arith, a, b, n)

distance-push :
    (t h : ℕ)
    → t < 128
    → h < 128
    → (h + 1) % 128 ≢ t
    → (distance t ((h + 1) % 128) ≡ suc (distance t h))
      × (distance t h < 127)
      × ((t + distance t h) % 128 ≡ h)
unfolding distance
distance-push t h a b n = (omega (arith, a, b, n), omega (arith, a, b, n), omega (arith, a, b, n))

distance-full : (t h : ℕ) → t < 128 → h < 128 → (h + 1) % 128 ≡ t → distance t h ≡ 127
unfolding distance
distance-full t h a b e = omega (arith, a, b, e)

distance_self : (t : ℕ) → distance t t ≡ 0
unfolding distance
distance_self t = omega arith

queue-empty : (k : Keyboard) → (k.kbd_head == k.kbd_tail) ≡ true → queue k ≡ []
unfolding queue
queue-empty k e =
    ap (window k.kbd_fifo k.kbd_tail)
      (ap (distance k.kbd_tail) (ground (arith, e)) ∙ distance_self k.kbd_tail)

kbd_getchar-empty : (k : Keyboard) → (k.kbd_head == k.kbd_tail) ≡ true → kbd_getchar k ≡ (0, k)
unfolding kbd_getchar
kbd_getchar-empty k e = rw e

popped : Keyboard → Keyboard
popped k = record k { kbd_tail = (k.kbd_tail + 1) % 128 }

kbd_getchar-pop :
    (k : Keyboard)
    → (k.kbd_head == k.kbd_tail) ≡ false
    → kbd_getchar k ≡ (k.kbd_fifo (k.kbd_tail), popped k)
unfolding kbd_getchar popped
kbd_getchar-pop k e = rw e

queue-pop :
    (k : Keyboard)
    → IsValid k
    → (k.kbd_head == k.kbd_tail) ≡ false
    → queue k ≡ k.kbd_fifo (k.kbd_tail) ∷ queue (popped k)
unfolding queue popped
queue-pop k v e =
    ap (window k.kbd_fifo k.kbd_tail)
      (distance-pop k.kbd_tail k.kbd_head v.tail_lt v.head_lt (ground (arith, e)))

-- `kbd_getchar` takes the oldest character, and gives 0 if there is none.
pub kbd_getchar-queue :
    (k : Keyboard)
    → IsValid k
    → ((kbd_getchar k).0 ≡ front (queue k)) × (queue ((kbd_getchar k).1) ≡ rest (queue k))
kbd_getchar-queue k v = elim (Bool-cases (k.kbd_head == k.kbd_tail)) [
  | inl e ↦
      (let a = kbd_getchar-empty k e in
        let b = queue-empty k e in
        (ap (λ r. r.0) a ∙ sym (ap front b), ap (λ r. queue (r.1)) a ∙ b ∙ sym (ap rest b)))
  | inr e ↦
      (let a = kbd_getchar-pop k e in
        let b = queue-pop k v e in
        (ap (λ r. r.0) a ∙ sym (ap front b), ap (λ r. queue (r.1)) a ∙ sym (ap rest b)))
]

pushed : ℕ → Keyboard → Keyboard
pushed c k = record k {
  kbd_fifo = update k.kbd_fifo k.kbd_head c;
  kbd_head = (k.kbd_head + 1) % 128;
}

push_char-room :
    (k : Keyboard) (c : ℕ)
    → (c == 0) ≡ false
    → ((k.kbd_head + 1) % 128 == k.kbd_tail) ≡ false
    → push_char c k ≡ pushed c k
unfolding push_char pushed
push_char-room k c z e = rw (z, e)

push_char-full :
    (k : Keyboard) (c : ℕ)
    → ((c == 0) || ((k.kbd_head + 1) % 128 == k.kbd_tail)) ≡ true
    → push_char c k ≡ k
unfolding push_char
push_char-full k c h = ground (arith, h)

queue-push :
    (k : Keyboard) (c : ℕ)
    → IsValid k
    → (k.kbd_head + 1) % 128 ≢ k.kbd_tail
    → queue (pushed c k) ≡ queue k ++ c ∷ []
unfolding queue pushed
queue-push k c v n =
    let f = update k.kbd_fifo k.kbd_head c in
    let t = k.kbd_tail in
    let d = distance t (k.kbd_head) in
    let (one_more, room, end_is_head) = distance-push t k.kbd_head v.tail_lt v.head_lt n in
    ap (window f t) one_more
    ∙ window-snoc f t d v.tail_lt
    ∙ ap (λ q. q ++ f ((t + d) % 128) ∷ [])
        (window-update k.kbd_fifo t d k.kbd_head c v.tail_lt v.head_lt (omega arith))
    ∙ ap (λ i. window k.kbd_fifo t d ++ i ∷ []) (ground (arith, end_is_head))

length-queue : (k : Keyboard) → length (queue k) ≡ distance k.kbd_tail k.kbd_head
unfolding queue
length-queue k = length-window k.kbd_fifo k.kbd_tail (distance k.kbd_tail k.kbd_head)

-- The end of the handler offers its character to the queue.
pub push_char-queue : (k : Keyboard) (c : ℕ) → IsValid k → queue (push_char c k) ≡ offer c (queue k)
unfolding offer
push_char-queue k c v = elim (Bool-cases (c == 0)) [
  | inl z ↦ ap queue (push_char-full k c (ground (arith, z))) ∙ ground (arith, z)
  | inr z ↦ elim (Bool-cases ((k.kbd_head + 1) % 128 == k.kbd_tail)) [
    | inl e ↦
        (let full = distance-full k.kbd_tail k.kbd_head v.tail_lt v.head_lt (ground (arith, e)) in
          ap queue (push_char-full k c (ground (arith, e)))
          ∙ ground (arith, z, full, length-queue k))
    | inr e ↦
        (let (_, room, _) =
            distance-push k.kbd_tail k.kbd_head v.tail_lt v.head_lt (ground (arith, e)) in
          ap queue (push_char-room k c z e)
          ∙ queue-push k c v (ground (arith, e))
          ∙ ground (arith, z, room, length-queue k))
  ]
]
