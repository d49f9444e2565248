-- ===== src/Serial/Laws.antt =====
-- A cyclic buffer of bytes is a bounded queue.
use rtk.Common.{
  ℕ, zero, suc, ◌+◌, ◌-◌, ◌%◌, ◌<◌, ◌≤◌, ◌≡◌, ◌≢◌, ◌⊎◌, ◌∙◌, refl, ap, false, List, [], ◌∷◌, ◌++◌,
  arith, ltb, ◌==◌, if◌then◌else◌, Bool-cases, ==-refl, inl, inr, length,
}
use rtk.Common.Int.{pos}
use rtk.Queue.{update}
use rtk.Bytes.{Bytes, memcpy}
use rtk.Serial.{CyclicBuffer, Buffered, cyclic_buffer_push, cyclic_buffer_pop}
use native.Mathlib.Nat.{mod-eq_of_lt, mod-eq-sub-mod}

-- The place after `s` in a ring of `size` places, and the place `j` steps on, for `j` at most `size`.
abbrev after : (size s : ℕ) → ℕ
after size s = if suc s == size then 0 else suc s

abbrev wrap : (size s j : ℕ) → ℕ
wrap size s j = if ltb (s + j) size then s + j else s + j - size

-- The bytes at `n` places of the ring, from the place `s` on.
unfoldable pub window : Bytes → (elements size s n : ℕ) → List ℕ
window m elements size s zero = []
window m elements size s (suc n) = m (elements + s) ∷ window m elements size (after size s) n

-- A buffer of bytes with its indices in range.
pub record IsBuffer (b : CyclicBuffer) : Type 0 where
  pub bytewise : b.data_size ≡ 1
  pub starts : b.start < b.size
  pub fits : b.num_els ≤ b.size

-- What the buffer holds, the oldest first.
abbrev pub contents : Buffered → List ℕ
contents s = window s.bytes s.buffer.elements s.buffer.size s.buffer.start s.buffer.num_els

wrap-mod : (size s j : ℕ) → s < size → j ≤ size → (s + j) % size ≡ wrap size s j
wrap-mod size s j lt le = elim (Bool-cases (ltb (s + j) size)) [
  | inl e ↦ rw e (mod-eq_of_lt (ground arith))
  | inr e ↦ rw e (mod-eq-sub-mod (ground arith) ∙ mod-eq_of_lt (ground arith))
]

pub window-length : (m : Bytes) (e size s n : ℕ) → length (window m e size s n) ≡ n
unfolding window
window-length m e size s zero = refl
window-length m e size s (suc n) = ground (arith, window-length m e size (after size s) n)

pub window-frame :
    (m : Bytes) (e size s n p x : ℕ)
    → s < size
    → n ≤ size
    → ((i : ℕ) → i < n → p ≢ e + wrap size s i)
    → window (update m p x) e size s n ≡ window m e size s n
unfolding window
window-frame m e size s zero p x lt le out = refl
window-frame m e size s (suc n) p x lt le out = ground (
  arith,
  out 0,
  window-frame m e size (after size s) n p x (ground arith) (omega arith)
      (λ i small. ground (arith, out (suc i))),
)

window-snoc :
    (m : Bytes) (e size s n : ℕ)
    → s < size
    → n < size
    → window m e size s (suc n) ≡ window m e size s n ++ m (e + wrap size s n) ∷ []
unfolding window
window-snoc m e size s zero lt le = ground arith
window-snoc m e size s (suc n) lt le =
    ground (arith, window-snoc m e size (after size s) n (ground arith) (omega arith))

pushed_window :
    (m : Bytes) (e size s n x : ℕ)
    → s < size
    → n < size
    → window (update m (e + wrap size s n) x) e size s (n + 1) ≡ window m e size s n ++ x ∷ []
pushed_window m e size s n x lt le =
    let p = e + wrap size s n in
    let one : n + 1 ≡ suc n = omega arith in
    let last = window-snoc (update m p x) e size s n lt le in
    let before = window-frame m e size s n p x lt (omega arith) (λ i small. ground arith) in
    ap (window (update m p x) e size s) one ∙ last ∙ rw (before, ==-refl p)

popped_window :
    (m : Bytes) (e size s n x : ℕ) (xs : List ℕ)
    → window m e size s n ≡ x ∷ xs
    → (n ≢ 0) × (m (e + s) ≡ x) × (window m e size (after size s) (n - 1) ≡ xs)
unfolding window
popped_window m e size s zero x xs h = absurd (ground arith)
popped_window m e size s (suc n) x xs h =
    let one : suc n - 1 ≡ n = omega arith in
    (omega arith, ground arith, ap (window m e size (after size s)) (one) ∙ ground arith)

-- CyclicBufferPush on a buffer of bytes that is not full: it succeeds, and the byte at the source
-- stands behind what the buffer held; the buffer's indices stay in range.
pub push_appends :
    (source : ℕ) (s : Buffered)
    → IsBuffer s.buffer
    → s.buffer.num_els < s.buffer.size
    → let pushed = (cyclic_buffer_push source s).1 in
      ((cyclic_buffer_push source s).0 ≡ pos 0)
      × (contents pushed ≡ contents s ++ s.bytes source ∷ [])
      × IsBuffer pushed.buffer
unfolding cyclic_buffer_push memcpy
push_appends source s h room =
    let b = s.buffer in
    let test : (b.num_els == b.size) ≡ false = ground arith in
    let place : (b.start + b.num_els) % b.size ≡ wrap b.size b.start b.num_els =
      wrap-mod b.size b.start b.num_els h.starts h.fits in
    (
      rw test refl,
      rw (test, h.bytewise, place)
          (pushed_window s.bytes b.elements b.size b.start b.num_els (s.bytes source) h.starts
            room),
      rw test (record { bytewise = h.bytewise; starts = h.starts; fits = ground arith }),
    )

-- CyclicBufferPop on a buffer of bytes that holds `x ∷ xs`, to an address outside the buffer: it
-- succeeds, stores `x` there, and leaves `xs` in the buffer, whose indices stay in range.
pub pop_takes_first :
    (dest x : ℕ) (xs : List ℕ) (s : Buffered)
    → IsBuffer s.buffer
    → (dest < s.buffer.elements) ⊎ (s.buffer.elements + s.buffer.size ≤ dest)
    → contents s ≡ x ∷ xs
    → let popped = (cyclic_buffer_pop dest s).1 in
      ((cyclic_buffer_pop dest s).0 ≡ pos 0)
      × (popped.bytes dest ≡ x)
      × (contents popped ≡ xs)
      × IsBuffer popped.buffer
unfolding cyclic_buffer_pop memcpy
pop_takes_first dest x xs s h outside here =
    let b = s.buffer in
    let front = popped_window s.bytes b.elements b.size b.start b.num_els x xs here in
    let test : (b.num_els == 0) ≡ false = ground (arith, front.0) in
    let next : (b.start + 1) % b.size ≡ after b.size b.start =
      wrap-mod b.size b.start 1 h.starts (ground arith) ∙ ground arith in
    let same =
      window-frame s.bytes b.elements b.size (after b.size b.start) (b.num_els - 1) dest
        (s.bytes (b.elements + b.start)) (ground arith) (omega arith) (λ i small. ground arith) in
    (
      rw test refl,
      rw (test, h.bytewise) (rw (==-refl dest) front.1),
      rw (test, h.bytewise, next) (same ∙ front.2),
      rw (test, next)
          (record { bytewise = h.bytewise; starts = ground arith; fits = ground arith }),
    )
