-- ===== src/Serial/Ring.antt =====
-- CyclicBufferPush and CyclicBufferPop in a memory that holds other things too.
use rtk.Common.{
  ℕ, zero, suc, ◌+◌, ◌-◌, ◌≤◌, ◌<◌, ◌≡◌, ◌≢◌, ◌⊎◌, ◌∙◌, refl, sym, ap, false, List, [], ◌∷◌, ◌++◌,
  arith, ◌==◌, if◌then◌else◌, Bool-cases, inl, inr, length, ltb,
}
use rtk.Bytes.{Bytes, memcpy}
use rtk.Serial.{Buffered, cyclic_buffer_push, cyclic_buffer_pop}
use rtk.Serial.Laws.{IsBuffer, contents, window, window-length, push_appends, pop_takes_first}

-- A byte behind the others, if there are fewer than `size`.
abbrev pub added : (size : ℕ) → List ℕ → ℕ → List ℕ
added size xs c = if length xs == size then xs else xs ++ c ∷ []

-- Another buffer's place in memory.
abbrev pub SameBytes : (e size : ℕ) → Bytes → Bytes → Type 0
SameBytes e size m n = (a : ℕ) → e ≤ a → a < e + size → n a ≡ m a

pub window-same :
    (m n : Bytes) (e size s k : ℕ)
    → s < size
    → SameBytes e size m n
    → window n e size s k ≡ window m e size s k
unfolding window
window-same m n e size s zero lt same = refl
window-same m n e size s (suc k) lt same = ground (
  arith,
  same (e + s),
  window-same m n e size (if ltb (s + 1) size then s + 1 else s + 1 - size) k (ground arith) same,
)

pub contents-length : (s : Buffered) → length (contents s) ≡ s.buffer.num_els
contents-length s =
    window-length s.bytes s.buffer.elements s.buffer.size s.buffer.start s.buffer.num_els

-- What CyclicBufferPush does, full or not.
pub record Pushed (c : ℕ) (s s' : Buffered) : Type 0 where
  pub holds : contents s' ≡ added s.buffer.size (contents s) c
  pub buffer : IsBuffer s'.buffer
  pub place : s'.buffer.elements ≡ s.buffer.elements
  pub size : s'.buffer.size ≡ s.buffer.size
  pub rest :
      (a : ℕ)
      → (a < s.buffer.elements) ⊎ (s.buffer.elements + s.buffer.size ≤ a)
      → s'.bytes a ≡ s.bytes a

pub push_lem :
    (source : ℕ) (s : Buffered)
    → IsBuffer s.buffer
    → Pushed (s.bytes source) s (cyclic_buffer_push source s).1
unfolding cyclic_buffer_push memcpy
push_lem source s h = elim (Bool-cases (s.buffer.num_els == s.buffer.size)) [
  | inl full ↦ rw full (record {
    holds = ground (arith, contents-length s);
    buffer = h;
    place = refl;
    size = refl;
    rest = λ a out. refl;
  })
  | inr room ↦
      let less : s.buffer.num_els < s.buffer.size = ground (arith, h.fits) in
      let p = push_appends source s h less in
      record {
        holds = p.1 ∙ ground (arith, contents-length s);
        buffer = p.2;
        place = rw room refl;
        size = rw room refl;
        rest = λ a out. rw (room, h.bytewise) (grind (arith, h.starts));
      }
]

-- What CyclicBufferPop does to a buffer that holds `x ∷ xs`.
pub record Popped (dest x : ℕ) (xs : List ℕ) (s s' : Buffered) : Type 0 where
  pub value : s'.bytes dest ≡ x
  pub holds : contents s' ≡ xs
  pub buffer : IsBuffer s'.buffer
  pub place : s'.buffer.elements ≡ s.buffer.elements
  pub size : s'.buffer.size ≡ s.buffer.size
  pub rest : (a : ℕ) → a ≢ dest → s'.bytes a ≡ s.bytes a

pub pop_lem :
    (dest x : ℕ) (xs : List ℕ) (s : Buffered)
    → IsBuffer s.buffer
    → (dest < s.buffer.elements) ⊎ (s.buffer.elements + s.buffer.size ≤ dest)
    → contents s ≡ x ∷ xs
    → Popped dest x xs s (cyclic_buffer_pop dest s).1
unfolding cyclic_buffer_pop memcpy
pop_lem dest x xs s h outside here =
    let p = pop_takes_first dest x xs s h outside here in
    let held : s.buffer.num_els ≡ suc (length xs) = sym (contents-length s) ∙ ap length here in
    let test : (s.buffer.num_els == 0) ≡ false = ground arith in
    record {
      value = p.1;
      holds = p.2;
      buffer = p.3;
      place = rw test refl;
      size = rw test refl;
      rest = λ a ne. rw (test, h.bytewise) (ground arith);
    }
