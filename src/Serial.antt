-- ===== src/Serial.antt =====
-- lib/cyclicbuffer.c and lib/cyclicbuffer.h. A buffer's elements stand in byte memory from `data` on.
pub mod Laws
pub mod Server
pub mod Ring
pub mod Line
pub mod Serving
pub mod Refines
pub mod Order
mod Tests
use rtk.Common.{ℕ, ◌+◌, ◌-◌, ◌%◌, Bool, true, false, ◌==◌, if◌then◌else◌}
use rtk.Common.Int.{ℤ, pos, negsuc}
use rtk.Bytes.{Bytes, memcpy}

-- `struct cyclic_buffer`
pub record CyclicBuffer : Type 0 where
  pub size : ℕ
  pub data_size : ℕ
  pub elements : ℕ
  pub start : ℕ
  pub num_els : ℕ

-- The buffer, and the memory that its elements stand in.
pub record Buffered : Type 0 where
  pub buffer : CyclicBuffer
  pub bytes : Bytes

abbrev pub cyclic_buffer_len : CyclicBuffer → ℕ
cyclic_buffer_len b = b.num_els

abbrev pub is_cyclic_buffer_full : CyclicBuffer → Bool
is_cyclic_buffer_full b = cyclic_buffer_len b == b.size

abbrev pub is_cyclic_buffer_empty : CyclicBuffer → Bool
is_cyclic_buffer_empty b = cyclic_buffer_len b == 0

-- `source` is the address of the value. Offsets count bytes, not elements, as in the source.
unfoldable pub cyclic_buffer_push : (source : ℕ) → Buffered → ℤ × Buffered
cyclic_buffer_push source s =
    let b = s.buffer in
    let insert_at = (b.start + b.num_els) % b.size in
    if is_cyclic_buffer_full b then (negsuc 0, s) else (
      pos 0,
      record {
        buffer = record b { num_els = b.num_els + 1 };
        bytes = memcpy (b.elements + insert_at) source b.data_size s.bytes;
      },
    )

unfoldable pub cyclic_buffer_pop : (dest : ℕ) → Buffered → ℤ × Buffered
cyclic_buffer_pop dest s =
    let b = s.buffer in
    if is_cyclic_buffer_empty b then (negsuc 0, s) else (
      pos 0,
      record {
        buffer = record b { start = (b.start + 1) % b.size; num_els = b.num_els - 1 };
        bytes = memcpy dest (b.elements + b.start) b.data_size s.bytes;
      },
    )
