-- ===== src/Serial/Serving.antt =====
-- Each operation of usr/serialserver.c on one of its buffers, seen on the line.
use rtk.Common.{ℕ, ◌≤◌, ◌≡◌, ◌∙◌, ap, List, ◌∷◌, arith, inr}
use rtk.Queue.{update}
use rtk.Serial.{cyclic_buffer_push, cyclic_buffer_pop}
use rtk.Serial.Laws.{contents}
use rtk.Serial.Ring.{added, window-same, push_lem, pop_lem}
use rtk.Serial.Server.{
  SerialServer, transmit_side, receive_side, set_transmit, set_receive, recv_at,
}
use rtk.Serial.Line.{line_of, IsServer, outgoing-poke, incoming-poke}

module _ {t r : ℕ} {s : SerialServer} (h : IsServer t r s) where
  -- The byte `c` at the address `a`, outside the buffers.
  abbrev poked : ℕ → ℕ → SerialServer
  poked a c = record s { bytes = update s.bytes a c }

  abbrev pub pushed_out : ℕ → ℕ → SerialServer
  pushed_out a c = set_transmit (cyclic_buffer_push a (transmit_side (poked a c))).1 (poked a c)

  abbrev pushed_in : ℕ → ℕ → SerialServer
  pushed_in a c = set_receive (cyclic_buffer_push a (receive_side (poked a c))).1 (poked a c)

  pub push_out :
      (a c : ℕ)
      → recv_at ≤ a
      → IsServer t r (pushed_out a c)
        × (line_of (pushed_out a c)
            ≡ record (line_of s) { outgoing = added t (line_of s).outgoing c })
  push_out a c le =
      let p = push_lem a (transmit_side (poked a c)) h.outgoing in
      let b = s.receive_buffer in
      let other_same : contents (receive_side (pushed_out a c)) ≡ contents (receive_side s) =
        window-same s.bytes (pushed_out a c).bytes b.elements b.size b.start b.num_els
          h.incoming.starts
          (λ x lo hi.
            p.rest x (ground (arith, h.out_size, h.in_size, h.apart))
            ∙ ground (arith, h.in_below, h.in_size)) in
      let own_same = outgoing-poke h (update s.bytes a c) (λ x lt. ground arith) in
      let value : update s.bytes a c a ≡ c = ground arith in
      let own : contents (transmit_side (pushed_out a c)) ≡ added t (contents (transmit_side s)) c =
        p.holds
        ∙ ap (λ n. added n (contents (transmit_side (poked a c))) (update s.bytes a c a)) h.out_size
        ∙ ap (λ xs. added t xs (update s.bytes a c a)) own_same
        ∙ ap (added t (contents (transmit_side s))) value in
      (
        record {
          outgoing = p.buffer;
          incoming = h.incoming;
          out_size = p.size ∙ h.out_size;
          in_size = h.in_size;
          out_below = rw p.place h.out_below;
          in_below = h.in_below;
          apart = rw p.place h.apart;
        },
        λ j. record {
          outgoing = own j;
          incoming = other_same j;
          reading = s.awaiting_receive;
          sending = s.awaiting_transmit;
        },
      )

  pub push_in :
      (a c : ℕ)
      → recv_at ≤ a
      → IsServer t r (pushed_in a c)
        × (line_of (pushed_in a c)
            ≡ record (line_of s) { incoming = added r (line_of s).incoming c })
  push_in a c le =
      let p = push_lem a (receive_side (poked a c)) h.incoming in
      let b = s.transmit_buffer in
      let other_same : contents (transmit_side (pushed_in a c)) ≡ contents (transmit_side s) =
        window-same s.bytes (pushed_in a c).bytes b.elements b.size b.start b.num_els
          h.outgoing.starts
          (λ x lo hi.
            p.rest x (ground (arith, h.out_size, h.in_size, h.apart))
            ∙ ground (arith, h.out_below, h.out_size)) in
      let own_same = incoming-poke h (update s.bytes a c) (λ x lt. ground arith) in
      let value : update s.bytes a c a ≡ c = ground arith in
      let own : contents (receive_side (pushed_in a c)) ≡ added r (contents (receive_side s)) c =
        p.holds
        ∙ ap (λ n. added n (contents (receive_side (poked a c))) (update s.bytes a c a)) h.in_size
        ∙ ap (λ xs. added r xs (update s.bytes a c a)) own_same
        ∙ ap (added r (contents (receive_side s))) value in
      (
        record {
          outgoing = h.outgoing;
          incoming = p.buffer;
          out_size = h.out_size;
          in_size = p.size ∙ h.in_size;
          out_below = h.out_below;
          in_below = rw p.place h.in_below;
          apart = rw p.place h.apart;
        },
        λ j. record {
          outgoing = other_same j;
          incoming = own j;
          reading = s.awaiting_receive;
          sending = s.awaiting_transmit;
        },
      )

  abbrev popped_out : ℕ → SerialServer
  popped_out a = set_transmit (cyclic_buffer_pop a (transmit_side s)).1 s

  abbrev popped_in : ℕ → SerialServer
  popped_in a = set_receive (cyclic_buffer_pop a (receive_side s)).1 s

  pub pop_out :
      (a x : ℕ) (xs : List ℕ)
      → recv_at ≤ a
      → contents (transmit_side s) ≡ x ∷ xs
      → IsServer t r (popped_out a)
        × (line_of (popped_out a) ≡ record (line_of s) { outgoing = xs })
        × ((popped_out a).bytes a ≡ x)
  pop_out a x xs le e =
      let p =
        pop_lem a x xs (transmit_side s) h.outgoing (inr (omega (arith, h.out_below, h.out_size)))
          e in
      let other_same = incoming-poke h (popped_out a).bytes (λ z lt. p.rest z (ground arith)) in
      (
        record {
          outgoing = p.buffer;
          incoming = h.incoming;
          out_size = p.size ∙ h.out_size;
          in_size = h.in_size;
          out_below = rw p.place h.out_below;
          in_below = h.in_below;
          apart = rw p.place h.apart;
        },
        λ j. record {
          outgoing = p.holds j;
          incoming = other_same j;
          reading = s.awaiting_receive;
          sending = s.awaiting_transmit;
        },
        p.value,
      )

  pub pop_in :
      (a x : ℕ) (xs : List ℕ)
      → recv_at ≤ a
      → contents (receive_side s) ≡ x ∷ xs
      → IsServer t r (popped_in a)
        × (line_of (popped_in a) ≡ record (line_of s) { incoming = xs })
        × ((popped_in a).bytes a ≡ x)
  pop_in a x xs le e =
      let p =
        pop_lem a x xs (receive_side s) h.incoming (inr (omega (arith, h.in_below, h.in_size))) e in
      let other_same = outgoing-poke h (popped_in a).bytes (λ z lt. p.rest z (ground arith)) in
      (
        record {
          outgoing = h.outgoing;
          incoming = p.buffer;
          out_size = h.out_size;
          in_size = p.size ∙ h.in_size;
          out_below = h.out_below;
          in_below = rw p.place h.in_below;
          apart = rw p.place h.apart;
        },
        λ j. record {
          outgoing = other_same j;
          incoming = p.holds j;
          reading = s.awaiting_receive;
          sending = s.awaiting_transmit;
        },
        p.value,
      )
