-- ===== src/Serial/Line.antt =====
-- What the server of usr/serialserver.c is to its clients: a line with two waiting lists of bytes.
use rtk.Common.{
  ℕ, ◌+◌, ◌<◌, ◌≤◌, ◌≡◌, ◌⊎◌, true, false, Bool, List, [], ◌∷◌, ◌++◌, ◌&&◌, arith, ◌==◌,
  if◌then◌else◌, length,
}
use rtk.Queue.{update}
use rtk.Bytes.{Bytes}
use rtk.Serial.Laws.{IsBuffer, contents}
use rtk.Serial.Ring.{added, window-same}
use rtk.Serial.Server.{
  SerialServer, SerialRequest, SerialEffect, reply_courier, reply_transmit, reply_receive,
  clear_receive, clear_transmit, write_uart, transmit_side, receive_side, ss_notifier, ss_receive,
  ss_transmit, other, recv_at,
}

-- `outgoing` waits for the UART, `incoming` for a reader; `reading` and `sending` are
-- awaiting_receive and awaiting_transmit.
pub record Line : Type 0 where
  pub outgoing : List ℕ
  pub incoming : List ℕ
  pub reading : Bool
  pub sending : Bool

abbrev pub line_of : SerialServer → Line
line_of s = record {
  outgoing = contents (transmit_side s);
  incoming = contents (receive_side s);
  reading = s.awaiting_receive;
  sending = s.awaiting_transmit;
}

-- The first waiting byte goes to the UART.
abbrev pub pop_from : List ℕ → Line → List SerialEffect × Line
pop_from [] l = ([], l)
pop_from (c ∷ cs) l = (write_uart c ∷ [], record l { outgoing = cs })

-- A reader gets the first byte, or waits.
abbrev pub read_from : List ℕ → Line → List SerialEffect × Line
read_from [] l = ([], record l { reading = true })
read_from (c ∷ cs) l = (reply_receive c ∷ [], record l { incoming = cs })

-- The UART is free: it gets the next byte; a writer that was held up may go on.
abbrev pub sent_from : (t : ℕ) → List ℕ → Line → List SerialEffect × Line
sent_from t [] l = (clear_transmit ∷ [], record l { sending = false })
sent_from t (c ∷ cs) l = (
  clear_transmit ∷ write_uart c ∷ (if length (c ∷ cs) == t then reply_transmit ∷ [] else []),
  record l { sending = false; outgoing = cs },
)

-- `t` and `r` bytes can wait.
module _ (t r : ℕ) where
  -- A byte came: a waiting reader gets it, else it waits, or is lost when `r` bytes wait.
  abbrev pub line_received : ℕ → Line → List SerialEffect × Line
  line_received c l =
      if l.reading
      then (clear_receive ∷ reply_receive c ∷ [], record l { reading = false })
      else (clear_receive ∷ [], record l { incoming = added r l.incoming c })

  abbrev pub line_step : SerialRequest → Line → List SerialEffect × Line
  line_step (ss_notifier received c transmitted) l =
      let taken = if received then line_received c l else ([], l) in
      let sent =
        if taken.1.sending && transmitted
        then sent_from t taken.1.outgoing taken.1
        else ([], taken.1) in
      (reply_courier ∷ taken.0 ++ sent.0, sent.1)
  line_step ss_receive l = read_from l.incoming l
  line_step (ss_transmit ch) l =
      let l2 = record l { outgoing = added t l.outgoing ch } in
      let answer = if length l2.outgoing == t then [] else reply_transmit ∷ [] in
      let sent = pop_from l2.outgoing (record l2 { sending = true }) in
      if l.sending then (answer, l2) else (answer ++ sent.0, sent.1)
  line_step other l = ([], l)

  -- A server with room for `t` and `r` bytes, whose buffers are in order and do not overlap each
  -- other or its other variables.
  pub record IsServer (s : SerialServer) : Type 0 where
    pub outgoing : IsBuffer s.transmit_buffer
    pub incoming : IsBuffer s.receive_buffer
    pub out_size : s.transmit_buffer.size ≡ t
    pub in_size : s.receive_buffer.size ≡ r
    pub out_below : s.transmit_buffer.elements + t ≤ recv_at
    pub in_below : s.receive_buffer.elements + r ≤ recv_at
    pub apart :
        (s.transmit_buffer.elements + t ≤ s.receive_buffer.elements)
        ⊎ (s.receive_buffer.elements + r ≤ s.transmit_buffer.elements)

  -- One round gives the effects `es` and the line `l`.
  pub record Serves (out : List SerialEffect × SerialServer) (want : List SerialEffect × Line)
      : Type 0 where
    pub effects : out.0 ≡ want.0
    pub line : line_of out.1 ≡ want.1
    pub server : IsServer out.1

-- Bytes outside both buffers do not matter.
module _ {t r : ℕ} {s : SerialServer} (h : IsServer t r s) where
  pub poke : (a x : ℕ) → recv_at ≤ a → IsServer t r (record s { bytes = update s.bytes a x })
  poke a x le = record {
    outgoing = h.outgoing;
    incoming = h.incoming;
    out_size = h.out_size;
    in_size = h.in_size;
    out_below = h.out_below;
    in_below = h.in_below;
    apart = h.apart;
  }

  pub outgoing-poke :
      (n : Bytes)
      → ((a : ℕ) → a < recv_at → n a ≡ s.bytes a)
      → contents (record { buffer = s.transmit_buffer; bytes = n }) ≡ contents (transmit_side s)
  outgoing-poke n same =
      let b = s.transmit_buffer in
      window-same s.bytes n b.elements b.size b.start b.num_els h.outgoing.starts
        (λ a le lt. same a (omega (arith, h.out_below, h.out_size)))

  pub incoming-poke :
      (n : Bytes)
      → ((a : ℕ) → a < recv_at → n a ≡ s.bytes a)
      → contents (record { buffer = s.receive_buffer; bytes = n }) ≡ contents (receive_side s)
  incoming-poke n same =
      let b = s.receive_buffer in
      window-same s.bytes n b.elements b.size b.start b.num_els h.incoming.starts
        (λ a le lt. same a (omega (arith, h.in_below, h.in_size)))
