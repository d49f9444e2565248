-- ===== src/Serial/Server.antt =====
-- The loop of usr/serialserver.c. The tests of the UART's flag register and the byte that it holds are arguments; a byte that is
-- written to its data register is an effect.
use rtk.Common.{ℕ, Bool, true, false, List, [], ◌∷◌, ◌++◌, ◌&&◌, if◌then◌else◌}
use rtk.Queue.{update}
use rtk.Bytes.{Bytes}
use rtk.Serial.{
  CyclicBuffer, Buffered, is_cyclic_buffer_full, is_cyclic_buffer_empty, cyclic_buffer_push,
  cyclic_buffer_pop,
}

-- Addresses of `recv`, `tmp`, `req.data` and the UART's data register; the buffers stand elsewhere.
abbrev pub recv_at : ℕ
recv_at = 1000

abbrev pub tmp_at : ℕ
tmp_at = 1001

abbrev pub req_data_at : ℕ
req_data_at = 1002

abbrev pub uart_at : ℕ
uart_at = 1003

-- `enum SerialRequestType` with the byte. Of SS_NOTIFIER: whether the receive register is full, the
-- byte in it, and whether the transmit register is empty.
pub data SerialRequest : Type 0 where
  ss_notifier : (received : Bool) (recv : ℕ) (transmitted : Bool) → SerialRequest
  ss_receive : SerialRequest
  ss_transmit : ℕ → SerialRequest
  other : SerialRequest

-- Replies, and what is written to the UART.
pub data SerialEffect : Type 0 where
  reply_courier reply_transmit : SerialEffect
  reply_receive : ℕ → SerialEffect
  clear_receive clear_transmit : SerialEffect
  write_uart : ℕ → SerialEffect

pub record SerialServer : Type 0 where
  pub transmit_buffer : CyclicBuffer
  pub receive_buffer : CyclicBuffer
  pub bytes : Bytes
  pub awaiting_receive : Bool
  pub awaiting_transmit : Bool

abbrev pub transmit_side : SerialServer → Buffered
transmit_side s = record { buffer = s.transmit_buffer; bytes = s.bytes }

abbrev pub receive_side : SerialServer → Buffered
receive_side s = record { buffer = s.receive_buffer; bytes = s.bytes }

abbrev pub set_transmit : Buffered → SerialServer → SerialServer
set_transmit b s = record s { transmit_buffer = b.buffer; bytes = b.bytes }

abbrev pub set_receive : Buffered → SerialServer → SerialServer
set_receive b s = record s { receive_buffer = b.buffer; bytes = b.bytes }

-- CyclicBufferPop to the data register: nothing is written when the buffer is empty.
unfoldable pub pop_to_uart : SerialServer → List SerialEffect × SerialServer
pop_to_uart s =
    let popped = (cyclic_buffer_pop uart_at (transmit_side s)).1 in
    if is_cyclic_buffer_empty s.transmit_buffer
    then ([], s)
    else (write_uart (popped.bytes uart_at) ∷ [], set_transmit popped s)

-- The first `if` of SS_NOTIFIER, when a byte has been received.
unfoldable pub take_received : ℕ → SerialServer → List SerialEffect × SerialServer
take_received recv s =
    let s1 = record s { bytes = update s.bytes recv_at recv } in
    if s.awaiting_receive
    then (clear_receive ∷ reply_receive recv ∷ [], record s1 { awaiting_receive = false })
    else (clear_receive ∷ [], set_receive (cyclic_buffer_push recv_at (receive_side s1)).1 s1)

-- The second `if`, when a byte has been transmitted.
unfoldable pub send_next : SerialServer → List SerialEffect × SerialServer
send_next s =
    let s1 = record s { awaiting_transmit = false } in
    let was_full = is_cyclic_buffer_full s.transmit_buffer in
    let sent = pop_to_uart s1 in
    if is_cyclic_buffer_empty s.transmit_buffer
    then (clear_transmit ∷ [], s1)
    else (clear_transmit ∷ sent.0 ++ (if was_full then reply_transmit ∷ [] else []), sent.1)

-- One round of the loop.
unfoldable pub serial_server : SerialRequest → SerialServer → List SerialEffect × SerialServer
serial_server (ss_notifier received recv transmitted) s =
    let taken = if received then take_received recv s else ([], s) in
    let sent =
      if taken.1.awaiting_transmit && transmitted then send_next taken.1 else ([], taken.1) in
    (reply_courier ∷ taken.0 ++ sent.0, sent.1)
serial_server ss_receive s =
    let popped = (cyclic_buffer_pop tmp_at (receive_side s)).1 in
    if is_cyclic_buffer_empty s.receive_buffer
    then ([], record s { awaiting_receive = true })
    else (reply_receive (popped.bytes tmp_at) ∷ [], set_receive popped s)
serial_server (ss_transmit ch) s =
    let s1 = record s { bytes = update s.bytes req_data_at ch } in
    let s2 = set_transmit (cyclic_buffer_push req_data_at (transmit_side s1)).1 s1 in
    let answer = if is_cyclic_buffer_full s2.transmit_buffer then [] else reply_transmit ∷ [] in
    let sent = pop_to_uart (record s2 { awaiting_transmit = true }) in
    if s.awaiting_transmit then (answer, s2) else (answer ++ sent.0, sent.1)
serial_server other s = ([], s)
