-- ===== src/Serial/Tests.antt =====
-- The theorems about cyclic buffers at a buffer of four bytes, at address 0, that wraps around.
use rtk.Common.{false, ◌+◌, ◌≡◌, refl, [], ◌∷◌, ◌++◌, arith, List, inl, true}
use rtk.Serial.{Buffered}
use rtk.Serial.Server.{
  SerialServer, SerialRequest, serial_server, ss_transmit, ss_notifier, ss_receive,
}
use rtk.Serial.Line.{line_of, line_step, IsServer, Serves}
use rtk.Serial.Refines.{serial_server-Serves}
use rtk.Serial.Order.{written, serve, delivered, all_asked, all_heard, served_in_order}
use rtk.Serial.Laws.{IsBuffer, window, contents}

abbrev small : Buffered
small = record {
  buffer = record { size = 4; data_size = 1; elements = 0; start = 3; num_els = 2 };
  bytes = λ a. a + 10;
}

small-IsBuffer : IsBuffer small.buffer
small-IsBuffer = record { bytewise = refl; starts = omega arith; fits = omega arith }

held : contents small ≡ 13 ∷ 10 ∷ []
unfolding window
held = refl

-- A server whose transmit buffer is that buffer.
abbrev server : SerialServer
server = record {
  transmit_buffer = small.buffer;
  receive_buffer = record { size = 4; data_size = 1; elements = 4; start = 0; num_els = 0 };
  bytes = small.bytes;
  awaiting_receive = false;
  awaiting_transmit = false;
}

server-IsServer : IsServer 4 4 server
server-IsServer = record {
  outgoing = small-IsBuffer;
  incoming = record { bytewise = refl; starts = omega arith; fits = omega arith };
  out_size = refl;
  in_size = refl;
  out_below = omega arith;
  in_below = omega arith;
  apart = inl (omega arith);
}

serial_server-Serves_example :
    Serves 4 4
      (serial_server (ss_transmit 65) server)
      (line_step 4 4 (ss_transmit 65) (line_of server))
serial_server-Serves_example = serial_server-Serves server-IsServer (ss_transmit 65)

-- A byte is sent, one comes in, and is read.
abbrev requests : List SerialRequest
requests = ss_transmit 65 ∷ ss_notifier true 66 true ∷ ss_receive ∷ []

served_in_order_example :
    let out = serve requests server in
    (written out.0 ++ (line_of out.1).outgoing
      ≡ (line_of server).outgoing ++ all_asked 4 4 requests (line_of server))
    × (delivered out.0 ++ (line_of out.1).incoming
        ≡ (line_of server).incoming ++ all_heard 4 4 requests (line_of server))
    × IsServer 4 4 out.1
served_in_order_example = served_in_order 4 4 requests server server-IsServer (λ e. absurd (cc e))

both_taken :
    (all_asked 4 4 requests (line_of server) ≡ 65 ∷ [])
    × (all_heard 4 4 requests (line_of server) ≡ 66 ∷ [])
unfolding all_asked all_heard window
both_taken = (refl, refl)
