-- ===== src/Serial/Refines.antt =====
-- The loop of usr/serialserver.c serves the line.
use rtk.Common.{
  ℕ, suc, ◌≡◌, ◌∙◌, refl, sym, ap, subst, subst₂, true, false, Bool, List, [], ◌∷◌, ◌++◌, ◌&&◌,
  arith, ◌==◌, if◌then◌else◌, inl, inr, length, ap₂, ◌⊎◌,
}
use rtk.Queue.{update}
use rtk.Serial.{Buffered, is_cyclic_buffer_full}
use rtk.Serial.Laws.{contents}
use rtk.Serial.Ring.{added, contents-length}
use rtk.Serial.Server.{
  SerialServer, SerialRequest, SerialEffect, reply_courier, reply_transmit, reply_receive,
  clear_transmit, write_uart, transmit_side, receive_side, pop_to_uart, take_received, send_next,
  serial_server, ss_notifier, ss_receive, ss_transmit, other, recv_at, tmp_at, req_data_at, uart_at,
}
use rtk.Serial.Line.{
  Line, line_of, line_received, line_step, pop_from, read_from, sent_from, IsServer, Serves, poke,
  outgoing-poke, incoming-poke,
}
use rtk.Serial.Serving.{pushed_out, push_out, push_in, pop_out, pop_in}

List-cases : (xs : List ℕ) → (xs ≡ []) ⊎ ((y : ℕ) × (ys : List ℕ) × (xs ≡ y ∷ ys))
List-cases [] = inl refl
List-cases (y ∷ ys) = inr (y, ys, refl)

empty_test : (b : Buffered) → contents b ≡ [] → (b.buffer.num_els == 0) ≡ true
empty_test b e =
    let held : b.buffer.num_els ≡ 0 = sym (contents-length b) ∙ ap length e in ground arith

full_test :
    (b : Buffered) (x : ℕ) (xs : List ℕ) → contents b ≡ x ∷ xs → (b.buffer.num_els == 0) ≡ false
full_test b x xs e =
    let held : b.buffer.num_els ≡ suc (length xs) = sym (contents-length b) ∙ ap length e in
    ground arith

module _ {t r : ℕ} where
  Serves-eq :
      {out out' : List SerialEffect × SerialServer} {want want' : List SerialEffect × Line}
      → out ≡ out'
      → want ≡ want'
      → Serves t r out' want'
      → Serves t r out want
  Serves-eq e f h = subst₂ (Serves t r) (sym e) (sym f) h

  Serves-if :
      (b : Bool) (x y : List SerialEffect × SerialServer) (x' y' : List SerialEffect × Line)
      → Serves t r x x'
      → Serves t r y y'
      → Serves t r (if b then x else y) (if b then x' else y')
  Serves-if true x y x' y' f g = f
  Serves-if false x y x' y' f g = g

  IsServer-flags :
      {s : SerialServer} (b d : Bool)
      → IsServer t r s
      → IsServer t r (record s { awaiting_receive = b; awaiting_transmit = d })
  IsServer-flags b d h = record {
    outgoing = h.outgoing;
    incoming = h.incoming;
    out_size = h.out_size;
    in_size = h.in_size;
    out_below = h.out_below;
    in_below = h.in_below;
    apart = h.apart;
  }

module _ {t r : ℕ} {s : SerialServer} (h : IsServer t r s) where
  read-Serves :
      Serves t r (serial_server ss_receive s) (read_from (contents (receive_side s)) (line_of s))
  unfolding serial_server
  read-Serves = elim (List-cases (contents (receive_side s))) [
    | inl e ↦
        Serves-eq (rw (empty_test (receive_side s) e) refl) (ap (λ xs. read_from xs (line_of s)) e)
          (record {
            effects = refl;
            line = refl;
            server = IsServer-flags true s.awaiting_transmit h;
          })
    | inr (x, xs, e) ↦
        let p = pop_in h tmp_at x xs (omega arith) e in
        Serves-eq (rw (full_test (receive_side s) x xs e) refl)
          (ap (λ xs. read_from xs (line_of s)) e)
          (record { effects = ap (λ c. reply_receive c ∷ []) p.2; line = p.1; server = p.0 })
  ]

  pop-Serves : Serves t r (pop_to_uart s) (pop_from (contents (transmit_side s)) (line_of s))
  unfolding pop_to_uart
  pop-Serves = elim (List-cases (contents (transmit_side s))) [
    | inl e ↦
        Serves-eq (rw (empty_test (transmit_side s) e) refl) (ap (λ xs. pop_from xs (line_of s)) e)
          (record { effects = refl; line = refl; server = h })
    | inr (x, xs, e) ↦
        let p = pop_out h uart_at x xs (omega arith) e in
        Serves-eq (rw (full_test (transmit_side s) x xs e) refl)
          (ap (λ xs. pop_from xs (line_of s)) e)
          (record { effects = ap (λ c. write_uart c ∷ []) p.2; line = p.1; server = p.0 })
  ]

  received-Serves : (c : ℕ) → Serves t r (take_received c s) (line_received t r c (line_of s))
  unfolding take_received
  received-Serves c =
      let p = push_in h recv_at c (omega arith) in
      Serves-if s.awaiting_receive _ _ _ _
        (record {
          effects = refl;
          line = λ j. record {
            outgoing = outgoing-poke h (update s.bytes recv_at c) (λ a lt. ground arith) j;
            incoming = incoming-poke h (update s.bytes recv_at c) (λ a lt. ground arith) j;
            reading = false;
            sending = s.awaiting_transmit;
          };
          server = IsServer-flags false s.awaiting_transmit (poke h recv_at c (omega arith));
        })
        (record { effects = refl; line = p.1; server = p.0 })

  -- A full buffer is one with as many bytes as fit.
  full_length : is_cyclic_buffer_full s.transmit_buffer ≡ (length (contents (transmit_side s)) == t)
  full_length = ground (arith, contents-length (transmit_side s), h.out_size)

module _ {t r : ℕ} {s : SerialServer} (h : IsServer t r s) where
  abbrev stopped : SerialServer
  stopped = record s { awaiting_transmit = false }

  stopped-IsServer : IsServer t r stopped
  stopped-IsServer = IsServer-flags s.awaiting_receive false h

  sent-Serves : Serves t r (send_next s) (sent_from t (contents (transmit_side s)) (line_of s))
  unfolding send_next
  sent-Serves = elim (List-cases (contents (transmit_side s))) [
    | inl e ↦
        Serves-eq (rw (empty_test (transmit_side s) e) refl)
          (ap (λ xs. sent_from t xs (line_of s)) e)
          (record { effects = refl; line = refl; server = stopped-IsServer })
    | inr (x, xs, e) ↦
        let p = pop-Serves stopped-IsServer in
        Serves-eq
          {out' = (
            clear_transmit ∷ (pop_to_uart stopped).0
                ++ (if is_cyclic_buffer_full s.transmit_buffer then reply_transmit ∷ [] else []),
            (pop_to_uart stopped).1,
          )}
          (rw (full_test (transmit_side s) x xs e) refl) (ap (λ xs. sent_from t xs (line_of s)) e)
          (record {
            effects =
                ap₂ (λ es b. clear_transmit ∷ es ++ (if b then reply_transmit ∷ [] else []))
                  (p.effects ∙ ap (λ xs. (pop_from xs (line_of stopped)).0) e)
                  (full_length h ∙ ap (λ (xs : List ℕ). length xs == t) e);
            line = p.line ∙ ap (λ xs. (pop_from xs (line_of stopped)).1) e;
            server = p.server;
          })
  ]

-- The second half of SS_NOTIFIER, after a first half that served.
then_sent :
    {t r : ℕ} (transmitted : Bool) (out : List SerialEffect × SerialServer)
    (want : List SerialEffect × Line)
    → Serves t r out want
    → let sent = if out.1.awaiting_transmit && transmitted then send_next out.1 else ([], out.1) in
      let next =
        if want.1.sending && transmitted
        then sent_from t want.1.outgoing want.1
        else ([], want.1) in
      Serves t r
        (reply_courier ∷ out.0 ++ sent.0, sent.1)
        (reply_courier ∷ want.0 ++ next.0, next.1)
then_sent {t} {r} transmitted out want f =
    let sent = if out.1.awaiting_transmit && transmitted then send_next out.1 else ([], out.1) in
    let g =
      subst
        (λ (l : Line).
          Serves t r sent (if l.sending && transmitted then sent_from t l.outgoing l else ([], l)))
        f.line
        (Serves-if (out.1.awaiting_transmit && transmitted) (send_next out.1) ([], out.1)
          (sent_from t (contents (transmit_side out.1)) (line_of out.1)) ([], line_of out.1)
          (sent-Serves f.server) (record { effects = refl; line = refl; server = f.server })) in
    record {
      effects = ap₂ (λ es fs. reply_courier ∷ es ++ fs) f.effects g.effects;
      line = g.line;
      server = g.server;
    }

module _ {t r : ℕ} {s : SerialServer} (h : IsServer t r s) where
  notifier-Serves :
      (received : Bool) (c : ℕ) (transmitted : Bool)
      → Serves t r
          (serial_server (ss_notifier received c transmitted) s)
          (line_step t r (ss_notifier received c transmitted) (line_of s))
  unfolding serial_server
  notifier-Serves received c transmitted =
      then_sent transmitted (if received then take_received c s else ([], s))
        (if received then line_received t r c (line_of s) else ([], line_of s))
        (Serves-if received (take_received c s) ([], s) (line_received t r c (line_of s))
          ([], line_of s) (received-Serves h c)
          (record { effects = refl; line = refl; server = h }))

  transmit-Serves :
      (ch : ℕ)
      → Serves t r (serial_server (ss_transmit ch) s) (line_step t r (ss_transmit ch) (line_of s))
  unfolding serial_server
  transmit-Serves ch =
      let q = push_out h req_data_at ch (omega arith) in
      let s2 = pushed_out h req_data_at ch in
      let l2 = record (line_of s) { outgoing = added t (line_of s).outgoing ch } in
      let s3 = record s2 { awaiting_transmit = true } in
      let answer =
        ap (λ b. if b then [] else reply_transmit ∷ [])
          (full_length q.0 ∙ ap (λ (l : Line). length l.outgoing == t) q.1) in
      let p =
        subst
          (λ (l : Line).
            Serves t r (pop_to_uart s3) (pop_from l.outgoing (record l { sending = true })))
          q.1 (pop-Serves (IsServer-flags s.awaiting_receive true q.0)) in
      Serves-if s.awaiting_transmit _ _ _ _ (record { effects = answer; line = q.1; server = q.0 })
        (record {
          effects = ap₂ (λ es fs. es ++ fs) answer p.effects;
          line = p.line;
          server = p.server;
        })

  -- One round of the server's loop, on any request and in any state in which its two buffers are in order,
  -- is one step of a line with two waiting lists: the same replies and writes to the UART, in the same
  -- order; afterwards the line's lists are what the buffers hold; and the buffers are in order again.
  pub serial_server-Serves :
      (req : SerialRequest) → Serves t r (serial_server req s) (line_step t r req (line_of s))
  unfolding serial_server
  serial_server-Serves (ss_notifier received c transmitted) = notifier-Serves received c transmitted
  serial_server-Serves ss_receive = read-Serves h
  serial_server-Serves (ss_transmit ch) = transmit-Serves ch
  serial_server-Serves other = record { effects = refl; line = refl; server = h }
