-- ===== src/Serial/Order.antt =====
-- Many rounds of usr/serialserver.c: which bytes reach the UART and the readers, and in which order.
use rtk.Common.{
  ℕ, ◌≡◌, ◌∙◌, refl, sym, ap, ap₂, true, false, Bool, List, [], ◌∷◌, ◌++◌, arith, ◌==◌,
  if◌then◌else◌, length,
}
use mathlib.Core.List.{append_assoc, append-nil}
use rtk.Serial.Server.{
  SerialServer, SerialRequest, SerialEffect, reply_courier, reply_transmit, reply_receive,
  clear_receive, clear_transmit, write_uart, serial_server, ss_notifier, ss_receive, ss_transmit,
  other,
}
use rtk.Serial.Line.{Line, line_of, line_step, read_from, IsServer, Serves}
use rtk.Serial.Refines.{serial_server-Serves}

-- The server's loop over the requests that come.
unfoldable pub serve : List SerialRequest → SerialServer → List SerialEffect × SerialServer
serve [] s = ([], s)
serve (q ∷ qs) s =
    let here = serial_server q s in let later = serve qs here.1 in (here.0 ++ later.0, later.1)

-- The bytes that are written to the UART.
unfoldable pub written : List SerialEffect → List ℕ
written [] = []
written (write_uart c ∷ es) = c ∷ written es
written (reply_courier ∷ es) = written es
written (reply_transmit ∷ es) = written es
written (reply_receive c ∷ es) = written es
written (clear_receive ∷ es) = written es
written (clear_transmit ∷ es) = written es

written-append : (es fs : List SerialEffect) → written (es ++ fs) ≡ written es ++ written fs
unfolding written
written-append [] fs = refl
written-append (write_uart c ∷ es) fs = ap (λ cs. c ∷ cs) (written-append es fs)
written-append (reply_courier ∷ es) fs = written-append es fs
written-append (reply_transmit ∷ es) fs = written-append es fs
written-append (reply_receive c ∷ es) fs = written-append es fs
written-append (clear_receive ∷ es) fs = written-append es fs
written-append (clear_transmit ∷ es) fs = written-append es fs

-- The bytes that readers get.
unfoldable pub delivered : List SerialEffect → List ℕ
delivered [] = []
delivered (reply_receive c ∷ es) = c ∷ delivered es
delivered (reply_courier ∷ es) = delivered es
delivered (reply_transmit ∷ es) = delivered es
delivered (write_uart c ∷ es) = delivered es
delivered (clear_receive ∷ es) = delivered es
delivered (clear_transmit ∷ es) = delivered es

delivered-append : (es fs : List SerialEffect) → delivered (es ++ fs) ≡ delivered es ++ delivered fs
unfolding delivered
delivered-append [] fs = refl
delivered-append (reply_receive c ∷ es) fs = ap (λ cs. c ∷ cs) (delivered-append es fs)
delivered-append (reply_courier ∷ es) fs = delivered-append es fs
delivered-append (reply_transmit ∷ es) fs = delivered-append es fs
delivered-append (write_uart c ∷ es) fs = delivered-append es fs
delivered-append (clear_receive ∷ es) fs = delivered-append es fs
delivered-append (clear_transmit ∷ es) fs = delivered-append es fs

-- Nothing waits for a reader that waits.
abbrev pub IsPrompt : Line → Type 0
IsPrompt l = l.reading ≡ true → l.incoming ≡ []

module _ (t r : ℕ) where
  unfoldable pub line_run : List SerialRequest → Line → List SerialEffect × Line
  line_run [] l = ([], l)
  line_run (q ∷ qs) l =
      let here = line_step t r q l in let later = line_run qs here.1 in (here.0 ++ later.0, later.1)

  -- The byte that a writer hands over, unless `t` bytes wait.
  abbrev pub asked : SerialRequest → Line → List ℕ
  asked (ss_transmit c) l = if length l.outgoing == t then [] else c ∷ []
  asked (ss_notifier received c transmitted) l = []
  asked ss_receive l = []
  asked other l = []

  -- The byte that comes from the UART, unless nobody reads and `r` bytes wait.
  abbrev pub heard : SerialRequest → Line → List ℕ
  heard (ss_notifier received c transmitted) l =
      if received
      then (if l.reading then c ∷ [] else if length l.incoming == r then [] else c ∷ [])
      else []
  heard (ss_transmit c) l = []
  heard ss_receive l = []
  heard other l = []

  -- What a run takes in, request after request.
  unfoldable pub all_asked : List SerialRequest → Line → List ℕ
  all_asked [] l = []
  all_asked (q ∷ qs) l = asked q l ++ all_asked qs (line_step t r q l).1

  unfoldable pub all_heard : List SerialRequest → Line → List ℕ
  all_heard [] l = []
  all_heard (q ∷ qs) l = heard q l ++ all_heard qs (line_step t r q l).1

  late : (b : Bool) → written (if b then reply_transmit ∷ [] else []) ≡ []
  unfolding written
  late true = refl
  late false = refl

  late_delivered : (b : Bool) → delivered (if b then reply_transmit ∷ [] else []) ≡ []
  unfolding delivered
  late_delivered true = refl
  late_delivered false = refl

  -- A line with its fields as variables.
  abbrev line : (outgoing incoming : List ℕ) (reading sending : Bool) → Line
  line o i a b = record { outgoing = o; incoming = i; reading = a; sending = b }

  notifier-written :
      (received : Bool) (c : ℕ) (transmitted : Bool) (o i : List ℕ) (a b : Bool)
      → written (line_step t r (ss_notifier received c transmitted) (line o i a b)).0
          ++ (line_step t r (ss_notifier received c transmitted) (line o i a b)).1.outgoing
        ≡ o
  unfolding written
  notifier-written received c transmitted o i a b = ground (arith, append-nil o)

  read-written :
      (xs : List ℕ) (l : Line)
      → written (read_from xs l).0 ++ (read_from xs l).1.outgoing ≡ l.outgoing
  unfolding written
  read-written [] l = refl
  read-written (x ∷ xs) l = refl

  transmit-written :
      (ch : ℕ) (o i : List ℕ) (a b : Bool)
      → written (line_step t r (ss_transmit ch) (line o i a b)).0
          ++ (line_step t r (ss_transmit ch) (line o i a b)).1.outgoing
        ≡ o ++ asked (ss_transmit ch) (line o i a b)
  unfolding written
  transmit-written ch [] i a b = ground arith
  transmit-written ch (x ∷ o) i a b = ground (arith, append-nil o)

  -- One step, out to the UART.
  step-written :
      (q : SerialRequest) (l : Line)
      → written (line_step t r q l).0 ++ (line_step t r q l).1.outgoing ≡ l.outgoing ++ asked q l
  unfolding written
  step-written (ss_notifier received c transmitted) l =
      notifier-written received c transmitted l.outgoing l.incoming l.reading l.sending
      ∙ sym (append-nil l.outgoing)
  step-written ss_receive l = read-written l.incoming l ∙ sym (append-nil l.outgoing)
  step-written (ss_transmit ch) l = transmit-written ch l.outgoing l.incoming l.reading l.sending
  step-written other l = sym (append-nil l.outgoing)

  notifier-delivered :
      (received : Bool) (c : ℕ) (transmitted : Bool) (o i : List ℕ) (a b : Bool)
      → IsPrompt (line o i a b)
      → let q = ss_notifier received c transmitted in
        let out = line_step t r q (line o i a b) in
        (delivered out.0 ++ out.1.incoming ≡ i ++ heard q (line o i a b)) × IsPrompt out.1
  unfolding delivered
  notifier-delivered received c transmitted o i a b p = ground (arith, append-nil i)

  read-delivered :
      (o i : List ℕ) (a b : Bool)
      → IsPrompt (line o i a b)
      → let out = line_step t r ss_receive (line o i a b) in
        (delivered out.0 ++ out.1.incoming ≡ i ++ []) × IsPrompt out.1
  unfolding delivered
  read-delivered o i a b p = ground (arith, append-nil i)

  transmit-delivered :
      (ch : ℕ) (o i : List ℕ) (a b : Bool)
      → IsPrompt (line o i a b)
      → let out = line_step t r (ss_transmit ch) (line o i a b) in
        (delivered out.0 ++ out.1.incoming ≡ i ++ []) × IsPrompt out.1
  unfolding delivered
  transmit-delivered ch [] i a b p = ground (arith, append-nil i)
  transmit-delivered ch (x ∷ o) i a b p = ground (arith, append-nil i)

  -- One step, in from the UART.
  step-delivered :
      (q : SerialRequest) (l : Line)
      → IsPrompt l
      → (delivered (line_step t r q l).0 ++ (line_step t r q l).1.incoming
          ≡ l.incoming ++ heard q l)
        × IsPrompt (line_step t r q l).1
  unfolding delivered
  step-delivered (ss_notifier received c transmitted) l p =
      notifier-delivered received c transmitted l.outgoing l.incoming l.reading l.sending p
  step-delivered ss_receive l p = read-delivered l.outgoing l.incoming l.reading l.sending p
  step-delivered (ss_transmit ch) l p =
      transmit-delivered ch l.outgoing l.incoming l.reading l.sending p
  step-delivered other l p = (sym (append-nil l.incoming), p)

-- Two parts of a list that moves on.
regroup :
    {A : Type 0} (wa wb o1 o2 o ask asks : List A)
    → wa ++ o1 ≡ o ++ ask
    → wb ++ o2 ≡ o1 ++ asks
    → (wa ++ wb) ++ o2 ≡ o ++ (ask ++ asks)
regroup wa wb o1 o2 o ask asks e f =
    append_assoc wa wb o2
    ∙ ap (λ xs. wa ++ xs) f
    ∙ sym (append_assoc wa o1 asks)
    ∙ ap (λ xs. xs ++ asks) e
    ∙ append_assoc o ask asks

module _ (t r : ℕ) where
  run-written :
      (qs : List SerialRequest) (l : Line)
      → written (line_run t r qs l).0 ++ (line_run t r qs l).1.outgoing
        ≡ l.outgoing ++ all_asked t r qs l
  unfolding line_run all_asked written
  run-written [] l = sym (append-nil l.outgoing)
  run-written (q ∷ qs) l =
      let here = line_step t r q l in
      let later = line_run t r qs here.1 in
      ap (λ cs. cs ++ later.1.outgoing) (written-append here.0 later.0)
      ∙ regroup (written here.0) (written later.0) here.1.outgoing later.1.outgoing l.outgoing
          (asked t r q l) (all_asked t r qs here.1) (step-written t r q l) (run-written qs here.1)

  run-delivered :
      (qs : List SerialRequest) (l : Line)
      → IsPrompt l
      → delivered (line_run t r qs l).0 ++ (line_run t r qs l).1.incoming
        ≡ l.incoming ++ all_heard t r qs l
  unfolding line_run all_heard delivered
  run-delivered [] l p = sym (append-nil l.incoming)
  run-delivered (q ∷ qs) l p =
      let here = line_step t r q l in
      let later = line_run t r qs here.1 in
      let (e, p') = step-delivered t r q l p in
      ap (λ cs. cs ++ later.1.incoming) (delivered-append here.0 later.0)
      ∙ regroup (delivered here.0) (delivered later.0) here.1.incoming later.1.incoming l.incoming
          (heard t r q l) (all_heard t r qs here.1) e (run-delivered qs here.1 p')

  serve-line :
      (qs : List SerialRequest) (s : SerialServer)
      → IsServer t r s
      → Serves t r (serve qs s) (line_run t r qs (line_of s))
  unfolding serve line_run
  serve-line [] s h = record { effects = refl; line = refl; server = h }
  serve-line (q ∷ qs) s h =
      let here = serial_server-Serves h q in
      let next = serve-line qs (serial_server q s).1 here.server in
      record {
        effects =
            ap₂ (λ es fs. es ++ fs) here.effects
              (next.effects ∙ ap (λ l. (line_run t r qs l).0) here.line);
        line = next.line ∙ ap (λ l. (line_run t r qs l).1) here.line;
        server = next.server;
      }

  -- Any requests, one after the other, to a server whose buffers, for `t` and `r` bytes, are in order, and in
  -- which no byte waits for a reader that waits. The bytes that go to the UART, and then what still
  -- waits to, are what waited at first and then what writers asked for, in that order; but for bytes
  -- that find `t` waiting. The bytes that readers get, and then what still waits for one, are what
  -- waited at first and then what came from the UART, in that order, but for bytes that find nobody
  -- reading and `r` waiting. At the end the buffers are in order.
  pub served_in_order :
      (qs : List SerialRequest) (s : SerialServer)
      → IsServer t r s
      → IsPrompt (line_of s)
      → let out = serve qs s in
        (written out.0 ++ (line_of out.1).outgoing
          ≡ (line_of s).outgoing ++ all_asked t r qs (line_of s))
        × (delivered out.0 ++ (line_of out.1).incoming
            ≡ (line_of s).incoming ++ all_heard t r qs (line_of s))
        × IsServer t r out.1
  served_in_order qs s h p =
      let f = serve-line qs s h in
      (
        ap₂ (λ es (l : Line). written es ++ l.outgoing) f.effects f.line
            ∙ run-written qs (line_of s),
        ap₂ (λ es (l : Line). delivered es ++ l.incoming) f.effects f.line
            ∙ run-delivered qs (line_of s) p,
        f.server,
      )
