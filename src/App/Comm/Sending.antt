-- ===== src/App/Comm/Sending.antt =====
-- Packets that the communication task puts on the line, and the parser at the other end of it.
use embed_rtos.Base.{
  ℕ, ◌+◌, ◌%◌, ◌≤◌, ◌<◌, ◌≡◌, refl, sym, ap, ◌∙◌, true, Option, some, List, [], ◌∷◌, ◌++◌, arith,
  length, drop, slice, add32, lt→ltb, slice-middle, slice-splice_self, read_bytes-in_range,
  append-nil, ◌>>=◌, length-drop,
}
use embed_rtos.Hal.Devices.{Uart}
use embed_rtos.Hal.Serial.{uart_send, shown}
use embed_rtos.Protocols.Packet.{
  Packet, Handler, create_packet, parse_packet, count_sent, count_received, packet_bytes,
  next_sequence,
}
use embed_rtos.Protocols.Packet.Layout.{
  image, packet_bytes-image, length-packet_bytes, length-image,
}
use embed_rtos.Protocols.Packet.Messages.{Created}
use embed_rtos.Protocols.Packet.RoundTrip.{
  create_packet-image, parse_header, parse_body, packet_read,
}
use embed_rtos.App.Comm.{CommTask, send, respond}

-- The task can send: its buffers have the sizes of the source.
pub record IsReady (t : CommTask) : Type 0 where
  pub online : t.uart.initialized ≡ true
  pub rx_size : length t.rx_buffer ≡ 256
  pub tx_size : length t.tx_buffer ≡ 256
  pub sequence_in : t.handler.sequence_counter < 65536

abbrev pub sent_packet : CommTask → Handler → List ℕ → List ℕ → CommTask
sent_packet t h tx packet = record t {
  handler = h;
  tx_buffer = tx;
  line = t.line ++ (packet ∷ []);
  status = record t.status { packets_sent = add32 t.status.packets_sent 1 };
}

pub uart_send-sends :
    (uart : Uart) (bytes : List ℕ) (n : ℕ)
    → uart.initialized ≡ true
    → 0 < n
    → n ≤ length bytes
    → uart_send (some uart) (some bytes) n ≡ some (slice bytes 0 0 n ∷ [])
unfolding uart_send
uart_send-sends uart bytes n i h hn =
    let shown_fits : shown n ≤ length bytes = ground arith in
    rw (i, lt→ltb 0 n h, read_bytes-in_range bytes 0 (shown n) (omega (arith, shown_fits)), ◌>>=◌)
      refl

pub send-sent_packet :
    (created : Created) (t : CommTask) (n : ℕ) (tx : List ℕ) (h : Handler)
    → created ≡ some (n, some tx, some h)
    → t.uart.initialized ≡ true
    → 0 < n
    → n ≤ length tx
    → send created t ≡ some (sent_packet t h tx (slice tx 0 0 n))
unfolding send
send-sent_packet created t n tx h e i pos fits =
    rw (e, ◌>>=◌, lt→ltb 0 n pos, uart_send-sends t.uart tx n i pos fits) refl

-- The first bytes of the buffer are the packet itself.
slice-image :
    (command sequence : ℕ) (bytes rest : List ℕ)
    → slice (image command sequence bytes rest) 0 0 (length bytes + 9)
      ≡ image command sequence bytes []
slice-image command sequence bytes rest =
    let packet : List ℕ = packet_bytes command sequence (length bytes) bytes in
    ap (λ xs. slice xs 0 0 (length bytes + 9))
      (sym (packet_bytes-image command sequence bytes rest))
    ∙ slice-middle [] packet rest 0 0 (length bytes + 9) refl
        (length-packet_bytes command sequence bytes [])
    ∙ sym (append-nil packet)
    ∙ packet_bytes-image command sequence bytes []

-- What a packet leaves in the handler that made it.
abbrev pub counted : ℕ → Handler → Handler
counted n h = record h {
  sequence_counter = (h.sequence_counter + 1) % 65536;
  packets_sent = add32 h.packets_sent 1;
  bytes_sent = add32 h.bytes_sent (6 + n + 2 + 2);
}

-- The task after it has sent a packet.
abbrev pub answered : ℕ → List ℕ → CommTask → CommTask
answered command bytes t =
    sent_packet t (counted (length bytes) t.handler)
      (image command t.handler.sequence_counter bytes (drop (length bytes + 9) t.tx_buffer))
      (image command t.handler.sequence_counter bytes [])

pub send-create_packet :
    (command : ℕ) (bytes : List ℕ) {t : CommTask}
    → IsReady t
    → length bytes ≤ 246
    → send
        (create_packet command (some bytes) (length bytes) (some t.tx_buffer) 256 (some t.handler))
        t
      ≡ some (answered command bytes t)
unfolding count_sent next_sequence
send-create_packet command bytes {t} v small =
    let rest : List ℕ = drop (length bytes + 9) t.tx_buffer in
    send-sent_packet _ t (length bytes + 9) (image command t.handler.sequence_counter bytes rest)
      (counted (length bytes) t.handler)
      (create_packet-image command bytes t.tx_buffer 256 (some t.handler) (omega arith)
        (omega arith) (omega (arith, v)))
      v.online (omega arith)
      (omega (arith, length-image command t.handler.sequence_counter bytes rest))
    ∙ ap
        (λ packet. some (
          sent_packet t (counted (length bytes) t.handler)
            (image command t.handler.sequence_counter bytes rest) packet))
        (slice-image command t.handler.sequence_counter bytes rest)

pub answered-IsReady :
    (command : ℕ) (bytes : List ℕ) {t : CommTask}
    → IsReady t
    → length bytes ≤ 246
    → IsReady (answered command bytes t)
answered-IsReady command bytes {t} v small = record {
  online = v.online;
  rx_size = v.rx_size;
  tx_size =
      length-image command t.handler.sequence_counter bytes (drop (length bytes + 9) t.tx_buffer)
      ∙ omega (arith, v, length-drop (length bytes + 9) t.tx_buffer);
  sequence_in = omega arith;
}

-- `packet`, which went out on the line, is accepted by a parser with the handler `g`.
pub record Delivers (command : ℕ) (bytes : List ℕ) (t : CommTask) (p : Packet) (g : Option Handler)
    (result : Option CommTask) : Type 0 where
  pub after : CommTask
  pub packet : List ℕ
  pub received : Packet
  pub returns : result ≡ some after
  pub sent : after.line ≡ t.line ++ (packet ∷ [])
  pub counts : after.status.packets_sent ≡ add32 t.status.packets_sent 1
  pub accepted :
      parse_packet (some packet) (length packet) (some p) g
      ≡ some (true, some received, count_received (length packet) g)
  pub same_command : received.command ≡ command
  pub same_bytes : slice received.payload 0 0 (length bytes) ≡ bytes
  pub ready : IsReady after

pub respond-Delivers :
    (command : ℕ) (bytes : List ℕ) (p : Packet) (g : Option Handler) {t : CommTask}
    → IsReady t
    → 0 < length bytes
    → length bytes ≤ 246
    → length p.payload ≡ 256
    → Delivers command bytes t p g (respond command (some bytes) (length bytes) t)
unfolding respond
respond-Delivers command bytes p g {t} v pos small array =
    let sequence : ℕ = t.handler.sequence_counter in
    let len : length (image command sequence bytes []) ≡ length bytes + 9 =
      length-image command sequence bytes [] ∙ omega arith in
    record {
      after = answered command bytes t;
      packet = image command sequence bytes [];
      received = packet_read command sequence bytes [] p g;
      returns = send-create_packet command bytes v small;
      sent = refl;
      counts = refl;
      accepted =
          ap (λ n. parse_packet (some (image command sequence bytes [])) n (some p) g) len
          ∙ parse_header command sequence bytes [] p g v.sequence_in pos (omega arith)
          ∙ parse_body command sequence bytes [] p g pos (omega arith) array
          ∙ ap
              (λ n.
                some (true, some (packet_read command sequence bytes [] p g), count_received n g))
              (sym len);
      same_command = refl;
      same_bytes = slice-splice_self p.payload 0 0 bytes (omega arith);
      ready = answered-IsReady command bytes v small;
    }
