-- ===== src/App/Comm/Answers.antt =====
-- The answers of `process_command`.
use embed_rtos.Base.{
  ℕ, ◌/◌, ◌≤◌, ◌<◌, ◌≡◌, ◌≢◌, refl, true, false, Option, some, List, [], ◌∷◌, ◌++◌, arith, length,
  sym, subst, add32, ◌==◌, if◌then◌else◌, ==_iff,
}
use embed_rtos.Protocols.Packet.{Packet, Handler, parse_packet}
use embed_rtos.Protocols.Packet.Layout.{image, length-image}
use embed_rtos.Protocols.Packet.Messages.{
  cmd_ping, cmd_pong, cmd_get_sensor_data, cmd_sensor_data, cmd_get_status, cmd_status_response,
  cmd_start_ota, cmd_ota_complete, cmd_error, error_code, error_invalid_cmd, sensor_bytes,
  status_bytes,
}
use embed_rtos.Protocols.Packet.Parse.{parse_packet-short}
use embed_rtos.Protocols.Packet.RoundTrip.{create_packet-none}
use embed_rtos.App.Comm.{CommTask, Outside, SensorData, process_command, respond}
use embed_rtos.App.Comm.Sending.{IsReady, Delivers, respond-Delivers, answered, send-create_packet}

-- The answer to each command but PING, where the sensor has data: its command and its payload.
abbrev pub answer : ℕ → Outside → SensorData → ℕ × List ℕ
answer command o s =
    if command == cmd_get_sensor_data
    then (cmd_sensor_data, sensor_bytes s.temperature s.humidity s.pressure)
    else if command == cmd_get_status
    then (cmd_status_response, status_bytes (o.tick_count / 1000) o.cpu_usage o.task_count)
    else if command == cmd_start_ota
    then (cmd_ota_complete, 0x01 ∷ [])
    else (cmd_error, error_code error_invalid_cmd ∷ [])

length-sensor_bytes :
    (s : SensorData) → length (sensor_bytes s.temperature s.humidity s.pressure) ≡ 12
unfolding sensor_bytes
length-sensor_bytes s = refl

length-status_bytes :
    (uptime : ℕ) (cpu : List ℕ) (tasks : ℕ) → length (status_bytes uptime cpu tasks) ≡ 9
unfolding status_bytes
length-status_bytes uptime cpu tasks = refl

-- `process_command` in the terms of the answer.
process_command-respond :
    (q : Packet) (o : Outside) (s : SensorData) (t : CommTask)
    → q.command ≢ cmd_ping
    → o.sensor_data ≡ some s
    → s.data_ready ≡ true
    → let a = answer q.command o s in
      process_command (some q) o t ≡ respond a.0 (some a.1) (length a.1) t
unfolding process_command sensor_bytes status_bytes
process_command-respond q o s t np hs hr = ground (arith, hs, hr)

answer-bounds :
    (command : ℕ) (o : Outside) (s : SensorData)
    → let a = answer command o s in (0 < length a.1) × (length a.1 ≤ 246)
answer-bounds command o s = ground (
  arith,
  length-sensor_bytes s,
  length-status_bytes (o.tick_count / 1000) o.cpu_usage o.task_count,
)

-- A task that can send answers every command but PING, if the sensor has data, without an access
-- out of bounds: it sends one packet and counts it, and `protocol_parse_packet` accepts the packet at
-- the other end of the line, with the command and the payload of the answer. It can then send again.
pub process_command-Delivers :
    (q p : Packet) (o : Outside) (s : SensorData) (g : Option Handler) {t : CommTask}
    → IsReady t
    → q.command ≢ cmd_ping
    → o.sensor_data ≡ some s
    → s.data_ready ≡ true
    → length p.payload ≡ 256
    → let a = answer q.command o s in Delivers a.0 a.1 t p g (process_command (some q) o t)
process_command-Delivers q p o s g {t} v np hs hr array =
    let a : ℕ × List ℕ = answer q.command o s in
    let bounds = answer-bounds q.command o s in
    subst (Delivers a.0 a.1 t p g) (sym (process_command-respond q o s t np hs hr))
      (respond-Delivers a.0 a.1 p g v bounds.0 bounds.1 array)

-- A task that can send answers PING with one packet of nine bytes and counts it;
-- `protocol_parse_packet` refuses this packet at the other end of the line and changes nothing.
pub ping-refused :
    (q p : Packet) (o : Outside) (g : Option Handler) {t : CommTask}
    → IsReady t
    → q.command ≡ cmd_ping
    → (t' : CommTask) × (packet : List ℕ) × (process_command (some q) o t ≡ some t')
      × (t'.line ≡ t.line ++ (packet ∷ []))
      × (length packet ≡ 9)
      × (t'.status.packets_sent ≡ add32 t.status.packets_sent 1)
      × (parse_packet (some packet) 9 (some p) g ≡ some (false, some p, g))
unfolding process_command respond
ping-refused q p o g {t} v hp =
    let packet : List ℕ = image cmd_pong t.handler.sequence_counter [] [] in
    let is_ping : (q.command == cmd_ping) ≡ true = (==_iff q.command cmd_ping).1 hp in
    (
      answered cmd_pong [] t,
      packet,
      rw (is_ping, create_packet-none cmd_pong (some t.tx_buffer) 256 (some t.handler))
          (send-create_packet cmd_pong [] v (omega arith)),
      refl,
      length-image cmd_pong t.handler.sequence_counter [] [],
      refl,
      parse_packet-short packet 9 p g (omega arith),
    )
