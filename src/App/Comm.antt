-- ===== src/App/Comm.antt =====
-- src/app/comm_task.c: the communication task, over the protocol and the simulated line. The result
-- `none` is an access out of bounds.
pub mod Sending
pub mod Answers
mod Line
mod Silence
pub mod Examples
use embed_rtos.Base.{
  ℕ, ◌/◌, Bool, true, Option, none, some, List, [], ◌∷◌, ◌++◌, ◌>>=◌, ltb, leb, ◌==◌, if◌then◌else◌,
  u16, add32, sub32,
}
use embed_rtos.Hal.Devices.{Uart, uart_init, uart_available}
use embed_rtos.Hal.Serial.{uart_send, uart_receive}
use embed_rtos.Protocols.Packet.{Packet, Handler, init, create_packet, parse_packet}
use embed_rtos.Protocols.Packet.Messages.{
  Created, cmd_ping, cmd_pong, cmd_get_sensor_data, cmd_sensor_data, cmd_get_status,
  cmd_status_response, cmd_start_ota, cmd_ota_complete, cmd_error, error_code, error_invalid_cmd,
  sensor_bytes, status_bytes, create_ping,
}

pub record CommStatus : Type 0 where
  pub packets_sent : ℕ
  pub packets_received : ℕ
  pub errors : ℕ
  pub connected : Bool

-- The static data and the locals of the task, with the counters that hal.c keeps, and the packets
-- that have gone out on the line, the last one last. The local `packet` keeps what it held.
pub record CommTask : Type 0 where
  pub status : CommStatus
  pub handler : Handler
  pub uart : Uart
  pub rx_buffer : List ℕ
  pub tx_buffer : List ℕ
  pub packet : Packet
  pub check_counter : ℕ
  pub simulation_counter : ℕ
  pub last_activity_check : ℕ
  pub last_stats_print : ℕ
  pub line : List (List ℕ)

-- `sensor_data_t`, each float as its four bytes.
pub record SensorData : Type 0 where
  pub temperature : List ℕ
  pub humidity : List ℕ
  pub pressure : List ℕ
  pub data_ready : Bool

-- What the task reads of the scheduler and of the sensor task.
pub record Outside : Type 0 where
  pub tick_count : ℕ
  pub cpu_usage : List ℕ
  pub task_count : ℕ
  pub sensor_data : Option SensorData

-- A packet that was made in `tx_buffer` is sent and counted.
pub send : Created → CommTask → Option CommTask
send created t = created >>= λ r. r.1 >>= λ tx_buffer. r.2 >>= λ handler.
    if ltb 0 r.0
    then (uart_send (some t.uart) (some tx_buffer) r.0 >>= λ sent. some (record t {
      handler = handler;
      tx_buffer = tx_buffer;
      line = t.line ++ sent;
      status = record t.status { packets_sent = add32 t.status.packets_sent 1 };
    }))
    else some (record t { handler = handler; tx_buffer = tx_buffer })

pub respond : ℕ → Option (List ℕ) → ℕ → CommTask → Option CommTask
respond command bytes len t =
    send (create_packet command bytes len (some t.tx_buffer) 256 (some t.handler)) t

unfoldable pub process_command : Option Packet → Outside → CommTask → Option CommTask
process_command none o t = some t
process_command (some p) o t =
    if p.command == cmd_ping
    then respond cmd_pong none 0 t
    else if p.command == cmd_get_sensor_data
    then elim o.sensor_data [
      | none ↦ some t
      | some s ↦
          if s.data_ready
          then respond cmd_sensor_data (some (sensor_bytes s.temperature s.humidity s.pressure)) 12
              t
          else some t
    ]
    else if p.command == cmd_get_status
    then respond cmd_status_response
        (some (status_bytes (o.tick_count / 1000) o.cpu_usage o.task_count)) 9 t
    else if p.command == cmd_start_ota
    then respond cmd_ota_complete (some (0x01 ∷ [])) 1 t
    else respond cmd_error (some (error_code error_invalid_cmd ∷ [])) 1 t

-- The first `rx_len` bytes of `rx_buffer` are a packet, or an error.
pub process_received : ℕ → Outside → CommTask → Option CommTask
process_received rx_len o t =
    parse_packet (some t.rx_buffer) (u16 rx_len) (some t.packet) (some t.handler) >>= λ r.
    r.1 >>= λ packet. r.2 >>= λ handler.
    let t' = record t {
      packet = packet;
      handler = handler;
      status = record t.status { packets_received = add32 t.status.packets_received 1 };
    } in
    if r.0
    then process_command (some packet) o t'
    else some (record t' { status = record t'.status { errors = add32 t.status.errors 1 } })

pub check_line : Outside → CommTask → Option CommTask
check_line o t =
    let available = uart_available t.check_counter (some t.uart) in
    let t' = record t { check_counter = available.1 } in
    if available.0
    then (uart_receive t.simulation_counter (some t.uart) (some t.rx_buffer) 256 >>= λ r.
        r.1 >>= λ rx_buffer.
        let t'' = record t' { rx_buffer = rx_buffer; simulation_counter = r.2 } in
        if ltb 0 r.0 then process_received r.0 o t'' else some t'')
    else some t'

pub heartbeat : Outside → CommTask → Option CommTask
heartbeat o t =
    if leb 10000 (sub32 o.tick_count t.last_activity_check)
    then (send (create_ping (some t.tx_buffer) 256 (some t.handler)) t >>= λ t'.
        some (record t' { last_activity_check = o.tick_count }))
    else some t

pub statistics : Outside → CommTask → CommTask
statistics o t =
    if leb 30000 (sub32 o.tick_count t.last_stats_print)
    then record t { last_stats_print = o.tick_count }
    else t

-- One round of the task's loop, up to its delay.
pub comm_round : Outside → CommTask → Option CommTask
comm_round o t = check_line o t >>= λ t'. heartbeat o t' >>= λ t''. some (statistics o t'')

pub start : CommTask → Option CommTask
start t = init (some t.handler) >>= λ handler. uart_init (some t.uart) 115200 >>= λ uart.
    some (record t {
      status = record { packets_sent = 0; packets_received = 0; errors = 0; connected = true };
      handler = handler;
      uart = uart;
      last_activity_check = 0;
      last_stats_print = 0;
    })

-- The rounds of the loop, with what the task reads at each.
pub comm_rounds : List Outside → CommTask → Option CommTask
comm_rounds [] t = some t
comm_rounds (o ∷ os) t = comm_round o t >>= comm_rounds os
