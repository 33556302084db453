-- ===== src/App/Comm/Examples.antt =====
-- A task whose line carries nothing yet.
use embed_rtos.Base.{
  ℕ, ◌^◌, ◌%◌, ◌≡◌, refl, true, false, none, some, List, [], ◌∷◌, ◌++◌, ◌>>=◌, arith, length,
  replicate,
}
use embed_rtos.Protocols.Packet.{Packet, parse_packet}
use embed_rtos.App.Comm.{CommTask, Outside, SensorData, process_command, start, comm_rounds}
use embed_rtos.App.Comm.Answers.{answer, process_command-Delivers, ping-refused}
use embed_rtos.App.Comm.Sending.{IsReady, Delivers}
use embed_rtos.App.Comm.Silence.{comm_rounds-start}

abbrev pub request : ℕ → Packet
request command = record {
  start = 0xaa;
  command = command;
  sequence = 1;
  len = 0;
  payload = replicate 256 0;
  crc = 0;
  end_mark = 0x55;
}

abbrev pub quiet : CommTask
quiet = record {
  status = record { packets_sent = 0; packets_received = 0; errors = 0; connected = true };
  handler = record {
    sequence_counter = 1;
    bytes_sent = 0;
    bytes_received = 0;
    packets_sent = 0;
    packets_received = 0;
    crc_errors = 0;
    timeout_errors = 0;
    initialized = true;
  };
  uart = record {
    id = 0;
    baudrate = 115200;
    rx_buffer = [];
    rx_head = 0;
    rx_tail = 0;
    initialized = true;
  };
  rx_buffer = replicate 256 0;
  tx_buffer = replicate 256 0;
  packet = request 0;
  check_counter = 49;
  simulation_counter = 99;
  last_activity_check = 0;
  last_stats_print = 0;
  line = [];
}

pub quiet-IsReady : IsReady quiet
quiet-IsReady = record { online = refl; rx_size = refl; tx_size = refl; sequence_in = omega arith }

abbrev pub sample : SensorData
sample = record {
  temperature = 0 ∷ 0 ∷ 0xc8 ∷ 0x41 ∷ [];
  humidity = 0 ∷ 0 ∷ 0x48 ∷ 0x42 ∷ [];
  pressure = 0 ∷ 0x50 ∷ 0x7d ∷ 0x44 ∷ [];
  data_ready = true;
}

abbrev pub outside : Outside
outside = record {
  tick_count = 20000;
  cpu_usage = 0 ∷ 0 ∷ 0x20 ∷ 0x41 ∷ [];
  task_count = 4;
  sensor_data = some sample;
}

process_command-Delivers_example :
    let a = answer 0x10 outside sample in
    Delivers a.0 a.1 quiet (request 0) none (process_command (some (request 0x10)) outside quiet)
process_command-Delivers_example =
    process_command-Delivers (request 0x10) (request 0) outside sample none quiet-IsReady
      (omega arith) refl refl refl

ping-refused_example :
    (t' : CommTask) × (packet : List ℕ) × (process_command (some (request 1)) outside quiet
      ≡ some t')
    × (t'.line ≡ [] ++ (packet ∷ []))
    × (length packet ≡ 9)
    × (t'.status.packets_sent ≡ 1)
    × (parse_packet (some packet) 9 (some (request 0)) none ≡ some (false, some (request 0), none))
ping-refused_example = ping-refused (request 1) (request 0) outside none quiet-IsReady refl

comm_rounds-start_example :
    (t' : CommTask) × ((start quiet >>= comm_rounds (outside ∷ outside ∷ [])) ≡ some t')
    × (t'.status.errors ≡ t'.status.packets_received)
    × (t'.handler.packets_received ≡ 0)
    × (t'.handler.crc_errors ≡ 0)
    × (t'.status.packets_sent ≡ t'.handler.packets_sent)
    × (t'.status.packets_sent ≡ length t'.line % 2 ^ 32)
comm_rounds-start_example = comm_rounds-start (outside ∷ outside ∷ []) quiet refl refl refl
