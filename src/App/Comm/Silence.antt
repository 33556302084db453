-- ===== src/App/Comm/Silence.antt =====
-- The communication task on the simulated line, over any number of rounds.
use embed_rtos.Base.{
  ℕ, ◌%◌, ◌^◌, ◌<◌, ◌≤◌, ◌≡◌, refl, ap, ◌∙◌, inl, inr, false, Option, some, List, [], ◌∷◌, arith,
  length, splice, get_or, add32, sub32, leb, ◌==◌, Bool-cases, ◌>>=◌, codes, length-splice,
  length-append,
}
use embed_rtos.Hal.Devices.{uart_init}
use embed_rtos.Protocols.Packet.{init}
use embed_rtos.Protocols.Packet.Layout.{image}
use embed_rtos.Protocols.Packet.Messages.{cmd_ping, create_ping}
use embed_rtos.Protocols.Packet.Parse.{parse_packet-no_start}
use embed_rtos.App.Comm.{
  CommTask, Outside, process_received, check_line, heartbeat, statistics, comm_round, comm_rounds,
  start,
}
use embed_rtos.App.Comm.Line.{uart_receive_cases, first_byte, uart_available-online}
use embed_rtos.App.Comm.Sending.{IsReady, answered, answered-IsReady, send-create_packet}

-- Every packet received was an error, no packet was accepted, and what was sent is on the line.
pub record IsSilent (t : CommTask) : Type 0 where
  pub ready : IsReady t
  pub all_errors : t.status.errors ≡ t.status.packets_received
  pub none_accepted : t.handler.packets_received ≡ 0
  pub none_checked : t.handler.crc_errors ≡ 0
  pub same_sent : t.status.packets_sent ≡ t.handler.packets_sent
  pub on_line : t.status.packets_sent ≡ length t.line % 2 ^ 32

abbrev StaysSilent : Option CommTask → Type 0
StaysSilent result = (t' : CommTask) × (result ≡ some t') × IsSilent t'

-- Where the first byte is not the start byte, what was received counts as an error.
process_received-error :
    (o : Outside) (t : CommTask)
    → 0 < length t.rx_buffer
    → (get_or t.rx_buffer 0 0 == 0xaa) ≡ false
    → process_received 11 o t
      ≡ some (record t {
        status = record t.status {
          packets_received = add32 t.status.packets_received 1;
          errors = add32 t.status.errors 1;
        };
      })
unfolding process_received
process_received-error o t h e =
    rw (parse_packet-no_start t.rx_buffer 11 t.packet (some t.handler) h (omega arith) e) refl

-- The task with the counters and buffers of a look at the line.
abbrev looked : CommTask → List ℕ → ℕ → ℕ → CommTask
looked t rx checks simulations = record t {
  rx_buffer = rx;
  check_counter = checks;
  simulation_counter = simulations;
}

looked-IsSilent :
    {t : CommTask} (rx : List ℕ) (checks simulations : ℕ)
    → IsSilent t
    → length rx ≡ 256
    → IsSilent (looked t rx checks simulations)
looked-IsSilent rx checks simulations v h = ground (arith, v, v.ready)

failed-IsSilent :
    {t : CommTask}
    → IsSilent t
    → IsSilent (record t {
      status = record t.status {
        packets_received = add32 t.status.packets_received 1;
        errors = add32 t.status.errors 1;
      };
    })
failed-IsSilent v = ground (arith, v, v.ready)

answered-IsSilent :
    (command : ℕ) (bytes : List ℕ) {t : CommTask}
    → IsSilent t
    → length bytes ≤ 246
    → IsSilent (answered command bytes t)
answered-IsSilent command bytes {t} v h = record {
  ready = answered-IsReady command bytes v.ready h;
  all_errors = v.all_errors;
  none_accepted = v.none_accepted;
  none_checked = v.none_checked;
  same_sent = ap (λ n. add32 n 1) v.same_sent;
  on_line =
      omega
        (arith, v, length-append t.line (image command t.handler.sequence_counter bytes [] ∷ []));
}

check_line-IsSilent : (o : Outside) {t : CommTask} → IsSilent t → StaysSilent (check_line o t)
unfolding check_line
check_line-IsSilent o {t} v =
    let checks : ℕ = add32 t.check_counter 1 in
    let simulations : ℕ = add32 t.simulation_counter 1 in
    let a = uart_available-online t.check_counter t.uart v.ready.online in
    elim (Bool-cases (checks % 50 == 0)) [
      | inr e ↦ (
        looked t t.rx_buffer checks t.simulation_counter,
        rw (a, e) refl,
        looked-IsSilent t.rx_buffer checks t.simulation_counter v v.ready.rx_size,
      )
      | inl e ↦
          elim (uart_receive_cases t.simulation_counter t.uart t.rx_buffer v.ready.online
            v.ready.rx_size) [
              | inl r ↦ (
                looked t t.rx_buffer checks simulations,
                rw (a, e, r) refl,
                looked-IsSilent t.rx_buffer checks simulations v v.ready.rx_size,
              )
              | inr r ↦
                  let rx : List ℕ = splice t.rx_buffer 0 (codes "SENSOR_DATA") in
                  let size : length rx ≡ 256 =
                    length-splice t.rx_buffer 0 (codes "SENSOR_DATA") ∙ v.ready.rx_size in
                  let first : (get_or rx 0 0 == 0xaa) ≡ false =
                    first_byte t.rx_buffer v.ready.rx_size in
                  (
                    _,
                    rw (a, e, r)
                        (process_received-error o (looked t rx checks simulations) (omega arith)
                          first),
                    failed-IsSilent (looked-IsSilent rx checks simulations v size),
                  )
            ]
    ]

heartbeat-IsSilent : (o : Outside) {t : CommTask} → IsSilent t → StaysSilent (heartbeat o t)
unfolding heartbeat create_ping
heartbeat-IsSilent o {t} v =
    let ping : List ℕ = 0x50 ∷ 0x49 ∷ 0x4e ∷ 0x47 ∷ [] in
    let n = answered-IsSilent cmd_ping ping v (omega arith) in
    elim (Bool-cases (leb 10000 (sub32 o.tick_count t.last_activity_check))) [
      | inr e ↦ (t, rw e refl, v)
      | inl e ↦ (
        record (answered cmd_ping ping t) { last_activity_check = o.tick_count },
        rw (e, send-create_packet cmd_ping ping v.ready (omega arith)) refl,
        ground (arith, n, n.ready),
      )
    ]

statistics-IsSilent : (o : Outside) {t : CommTask} → IsSilent t → IsSilent (statistics o t)
unfolding statistics
statistics-IsSilent o {t} v =
    elim (Bool-cases (leb 30000 (sub32 o.tick_count t.last_stats_print))) [
      | inr e ↦ rw e v
      | inl e ↦ rw e (ground (arith, v, v.ready))
    ]

comm_round-IsSilent : (o : Outside) {t : CommTask} → IsSilent t → StaysSilent (comm_round o t)
unfolding comm_round
comm_round-IsSilent o v =
    let c = check_line-IsSilent o v in
    let h = heartbeat-IsSilent o c.2 in
    (statistics o h.0, rw (c.1, ◌>>=◌, h.1) refl, statistics-IsSilent o h.2)

comm_rounds-IsSilent :
    (os : List Outside) {t : CommTask} → IsSilent t → StaysSilent (comm_rounds os t)
unfolding comm_rounds
comm_rounds-IsSilent [] {t} v = (t, refl, v)
comm_rounds-IsSilent (o ∷ os) v =
    let r = comm_round-IsSilent o v in
    let rest = comm_rounds-IsSilent os r.2 in (rest.0, rw (r.1, ◌>>=◌) rest.1, rest.2)

start-IsSilent :
    (t : CommTask)
    → length t.rx_buffer ≡ 256
    → length t.tx_buffer ≡ 256
    → t.line ≡ []
    → StaysSilent (start t)
unfolding start init uart_init
start-IsSilent t hr ht hl = (_, refl, ground (arith, hl))

-- The communication task, started with a silent line and run for any number of rounds, whatever it
-- reads of the scheduler and the sensor task, never leaves its buffers. On the simulated line every
-- reception is an error: the errors equal the packets received, and the protocol handler counts
-- neither a packet nor a checksum error. The packets sent are counted alike by the task and by the
-- handler, and are those on the line, modulo 2 ^ 32.
pub comm_rounds-start :
    (os : List Outside) (t : CommTask)
    → length t.rx_buffer ≡ 256
    → length t.tx_buffer ≡ 256
    → t.line ≡ []
    → (t' : CommTask) × ((start t >>= comm_rounds os) ≡ some t')
      × (t'.status.errors ≡ t'.status.packets_received)
      × (t'.handler.packets_received ≡ 0)
      × (t'.handler.crc_errors ≡ 0)
      × (t'.status.packets_sent ≡ t'.handler.packets_sent)
      × (t'.status.packets_sent ≡ length t'.line % 2 ^ 32)
comm_rounds-start os t hr ht hl =
    let s = start-IsSilent t hr ht hl in
    let r = comm_rounds-IsSilent os s.2 in
    let v : IsSilent r.0 = r.2 in
    (
      r.0,
      ap (λ k. k >>= comm_rounds os) s.1 ∙ r.1,
      v.all_errors,
      v.none_accepted,
      v.none_checked,
      v.same_sent,
      v.on_line,
    )
