-- ===== src/Lib.antt =====
-- EmbedRTOS: a small cooperative real-time kernel for a simulated microcontroller, with its
-- utilities, its communication protocol and its simulated peripherals, in C.
--
-- The program's parts. The application (main.c, src/app) adds its tasks to the scheduler
-- (src/kernel/scheduler.c), which runs one of them at each tick. The tasks pass data through queues
-- (src/kernel/queue.c) and share resources by semaphores (src/kernel/semaphore.c). The
-- communication task frames its messages as packets (src/protocols/comm_protocol.c); a byte ring
-- (src/utils/circular_buffer.c) is there for streams. Underneath stand the simulated hardware
-- (src/hal, simulator) and the boot and update code (src/ota).
--
-- The files. Base holds what all parts share: Base/Test the Boolean tests and the bind of fallible
-- code, Base/Lists and Base/Splits lists as arrays of bytes, Base/Text strings, Base/Word the 8, 16,
-- 32 and 64 bit integers with their wrap-around, Base/Bits and Base/Xor bit fields, Base/Ring rings
-- over an array, Base/Int signed integers, Base/Float floats, Base/Print the digits of numbers, and
-- Base/Rows the loops of the dumps of memory.
--   Kernel/Queue is src/kernel/queue.c: create, enqueue, dequeue, peek, count_of, is_empty, is_full
--     and clear are the functions queue_*. Its child modules hold the representation invariant
--     (Bounds), the bounded first-in first-out list that a queue stands for (Fifo), sequences of
--     calls (Runs), and a queue whose size in bytes wraps (Wrap).
--   Kernel/Semaphore is src/kernel/semaphore.c: init, try_take (semaphore_take), give, get_count;
--     Counts holds the accounts over sequences of calls.
--   Kernel/Scheduler is src/kernel/scheduler.c. The static scheduler and sys_time_ms are a record;
--     a task is an index into its table. Pick is about the choice of a task, Ticks, Accounts and
--     Starve about ticks over time, Delay about scheduler_delay.
--   Utils/CircularBuffer is src/utils/circular_buffer.c; Bounds, Chunk, Round, Write, Overwrite,
--     Puts and Read are about its loops, Pointers about the access by pointer. Peek, Search and Copy
--     hold circular_buffer_peek, _find and _copy; the two buffers of a copy are different objects.
--   Hal/Devices, Hal/Voltage, Hal/Serial and Hal/Clock are src/hal/hal.c: GPIO, UART, ADC and timers,
--     the ADC in volts, the simulated line of the UART, and the tick counters; Hal/Bus, Hal/Rtc and
--     Hal/Dma are SPI and I2C, the clock and the DMA controller of src/hal/virt_periph.c, and Echo is
--     about what comes back over the SPI.
--   Ota/Flash, Ota/Checksum, Ota/Firmware and Ota/Bootloader are src/ota/bootloader.c: the simulated
--     flash, CRC-32, the firmware header and its validation, and the choice of the slot to start.
--     Ota/Manager is src/ota/ota_manager.c, the state machine of an update; Update assembles its
--     chunks in flash, Partial is about chunks that are not of whole words, Reads about the
--     reads of an update that is finalized, Once about sequences of calls, Limits about what it
--     refuses and has checked, Install and Outcome about a whole update and Apply about the switch to
--     it; Settings holds its callbacks and names. Bootloader/Images is about the images of a start.
--     The addresses and sizes that bootloader.h defines are a parameter, a Layout, and source_layout
--     is their values. With these both slots lie behind the array of the simulated flash.
--     Ota/Dump holds the version and flash_dump. Ota/Sample holds test data.
--   Protocols/Crc and Protocols/Packet are src/protocols/comm_protocol.c: the CRC table and its
--     loop, and the creation and parsing of packets. Crc/Polynomial and Crc/Detection are about the
--     table and about changed messages, Packet/Layout, RoundTrip, Parse and Corruption about packets;
--     Packet/Messages holds the commands, their names and the functions that make one kind of packet.
--   Utils/Logger is src/utils/logger.c, with the bytes that go to the stream: Filter is about the level
--     and Dump about logger_hex_dump.
--   Algorithms is src/algorithms/kalman_filter.c: Kalman1d, Kalman2d and Kalman3d the filters of one,
--     two and three dimensions, and Filters the other helpers, of which moving_average keeps a state.
--     Update, Predict, Fill and Windowed are about an update, about the model of constant velocity,
--     about the matrices of three dimensions, and about moving_average.
--   App/Comm is src/app/comm_task.c. Its static data, its locals, the counters that hal.c keeps and
--     the packets on the line are one record; comm_round is a round of the loop. Sending and Answers
--     join it to the parser at the other end, Line and Silence to the simulated line.
--   App/Sensor is src/app/sensor_task.c, a record for its static data and its locals, and
--     sensor_round for a round of its loop; Rounds is about many rounds, and Served joins it to the
--     communication task. App/Monitor is src/app/monitor_task.c in the same form, with Memory about
--     what it reports. App/MainLoop holds the set-up and a round of the loop of main.c.
--     App/Startup puts main.c, the tick and the loop of the sensor task together, a step at a time: a
--     place in the code is part of the state. Hang follows the program from its first tick, with what the
--     terminal shows of it.
--   Simulator/Board, Gpio, Interrupts, Perf and Memory are simulator/virt_board.c: the board and its
--     ticks, the pins, the interrupts, the performance counters, and the memory and the values that it
--     reports. Simulator/Display is the bars of simulator/visualization.c: Bars is about those of the
--     progress, and Load about those of the dashboard.
--
-- Conventions. A C pointer that the code tests for NULL is an Option. A function that reads or
-- writes memory returns an Option around its result, and none stands for an access out of bounds,
-- so that a theorem that gives a result of the form some shows the accesses to be in bounds.
-- Integers are natural numbers with the wrap-around of their width written out; size_t has 64 bits.
-- Where a loop takes fuel, the fuel is one more than the number of bytes to copy, which is enough
-- since every round copies at least one byte; a chunk of an update takes a round for each four
-- bytes, and a dump of memory one for each sixteen. The fuel of start and delay is the number of
-- rounds that an observer watches. malloc is a parameter, a function from a size to a block or
-- none. Task functions are a parameter of the scheduler, what an interrupt handler does is a
-- parameter of the board, and random numbers and the host's clock are arguments.
--
-- A float is an element of a type F that is a parameter, with its operations in the record Float of
-- Base/Float and what IEEE 754 says of them in the record Laws, without associativity; the two zeros
-- are one element. Base/Float/Fixed gives numbers of thousandths that have these laws, for tests. A
-- float that is only copied is the list of its four bytes. The readings of other tasks within a
-- round of a loop, the keys and the signals of main.c are arguments.
--
-- Not modelled: printing other than the logger's, and sleeping, which change no state of the model;
-- the rest of the terminal display (simulator/visualization.c), which is fixed text and the values
-- that it is called with; and the statistics that are only printed.
pub mod Base
pub mod Kernel
pub mod Utils
pub mod Protocols
pub mod Hal
pub mod Ota
pub mod Algorithms
pub mod App
pub mod Simulator
