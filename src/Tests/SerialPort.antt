-- ===== src/Tests/SerialPort.antt =====
-- Examples for grbl_serial.c.
use ecmc_plugin_grbl.Base.{
  ℕ, ◌-◌, ◌≡◌, refl, true, false, some, List, [], ◌∷◌, ◌++◌, arith, inl, inr, if◌then◌else◌, leb,
}
use mathlib.Core.Option
use ecmc_plugin_grbl.Serial.{
  Buffer, Input, empty_buffer, rx_ring_buffer, tx_ring_buffer, rx_buffer_count, rx_buffer_available,
  serial_read, serial_write, store, write_command_serial,
}
use ecmc_plugin_grbl.Serial.Receive
use ecmc_plugin_grbl.Serial.Transmit
use ecmc_plugin_grbl.Serial.Commands.{stream, write_command_serial_refines, feed_hold_taken}
use ecmc_plugin_grbl.Serial.Deadlock.{grbl, Shared, no_step, then_step, spin, stuck_forever}
use ecmc_plugin_grbl.Tests.{system, no_requests}

-- The head has wrapped: 99, 100 and 0 hold unread bytes.
abbrev wrapped : Buffer
wrapped = record (empty_buffer rx_ring_buffer) { head = 1; tail = 99 }

wrapped-IsValid : Receive.IsValid wrapped
wrapped-IsValid = record { cells_in = refl; head_in = omega arith; tail_in = omega arith }

abbrev full : Buffer
full = record (empty_buffer rx_ring_buffer) { head = 5; tail = 6 }

full-IsValid : Receive.IsValid full
full-IsValid = record { cells_in = refl; head_in = omega arith; tail_in = omega arith }

abbrev sending : Buffer
sending = record (empty_buffer tx_ring_buffer) { head = 2; tail = 100 }

sending-IsValid : Transmit.IsValid sending
sending-IsValid = record { cells_in = refl; head_in = omega arith; tail_in = omega arith }

abbrev idle_input : Input
idle_input = record {
  rx = wrapped;
  machine = record { sys = system; rt = no_requests; stepper_enabled = false };
}

-- `G1!` and a line feed.
abbrev held_line : List ℕ
held_line = 71 ∷ 49 ∷ 33 ∷ 0x90 ∷ 10 ∷ []

serial_read_refines_example :
    let (c, b') = serial_read wrapped in
    (c, Receive.unread b') ≡ Receive.read_of (Receive.unread wrapped)
serial_read_refines_example = Receive.serial_read_refines wrapped-IsValid

count_lem_example : rx_buffer_count wrapped ≡ (if leb 99 1 then 3 else 3 - 1)
count_lem_example = Receive.count_lem wrapped-IsValid

store-overflow_example : Receive.unread (store rx_ring_buffer full 71) ≡ []
store-overflow_example = Receive.store-overflow 71 full-IsValid refl

serial_write_refines_example :
    Option.map Transmit.pending (serial_write sending 71)
    ≡ Transmit.write_of (Transmit.pending sending) 71
serial_write_refines_example = Transmit.serial_write_refines 71 sending-IsValid

write_command_serial_refines_example :
    Receive.IsValid (write_command_serial false held_line idle_input).rx
    × (Receive.unread (write_command_serial false held_line idle_input).rx
        ≡ Receive.unread wrapped ++ stream held_line)
unfolding rx_buffer_available
write_command_serial_refines_example =
    write_command_serial_refines false held_line idle_input refl wrapped-IsValid (omega arith)

feed_hold_taken_example :
    (write_command_serial true held_line idle_input).machine.rt.exec_state.feed_hold ≡ true
feed_hold_taken_example = feed_hold_taken true held_line idle_input (inr (inr (inl refl)))

abbrev stuck : Shared
stuck = record {
  buffer = record (empty_buffer tx_ring_buffer) { head = 3; tail = 4 };
  owner = some grbl;
  waiting = some 111;
  reset = false;
}

stuck_forever_example : stuck ≡ stuck
stuck_forever_example =
    stuck_forever (then_step no_step (spin stuck 111 refl refl refl))
      (record { held = refl; byte = 111; waits = refl; full = refl }) refl
