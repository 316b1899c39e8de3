-- ===== src/Serial.antt =====
-- grbl_serial.c: the receive and transmit buffers between ecmc and grbl, and the real-time
-- commands that are picked off the incoming characters.
pub mod Receive
pub mod Commands
pub mod Transmit
pub mod Deadlock
use ecmc_plugin_grbl.Base.{
  ℕ, ◌+◌, ◌-◌, ◌%◌, ◌^◌, Bool, true, false, not, ◌&&◌, List, [], ◌∷◌, Option, none, some, leb, ltb,
  ◌==◌, if◌then◌else◌, get_or, set, length, replicate,
}
use ecmc_plugin_grbl.System.{
  State, jog, ExecState, MotionOverride, AccessoryOverride, exec_none, motion_none, accessory_none,
  set_exec_state_flag, set_exec_motion_override_flag, set_exec_accessory_override_flag,
}
use ecmc_plugin_grbl.MotionControl.{Machine, mc_reset}

abbrev pub rx_buffer_size : ℕ
rx_buffer_size = 100

abbrev pub rx_ring_buffer : ℕ
rx_ring_buffer = 101

abbrev pub tx_buffer_size : ℕ
tx_buffer_size = 104

abbrev pub tx_ring_buffer : ℕ
tx_ring_buffer = 105

abbrev pub no_data : ℕ
no_data = 0xff

-- A buffer array with its two indices. Every use of one runs under its mutex.
pub record Buffer : Type 0 where
  pub cells : List ℕ
  pub head : ℕ
  pub tail : ℕ

-- `uint16_t` addition
abbrev pub add16 : ℕ → ℕ → ℕ
add16 a b = (a + b) % 2 ^ 16

-- The conversion to `uint16_t` of an `int` difference.
abbrev pub sub16 : ℕ → ℕ → ℕ
sub16 a b = (a + 2 ^ 16 - b) % 2 ^ 16

abbrev pub empty_buffer : ℕ → Buffer
empty_buffer size = record { cells = replicate size 0; head = 0; tail = 0 }

-- The number of bytes available in the receive buffer.
unfoldable pub rx_buffer_available : Buffer → ℕ
rx_buffer_available b =
    if leb b.tail b.head
    then sub16 rx_buffer_size (b.head - b.tail)
    else sub16 (sub16 b.tail b.head) 1

-- The number of bytes used in the receive buffer.
pub rx_buffer_count : Buffer → ℕ
rx_buffer_count b =
    if leb b.tail b.head then sub16 b.head b.tail else sub16 rx_buffer_size (b.tail - b.head)

-- The number of bytes used in the transmit buffer.
pub tx_buffer_count : Buffer → ℕ
tx_buffer_count b =
    if leb b.tail b.head then sub16 b.head b.tail else sub16 tx_ring_buffer (b.tail - b.head)

-- The index after `i`, in a `uint16_t`.
abbrev pub next_index : ℕ → ℕ → ℕ
next_index size i = if add16 i 1 == size then 0 else add16 i 1

-- The first byte of the receive buffer, whose place is zeroed, or SERIAL_NO_DATA.
pub serial_read : Buffer → ℕ × Buffer
serial_read b = if b.head == b.tail then (no_data, b) else (
  get_or b.cells b.tail 0,
  record b { cells = set b.cells b.tail 0; tail = next_index rx_ring_buffer b.tail },
)

-- A store at the head, which then moves on: the end of `serial_write` and of
-- `ecmc_add_char_to_buffer`.
abbrev pub store : ℕ → Buffer → ℕ → Buffer
store size b byte = record b { cells = set b.cells b.head byte; head = next_index size b.head }

-- `serial_write`, up to its wait: `none` while the buffer has no space.
pub serial_write : Buffer → ℕ → Option Buffer
serial_write b byte =
    if next_index tx_ring_buffer b.head == b.tail then none else some (store tx_ring_buffer b byte)

-- `ecmc_get_char_from_grbl_tx_buffer`, which has no test for an empty buffer.
pub get_char_from_tx_buffer : Buffer → ℕ × Buffer
get_char_from_tx_buffer b =
    (get_or b.cells b.tail 0, record b { tail = next_index tx_ring_buffer b.tail })

-- `serial_reset_read_buffer`
pub reset_read_buffer : Buffer → Buffer
reset_read_buffer b = record b { tail = b.head }

abbrev pub cmd_reset : ℕ
cmd_reset = 0x18

abbrev pub cmd_status_report : ℕ
cmd_status_report = b'?'

abbrev pub cmd_cycle_start : ℕ
cmd_cycle_start = b'~'

abbrev pub cmd_feed_hold : ℕ
cmd_feed_hold = b'!'

abbrev pub is_jog : State → Bool
is_jog jog = true
is_jog _ = false

-- The inner `switch`: the real-time characters of extended ASCII. Any other is thrown away.
pub extended_command : ℕ → Machine → Machine
unfolding set_exec_state_flag set_exec_motion_override_flag set_exec_accessory_override_flag
extended_command c m =
    let motion =
      λ (mask : MotionOverride). record m { rt = set_exec_motion_override_flag mask m.rt } in
    let accessory =
      λ (mask : AccessoryOverride). record m { rt = set_exec_accessory_override_flag mask m.rt } in
    if c == 0x84
    then record m { rt = set_exec_state_flag (record exec_none { safety_door = true }) m.rt }
    else if c == 0x85
    then (if is_jog m.sys.state
        then record m { rt = set_exec_state_flag (record exec_none { motion_cancel = true }) m.rt }
        else m)
    else if c == 0x90
    then motion (record motion_none { feed_reset = true })
    else if c == 0x91
    then motion (record motion_none { feed_coarse_plus = true })
    else if c == 0x92
    then motion (record motion_none { feed_coarse_minus = true })
    else if c == 0x93
    then motion (record motion_none { feed_fine_plus = true })
    else if c == 0x94
    then motion (record motion_none { feed_fine_minus = true })
    else if c == 0x95
    then motion (record motion_none { rapid_reset = true })
    else if c == 0x96
    then motion (record motion_none { rapid_medium = true })
    else if c == 0x97
    then motion (record motion_none { rapid_low = true })
    else if c == 0x99
    then accessory (record accessory_none { spindle_reset = true })
    else if c == 0x9A
    then accessory (record accessory_none { spindle_coarse_plus = true })
    else if c == 0x9B
    then accessory (record accessory_none { spindle_coarse_minus = true })
    else if c == 0x9C
    then accessory (record accessory_none { spindle_fine_plus = true })
    else if c == 0x9D
    then accessory (record accessory_none { spindle_fine_minus = true })
    else if c == 0x9E
    then accessory (record accessory_none { spindle_stop = true })
    else if c == 0xA0
    then accessory (record accessory_none { flood_toggle = true })
    else m

-- What `ecmc_add_char_to_buffer` reads and changes.
pub record Input : Type 0 where
  pub rx : Buffer
  pub machine : Machine

-- `data > 0x7F` for a `char`, which the platform makes signed (x86) or unsigned (ARM). The
-- character is given by its byte.
abbrev pub is_extended : Bool → ℕ → Bool
is_extended char_signed byte = not char_signed && ltb 0x7F byte

pub add_char_to_buffer : Bool → ℕ → Input → Input
unfolding mc_reset extended_command set_exec_state_flag
add_char_to_buffer char_signed byte i =
    let flag = λ (mask : ExecState). record i {
      machine = record i.machine { rt = set_exec_state_flag mask i.machine.rt };
    } in
    if byte == cmd_reset
    then record i { machine = mc_reset i.machine }
    else if byte == cmd_status_report
    then flag (record exec_none { status_report = true })
    else if byte == cmd_cycle_start
    then flag (record exec_none { cycle_start = true })
    else if byte == cmd_feed_hold
    then flag (record exec_none { feed_hold = true })
    else if is_extended char_signed byte
    then record i { machine = extended_command byte i.machine }
    else record i { rx = store rx_ring_buffer i.rx byte }

-- `ecmc_write_command_serial`: the characters of the line, under the mutex of the buffer. The
-- list holds no zero byte, since the loop ends at `strlen`.
pub write_command_serial : Bool → List ℕ → Input → Input
write_command_serial char_signed [] i = i
write_command_serial char_signed (c ∷ line) i =
    write_command_serial char_signed line (add_char_to_buffer char_signed c i)
