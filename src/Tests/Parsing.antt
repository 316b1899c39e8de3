-- ===== src/Tests/Parsing.antt =====
-- Data for the examples of grbl_gcode.c: signed numbers in thousandths, and a machine that records the
-- calls.
use ecmc_plugin_grbl.Base.{
  ℕ, ◌+◌, ◌*◌, ◌/◌, ◌%◌, Bool, true, false, not, List, [], ◌∷◌, ltb, ◌==◌, if◌then◌else◌,
}
use ecmc_plugin_grbl.Base.Int.{ℤ, pos, negsuc, ◌+ℤ◌, ◌-ℤ◌, abs}
use ecmc_plugin_grbl.Base.Float.{Float, Vec3, vec3}
use ecmc_plugin_grbl.System.{State}
use ecmc_plugin_grbl.Planner.{LineData}
use ecmc_plugin_grbl.Protocol.{Spindle}
use ecmc_plugin_grbl.Gcode.{Motion, Plane, ProgramFlow, ParserState, Modules, Grbl}
use ecmc_plugin_grbl.Tests.{isqrt}
use ecmc_plugin_grbl.Tests.Storage.{config}

-- An integer as a natural number: twice a positive one, and odd a negative one.
abbrev pub decode : ℕ → ℤ
decode n = if n % 2 == 0 then pos (n / 2) else negsuc (n / 2)

abbrev pub encode : ℤ → ℕ
encode (pos n) = 2 * n
encode (negsuc n) = 2 * n + 1

abbrev is_negative : ℕ → Bool
is_negative n = n % 2 == 1

abbrev signed : Bool → ℕ → ℕ
signed minus n = encode (if minus then pos 0 -ℤ pos n else pos n)

abbrev magnitude : ℕ → ℕ
magnitude n = abs (decode n)

abbrev differ : Bool → Bool → Bool
differ true b = not b
differ false b = b

abbrev less : ℤ → ℤ → Bool
less (pos a) (pos b) = ltb a b
less (pos a) (negsuc b) = false
less (negsuc a) (pos b) = true
less (negsuc a) (negsuc b) = ltb b a

abbrev rounded : ℤ → ℤ
rounded (pos n) = pos ((n + 500) / 1000)
rounded (negsuc n) = pos 0 -ℤ pos ((n + 501) / 1000)

abbrev pub milli : Float
milli = record {
  F = ℕ;
  literal = λ n d. encode (pos (n * 1000 / d));
  add = λ a b. encode (decode a +ℤ decode b);
  sub = λ a b. encode (decode a -ℤ decode b);
  mul = λ a b. signed (differ (is_negative a) (is_negative b)) (magnitude a * magnitude b / 1000);
  div = λ a b. signed (differ (is_negative a) (is_negative b)) (magnitude a * 1000 / magnitude b);
  neg = λ a. encode (pos 0 -ℤ decode a);
  fabs = λ a. encode (pos (magnitude a));
  sqrt = λ a. encode (pos (isqrt 200 (magnitude a * 1000)));
  lt = λ a b. less (decode a) (decode b);
  eq = λ a b. a == b;
  same_bytes = λ a b. a == b;
  to_uint8 = λ a. magnitude a / 1000 % 256;
  to_int32 = λ a. pos (magnitude a / 1000);
  lround = λ a. rounded (decode a);
  of_int = λ a. encode (if less a (pos 0) then pos 0 -ℤ pos (abs a * 1000) else pos (abs a * 1000));
}

pub data Event : Type 0 where
  spindle_sync spindle_set_state : Spindle → ℕ → Event
  coolant_sync coolant_set_state : Bool → Event
  mc_dwell : ℕ → Event
  mc_line : Vec3 ℕ → LineData ℕ → Event
  mc_arc : Vec3 ℕ → Vec3 ℕ → ℕ → Bool → Event
  flag_wco_change start_jog buffer_synchronize set_feed_hold execute_realtime : Event
  restore_overrides report_program_end report_setting_read_fail : Event

-- The calls, the latest first.
abbrev pub Trace : Type 0
Trace = List Event

abbrev pub recorder : State → Modules ℕ Trace
recorder s = record {
  state = λ _. s;
  sys_position = λ _. vec3 (pos 0) (pos 0) (pos 0);
  has_current_block = λ _. true;
  spindle_sync = λ d v t. Event.spindle_sync d v ∷ t;
  coolant_sync = λ c t. Event.coolant_sync c ∷ t;
  spindle_set_state = λ d v t. Event.spindle_set_state d v ∷ t;
  coolant_set_state = λ c t. Event.coolant_set_state c ∷ t;
  mc_dwell = λ p t. Event.mc_dwell p ∷ t;
  flag_wco_change = λ t. Event.flag_wco_change ∷ t;
  mc_line = λ v pl t. Event.mc_line v pl ∷ t;
  mc_arc = λ v pl p o r plane cw t. Event.mc_arc v o r cw ∷ t;
  start_jog = λ t. Event.start_jog ∷ t;
  buffer_synchronize = λ t. Event.buffer_synchronize ∷ t;
  set_feed_hold = λ t. Event.set_feed_hold ∷ t;
  execute_realtime = λ t. Event.execute_realtime ∷ t;
  restore_overrides = λ t. Event.restore_overrides ∷ t;
  report_program_end = λ t. Event.report_program_end ∷ t;
  report_setting_read_fail = λ t. Event.report_setting_read_fail ∷ t;
}

abbrev pub idle_machine : Modules ℕ Trace
idle_machine = recorder State.idle

-- G1 with a feed rate of 100, at the origin.
abbrev pub parser : ParserState ℕ
parser = record {
  modal = record {
    motion = Motion.linear;
    feed_rate = false;
    units = false;
    distance = false;
    plane_select = Plane.xy;
    tool_length = false;
    coord_select = 0;
    program_flow = ProgramFlow.running;
    coolant = false;
    spindle = Spindle.disable;
  };
  spindle_speed = 0;
  feed_rate = 200000;
  tool = 0;
  line_number = pos 0;
  position = vec3 0 0 0;
  coord_system = vec3 0 0 0;
  coord_offset = vec3 0 0 0;
  tool_length_offset = 0;
}

abbrev pub grbl : Grbl ℕ Trace
grbl = record { gc = parser; config = config; rest = [] }
