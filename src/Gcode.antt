-- ===== src/Gcode.antt =====
-- grbl_gcode.h and grbl_gcode.c: the state of the g-code parser, the block that a line is parsed
-- into, and the interface of the modules that the parser calls. A mode with the values 0 and 1 is a
-- Boolean, a mode with more values an enumeration, and a set of bits a list of Booleans.
pub mod Result
pub mod Bits
pub mod Axes
pub mod Commands
pub mod Words
pub mod Checks
pub mod Offsets
pub mod MotionModes
pub mod Validate
pub mod Execute
pub mod Motions
pub mod Line
pub mod Refused
pub mod Accepted
pub mod Jog
use ecmc_plugin_grbl.Base.{ℕ, Bool, true, false, List}
use ecmc_plugin_grbl.Base.Int.{ℤ, pos}
use ecmc_plugin_grbl.Base.Float.{Float, Vec3, vec3}
use ecmc_plugin_grbl.System.{State}
use ecmc_plugin_grbl.Settings.{Config}
use ecmc_plugin_grbl.Planner.{LineData}
use ecmc_plugin_grbl.Protocol.{Spindle}
use ecmc_plugin_grbl.Gcode.Bits.{no_words}

-- Modal group G1, MOTION_MODE_SEEK to MOTION_MODE_NONE.
pub data Motion : Type 0 where
  seek linear cw_arc ccw_arc : Motion
  probe_toward probe_toward_no_error probe_away probe_away_no_error no_motion : Motion

-- Modal group G0, NON_MODAL_NO_ACTION to NON_MODAL_RESET_COORDINATE_OFFSET.
pub data NonModal : Type 0 where
  no_action dwell set_coordinate_data go_home_0 set_home_0 go_home_1 set_home_1 : NonModal
  absolute_override set_coordinate_offset reset_coordinate_offset : NonModal

-- PLANE_SELECT_XY, PLANE_SELECT_ZX, PLANE_SELECT_YZ
pub data Plane : Type 0 where
  xy zx yz : Plane

-- PROGRAM_FLOW_RUNNING, and what M0, M2 and M30 set; M1 sets nothing.
pub data ProgramFlow : Type 0 where
  running paused completed_m2 completed_m30 : ProgramFlow

-- AXIS_COMMAND_NONE to AXIS_COMMAND_TOOL_LENGTH_OFFSET
pub data AxisCommand : Type 0 where
  none non_modal motion_mode tool_length_offset : AxisCommand

-- `gc_modal_t`. True is FEED_RATE_MODE_INVERSE_TIME, UNITS_MODE_INCHES, DISTANCE_MODE_INCREMENTAL,
-- TOOL_LENGTH_OFFSET_ENABLE_DYNAMIC and COOLANT_FLOOD_ENABLE.
pub record Modal : Type 0 where
  pub motion : Motion
  pub feed_rate : Bool
  pub units : Bool
  pub distance : Bool
  pub plane_select : Plane
  pub tool_length : Bool
  pub coord_select : ℕ
  pub program_flow : ProgramFlow
  pub coolant : Bool
  pub spindle : Spindle

-- `gc_values_t`
pub record Values (F : Type 0) : Type 0 where
  pub f : F
  pub ijk : Vec3 F
  pub l : ℕ
  pub n : ℤ
  pub p : F
  pub r : F
  pub s : F
  pub t : ℕ
  pub xyz : Vec3 F

-- `parser_state_t`
pub record ParserState (F : Type 0) : Type 0 where
  pub modal : Modal
  pub spindle_speed : F
  pub feed_rate : F
  pub tool : ℕ
  pub line_number : ℤ
  pub position : Vec3 F
  pub coord_system : Vec3 F
  pub coord_offset : Vec3 F
  pub tool_length_offset : F

-- `gc_parser_flags`, GC_PARSER_JOG_MOTION to GC_PARSER_LASER_ISMOTION.
pub record ParserFlags : Type 0 where
  pub jog_motion : Bool
  pub arc_is_clockwise : Bool
  pub probe_is_away : Bool
  pub probe_is_no_error : Bool
  pub laser_force_sync : Bool
  pub laser_disable : Bool
  pub laser_is_motion : Bool

-- `parser_block_t`, with the local variables of `gc_execute_line` that the steps share.
pub record ParserBlock (F : Type 0) : Type 0 where
  pub non_modal_command : NonModal
  pub modal : Modal
  pub values : Values F
  pub axis_command : AxisCommand
  pub axis_words : Vec3 Bool
  pub ijk_words : Vec3 Bool
  pub command_words : List Bool
  pub value_words : List Bool
  pub flags : ParserFlags
  pub coord_select : ℕ
  pub block_coord_system : Vec3 F

-- The modules that the parser calls, on a state `S` of theirs.
pub record Modules (F S : Type 0) : Type 1 where
  pub state : S → State
  pub sys_position : S → Vec3 ℤ
  pub has_current_block : S → Bool
  pub spindle_sync : Spindle → F → S → S
  pub coolant_sync : Bool → S → S
  pub spindle_set_state : Spindle → F → S → S
  pub coolant_set_state : Bool → S → S
  pub mc_dwell : F → S → S
  pub flag_wco_change : S → S
  pub mc_line : Vec3 F → LineData F → S → S
  -- the target, the plan data, the position, the offset, the radius, the plane and the direction
  pub mc_arc : Vec3 F → LineData F → Vec3 F → Vec3 F → F → Plane → Bool → S → S
  pub start_jog : S → S
  pub buffer_synchronize : S → S
  pub set_feed_hold : S → S
  pub execute_realtime : S → S
  pub restore_overrides : S → S
  pub report_program_end : S → S
  pub report_setting_read_fail : S → S

-- What the parser works on: `gc_state`, the settings with the EEPROM, and the other modules.
pub record Grbl (F S : Type 0) : Type 0 where
  pub gc : ParserState F
  pub config : Config F
  pub rest : S

abbrev pub parser_none : ParserFlags
parser_none = record {
  jog_motion = false;
  arc_is_clockwise = false;
  probe_is_away = false;
  probe_is_no_error = false;
  laser_force_sync = false;
  laser_disable = false;
  laser_is_motion = false;
}

-- STEP 1: the zeroed block with the modes of the state.
unfoldable pub init_block : {F : Type 0} → F → ParserState F → ParserBlock F
init_block zero gc = record {
  non_modal_command = no_action;
  modal = gc.modal;
  values = record {
    f = zero;
    ijk = vec3 zero zero zero;
    l = 0;
    n = pos 0;
    p = zero;
    r = zero;
    s = zero;
    t = 0;
    xyz = vec3 zero zero zero;
  };
  axis_command = none;
  axis_words = vec3 false false false;
  ijk_words = vec3 false false false;
  command_words = no_words;
  value_words = no_words;
  flags = parser_none;
  coord_select = 0;
  block_coord_system = gc.coord_system;
}

-- The modes that a jog enforces.
abbrev pub jog_block : {F : Type 0} → ParserBlock F → ParserBlock F
jog_block b = record b {
  modal = record b.modal { motion = linear; feed_rate = false };
  flags = record b.flags { jog_motion = true };
}
