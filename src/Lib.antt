-- ===== src/Lib.antt =====
-- Verification of the grbl plugin of ecmc: the C code under grbl/, a port of grbl 1.1 in which a thread
-- runs grbl's main loop and the ecmc thread writes commands to a simulated serial port.
--
-- A command goes through the program like this. The ecmc thread puts the characters of a line into the
-- receive buffer (grbl_serial.c), which picks out the real-time commands and turns them into flags
-- (grbl_system.c) or a reset (grbl_motion_control.c). The main loop (grbl_protocol.c) reads the buffer,
-- filters the line and answers it: a `$` command changes settings, which are kept in a simulated EEPROM
-- (grbl_settings.c, grbl_eeprom.c), and g-code is parsed, checked
-- and executed (grbl_gcode.c) as lines for the planner (grbl_planner.c). Between
-- lines `protocol_execute_realtime` serves the flags: it starts, holds and stops the motion, changes the
-- overrides and has the planner calculate its speeds anew. Numbers are read and printed by
-- grbl_nuts_bolts.c and grbl_print.c.
--
-- The files and the code that they are about:
--   Base: shared names; lists, Boolean tests and integers over native numbers, and floats.
--   Ring: circular buffers, for the serial port and the planner.
--   System: grbl/grbl_system.h and grbl/grbl_system.c, the global state, and the flags and their
--     handlers.
--   MotionControl: `mc_reset` of grbl/grbl_motion_control.c and `st_go_idle` of grbl/grbl_stepper.c.
--   Serial: grbl/grbl_serial.c. Receive and Transmit take the two buffers as queues, Commands is about
--     the characters of a line, and Deadlock about the two threads as steps on what they share.
--   Planner: grbl/grbl_planner.c. Recalculate has `planner_recalculate`, Profile the speeds under
--     overrides and two functions of grbl/grbl_nuts_bolts.c, Line has `plan_buffer_line`. Queue is about
--     the ring, Passes and Ends about the loops of the recalculation, Speed about entry speeds, Push
--     about a new line, and Reprofile about the bounds under new overrides.
--   Protocol: grbl/grbl_protocol.c. Line has the filter and the answers of `protocol_main_loop`, Realtime
--     and Overrides have `protocol_exec_rt_system`, with theorems in Realtime.Served, Realtime.States,
--     Realtime.Aborts, Realtime.Cycle, Overrides.Bounds and Overrides.Replan, and Suspension has the loop of
--     `protocol_exec_rt_suspend`.
--   Settings: grbl/grbl_settings.c. Commands has `settings_store_global_setting`, Restore
--     `settings_restore` and `settings_init`, Layout the addresses of the EEPROM.
--   Eeprom: grbl/grbl_eeprom.c.
--   Print: grbl/grbl_print.c.
--   NutsBolts: `read_float` of grbl/grbl_nuts_bolts.c; Value has its float.
--   Status: the status codes of grbl/grbl_report.h.
--   Gcode: grbl/grbl_gcode.c, with the data of grbl/grbl_gcode.h. Commands and Words have STEP 2 of
--     `gc_execute_line`, Checks, Offsets, MotionModes and Validate STEP 3, Execute and Motions STEP 4, and
--     Line the whole, with `gc_init` and `jog_execute` of grbl/grbl_jog.c. Words.Steps, Words.Runs,
--     Words.Once and Accepted are about the words of a line, Validate.Frame and Validate.Sound about a
--     block that passes the checks, Refused about errors, Jog about jogs, and Execute.Modes,
--     Execute.Position and Execute.Stored about what a block does.
--   Stepper: the segment buffer and the step interrupt `ecmc_grbl_main_rt_thread` of
--     grbl/grbl_stepper.c. Reset has `st_wake_up` and `st_reset`. Axis and Block are about the
--     Bresenham algorithm on one axis, Events about the three of them, Segments and Executed about the
--     calls that execute a segment.
--   Tests: concrete data and examples.
--
-- State is passed explicitly. A byte of flags is a record of Booleans, a pointer into the planner's ring
-- is an index, and an operation that calls another module either applies the model of the call or adds
-- it to a list of calls. The build is the default one: VARIABLE_SPINDLE is on, and PARKING_ENABLE, COREXY,
-- ENABLE_M7, USE_LINE_NUMBERS and DEBUG are off.
--
-- Bytes and indices of machine width keep their wrap-around. A `float` is a parameter, Base.Float, with
-- the operations that the code uses; a theorem that needs the order of floats takes its laws as an
-- argument. So are the bytes that C gives to the settings. `int32_t` positions are unbounded: their
-- overflow is undefined in C.
--
-- The loops of `planner_recalculate` and `plan_update_velocity_profile_parameters` run on fuel of
-- BLOCK_BUFFER_SIZE = 16. An index steps round the ring, so every index is reached within 16 steps; for
-- the recalculation Planner.Ends proves it. The digit loops of grbl_print.c have the size of their
-- buffers as fuel. The loop over the words of a line has the length of the line as fuel: each word takes
-- a character, and Gcode.Words.Runs proves that no word is left. All other loops are structural.
--
-- A pass of `protocol_exec_rt_system` is sequential: flags that another thread sets during the pass are
-- not modelled, except for the call of `mc_reset` that ends a critical alarm.
-- The step interrupt records the read of a NULL block pointer, which is undefined in C.
-- The g-code parser calls the other modules through an interface, Gcode.Modules, on a state of theirs: that
-- the main loop changes `gc_state` while such a call waits is not modelled. Not modelled are the
-- spindle speeds and the segment generator (`st_prep_buffer` of grbl_stepper.c), so its calls are only
-- recorded; the passes that run
-- during the delays of a restore; the reports; homing, limits and the probe, whose pins the port does not connect; the
-- `float` part of `printFloat`; and the C++ plugin.
pub mod Base
pub mod System
pub mod Ring
pub mod MotionControl
pub mod Serial
pub mod Print
pub mod NutsBolts
pub mod Eeprom
pub mod Status
pub mod Settings
pub mod Planner
pub mod Protocol
pub mod Tests
pub mod Gcode
pub mod Stepper
