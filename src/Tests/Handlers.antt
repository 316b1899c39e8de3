-- ===== src/Tests/Handlers.antt =====
-- Examples for grbl_protocol.c.
use ecmc_plugin_grbl.Base.{ℕ, ◌≡◌, ◌⊎◌, refl, true, false, some, [], ◌∷◌, arith, replicate}
use mathlib.Core.Option
use ecmc_plugin_grbl.System.{
  State, alarm, cycle, exec_none, clear_exec_state_flag, clear_exec_alarm,
}
use ecmc_plugin_grbl.Planner.{plan_get_current_block}
use ecmc_plugin_grbl.Protocol.{Core}
use ecmc_plugin_grbl.Protocol.Line.{Line, Answer, no_flags, filter_line, end_of_line}
use ecmc_plugin_grbl.Protocol.Line.Answers.{single_character_unanswered}
use ecmc_plugin_grbl.Protocol.Overrides.{
  new_override, exec_motion_override, exec_accessory_override,
}
use ecmc_plugin_grbl.Protocol.Overrides.Bounds.{new_override_lem}
use ecmc_plugin_grbl.Protocol.Realtime.{
  exec_alarm, protocol_exec_rt_system, exec_flags, exec_status_report, exec_hold, exec_sleep,
  exec_cycle_start, exec_cycle_stop, exec_overrides, resume, resume_door, start_cycle,
}
use ecmc_plugin_grbl.Protocol.Realtime.Served.{AllServed, all_served}
use ecmc_plugin_grbl.Protocol.Realtime.States.{alarm_stays}
use ecmc_plugin_grbl.Protocol.Realtime.Cycle.{Starts, cycle_needs_request}
use ecmc_plugin_grbl.Tests.{whole, system, no_requests, core}

-- A status report, a feed hold and a cycle start are requested in a cycle.
abbrev requested : Core ℕ
requested = record core {
  sys = record system { state = cycle };
  rt = record no_requests {
    exec_state = record exec_none { status_report = true; feed_hold = true; cycle_start = true };
  };
}

all_served_example : AllServed whole (protocol_exec_rt_system whole requested)
unfolding exec_alarm
all_served_example = all_served whole requested refl

abbrev starting : Core ℕ
starting = record core {
  rt = record no_requests { exec_state = record exec_none { cycle_start = true } };
}

started : (protocol_exec_rt_system whole starting).sys.state ≡ cycle
unfolding protocol_exec_rt_system exec_alarm exec_flags exec_status_report exec_hold exec_sleep
    exec_cycle_start exec_cycle_stop exec_overrides resume resume_door start_cycle
    exec_motion_override exec_accessory_override clear_exec_state_flag plan_get_current_block
started = refl

cycle_needs_request_example :
    (State.idle ≡ cycle) ⊎ Starts whole (record exec_none { cycle_start = true }) starting
unfolding exec_alarm
cycle_needs_request_example = cycle_needs_request whole starting started

-- A probe alarm, with a cycle start and a feed hold.
abbrev alarmed : Core ℕ
alarmed = record requested { rt = record requested.rt { exec_alarm = 4 } }

alarm_stays_example : (protocol_exec_rt_system whole alarmed).sys.state ≡ alarm
unfolding exec_alarm clear_exec_alarm
alarm_stays_example = alarm_stays whole alarmed refl refl refl

-- A hard limit.
abbrev limit_hit : Core ℕ
limit_hit = record requested { rt = record requested.rt { exec_alarm = 1 } }

-- Both decrements at the lower bound.
new_override_lem_example : new_override false false true false true 10 ≡ 200
new_override_lem_example =
    new_override_lem 10 (omega arith) (omega arith) false false true false true

abbrev fresh_line : Line
fresh_line = record { chars = replicate 80 0; flags = no_flags; char_counter = 0 }

-- `G`
single_character_unanswered_example :
    Option.map
      (λ (r : Answer × Line). r.0)
      (end_of_line false State.idle (filter_line fresh_line (71 ∷ [])))
    ≡ some Answer.no_report
single_character_unanswered_example =
    single_character_unanswered State.idle fresh_line 71 refl refl refl refl (λ e. omega arith)
      (λ e. omega arith) refl
