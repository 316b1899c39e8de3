-- ===== src/Protocol/Overrides.antt =====
-- grbl_protocol.c: the override part of `protocol_exec_rt_system`. The three values are `uint8_t`.
pub mod Bounds
pub mod Replan
use ecmc_plugin_grbl.Base.{
  ℕ, ◌+◌, ◌-◌, ◌*◌, ◌%◌, Bool, true, false, not, ◌&&◌, ◌||◌, ltb, leb, ◌==◌, if◌then◌else◌, ◌≡◌,
  ◌≤◌, arith,
}
use ecmc_plugin_grbl.Base.Float.{Float}
use ecmc_plugin_grbl.System.{
  MotionOverride, AccessoryOverride, System, RtFlags, SpindleStop, stop_disabled,
  clear_exec_motion_overrides, clear_exec_accessory_overrides,
}
use ecmc_plugin_grbl.Planner.Profile.{plan_update_velocity_profile_parameters}
use ecmc_plugin_grbl.Planner.Recalculate.{plan_cycle_reinitialize}
use ecmc_plugin_grbl.Protocol.{
  Core, Call, call, set_spindle_state, is_idle, is_hold, is_stopping, allows_coolant,
}

-- `x += n` and `x -= n` for a `uint8_t`
abbrev pub add8 : ℕ → ℕ → ℕ
add8 x n = (x + n) % 256

abbrev pub sub8 : ℕ → ℕ → ℕ
sub8 x n = (x + 256 - n) % 256

-- The five flags of one override, and its new value: default 100, increments 10 and 1, then the
-- bounds 200 and 10. The feed and the spindle override have the same constants.
unfoldable pub new_override : Bool → Bool → Bool → Bool → Bool → ℕ → ℕ
new_override reset coarse_plus coarse_minus fine_plus fine_minus old =
    let a = if reset then 100 else old in
    let b = if coarse_plus then add8 a 10 else a in
    let c = if coarse_minus then sub8 b 10 else b in
    let d = if fine_plus then add8 c 1 else c in
    let e = if fine_minus then sub8 d 1 else d in
    let f = if ltb e 200 then e else 200 in if ltb 10 f then f else 10

unfoldable pub new_f_override : MotionOverride → ℕ → ℕ
new_f_override r old =
    new_override r.feed_reset r.feed_coarse_plus r.feed_coarse_minus r.feed_fine_plus
      r.feed_fine_minus old

unfoldable pub new_r_override : MotionOverride → ℕ → ℕ
new_r_override r old =
    let a = if r.rapid_reset then 100 else old in
    let b = if r.rapid_medium then 50 else a in if r.rapid_low then 25 else b

-- `sys_rt_exec_motion_override != 0`
abbrev pub any_motion : MotionOverride → Bool
any_motion r =
    r.feed_reset || r.feed_coarse_plus || r.feed_coarse_minus || r.feed_fine_plus
    || r.feed_fine_minus || r.rapid_reset || r.rapid_medium || r.rapid_low

abbrev pub any_accessory : AccessoryOverride → Bool
any_accessory r =
    r.spindle_reset || r.spindle_coarse_plus || r.spindle_coarse_minus || r.spindle_fine_plus
    || r.spindle_fine_minus || r.spindle_stop || r.flood_toggle || r.mist_toggle

module _ (fl : Float) where
  -- The new values, the planner with the profile for them, and the re-planning.
  unfoldable pub apply_motion_override : ℕ → ℕ → Core fl.F → Core fl.F
  apply_motion_override f r m =
      let sys : System = record m.sys { f_override = f; r_override = r; report_ovr_counter = 0 } in
      record m {
        sys = sys;
        planner =
            plan_cycle_reinitialize fl (plan_update_velocity_profile_parameters fl sys m.planner);
      }

  unfoldable pub exec_motion_override : Core fl.F → Core fl.F
  exec_motion_override m =
      let f = new_f_override m.rt.motion m.sys.f_override in
      let r = new_r_override m.rt.motion m.sys.r_override in
      let cleared : Core fl.F = record m { rt = clear_exec_motion_overrides m.rt } in
      if any_motion m.rt.motion
      then (if not (f == m.sys.f_override) || not (r == m.sys.r_override)
          then apply_motion_override f r cleared
          else cleared)
      else m

  unfoldable pub exec_spindle_override : AccessoryOverride → Core fl.F → Core fl.F
  exec_spindle_override r m =
      let s =
        new_override r.spindle_reset r.spindle_coarse_plus r.spindle_coarse_minus
          r.spindle_fine_plus r.spindle_fine_minus m.sys.spindle_speed_ovr in
      let changed : Core fl.F = record m { sys = record m.sys { spindle_speed_ovr = s } } in
      let updated : Core fl.F =
        if is_idle m.sys.state then set_spindle_state m.spindle changed else record changed {
          sys = record changed.sys {
            step_control = record changed.sys.step_control { update_spindle_pwm = true };
          };
        } in
      if not (s == m.sys.spindle_speed_ovr)
      then record updated { sys = record updated.sys { report_ovr_counter = 0 } }
      else m

  unfoldable pub exec_spindle_stop : AccessoryOverride → Core fl.F → Core fl.F
  exec_spindle_stop r m =
      let stop = m.sys.spindle_stop_ovr in
      let next : SpindleStop =
        if not (is_stopping stop)
        then record stop_disabled { initiate = true }
        else if stop.enabled
        then record stop { restore = true }
        else stop in
      if r.spindle_stop && is_hold m.sys.state
      then record m { sys = record m.sys { spindle_stop_ovr = next } }
      else m

  -- Without ENABLE_M7, both flags toggle the flood coolant.
  unfoldable pub exec_coolant : AccessoryOverride → Core fl.F → Core fl.F
  exec_coolant r m =
      if (r.flood_toggle || r.mist_toggle) && allows_coolant m.sys.state
      then record (call (Call.coolant_set_state (not m.flood)) m) { flood = not m.flood }
      else m

  unfoldable pub exec_accessory_override : Core fl.F → Core fl.F
  exec_accessory_override m =
      let r = m.rt.accessory in
      let cleared : Core fl.F = record m { rt = clear_exec_accessory_overrides m.rt } in
      if any_accessory r
      then exec_coolant r (exec_spindle_stop r (exec_spindle_override r cleared))
      else m
