-- ===== src/Protocol/Overrides/Bounds.antt =====
-- grbl_protocol.c: the values that the overrides take.
use ecmc_plugin_grbl.Base.{
  ℕ, ◌+◌, ◌-◌, ◌≤◌, ◌≡◌, Bool, leb, not, ◌||◌, ◌==◌, ◌⊎◌, inl, inr, Bool-cases, if◌then◌else◌,
  arith,
}
use ecmc_plugin_grbl.Base.Float.{Float}
use ecmc_plugin_grbl.System.{System, MotionOverride}
use ecmc_plugin_grbl.Protocol.{Core}
use ecmc_plugin_grbl.Protocol.Overrides.{
  new_override, new_f_override, new_r_override, exec_motion_override, apply_motion_override,
  any_motion,
}

-- The bounds of an override.
abbrev pub clamp : ℕ → ℕ
clamp n = if leb n 10 then 10 else if leb n 200 then n else 200

-- What the flags add, and what they take away.
abbrev pub weight : Bool → Bool → ℕ
weight coarse fine = (if coarse then 10 else 0) + (if fine then 1 else 0)

-- An override is always between 10 and 200.
pub new_override-bounds :
    (reset cp cm fp fm : Bool) (old : ℕ)
    → (10 ≤ new_override reset cp cm fp fm old) × (new_override reset cp cm fp fm old ≤ 200)
unfolding new_override
new_override-bounds reset cp cm fp fm old = (ground arith, ground arith)

module _ (old : ℕ) (low : 10 ≤ old) (high : old ≤ 200) where
  -- From a value from 10 to 200, the new override is the sum of the increments, clamped, except
  -- that a sum below zero wraps around and gives the maximum.
  pub new_override_lem :
      (reset cp cm fp fm : Bool)
      → let base = if reset then 100 else old in
        new_override reset cp cm fp fm old ≡ (
          if leb (weight cm fm) (base + weight cp fp)
          then clamp (base + weight cp fp - weight cm fm)
          else 200)
  unfolding new_override
  new_override_lem reset cp cm fp fm = ground arith

-- A rapid override has one of its three values.
abbrev pub IsRapid : ℕ → Type 0
IsRapid n = (n ≡ 100) ⊎ (n ≡ 50) ⊎ (n ≡ 25)

-- The override values are within their bounds.
pub record InRange (s : System) : Type 0 where
  pub f_low : 10 ≤ s.f_override
  pub f_high : s.f_override ≤ 200
  pub rapid : IsRapid s.r_override
  pub s_low : 10 ≤ s.spindle_speed_ovr
  pub s_high : s.spindle_speed_ovr ≤ 200

new_r_override-IsRapid :
    (r : MotionOverride) (old : ℕ) → IsRapid old → IsRapid (new_r_override r old)
unfolding new_r_override
new_r_override-IsRapid r old h = ground arith

module _ (fl : Float) where
  -- Override values within their bounds are within them after the motion overrides.
  pub motion_override-InRange :
      (m : Core fl.F) → InRange m.sys → InRange (exec_motion_override fl m).sys
  unfolding exec_motion_override apply_motion_override new_f_override
  motion_override-InRange m v = elim (Bool-cases (any_motion m.rt.motion)) [
    | inl h ↦ rw h (elim (Bool-cases (not (f == m.sys.f_override) || not (r == m.sys.r_override))) [
      | inl g ↦ rw g (record {
        f_low = bounds.0;
        f_high = bounds.1;
        rapid = new_r_override-IsRapid m.rt.motion m.sys.r_override v.rapid;
        s_low = v.s_low;
        s_high = v.s_high;
      })
      | inr g ↦ rw g v
    ])
    | inr h ↦ rw h v
  ]
    where
      o : MotionOverride
      o = m.rt.motion

      f : ℕ
      f = new_f_override o m.sys.f_override

      r : ℕ
      r = new_r_override o m.sys.r_override

      bounds : (10 ≤ f) × (f ≤ 200)
      bounds =
          new_override-bounds o.feed_reset o.feed_coarse_plus o.feed_coarse_minus o.feed_fine_plus
            o.feed_fine_minus m.sys.f_override
