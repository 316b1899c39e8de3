-- ===== src/Stepper/Axis.antt =====
-- grbl_stepper.c: one axis over the events of a segment, by the Bresenham algorithm.
use ecmc_plugin_grbl.Base.{
  ℕ, zero, suc, ◌+◌, ◌*◌, ◌≤◌, ◌<◌, ◌≡◌, refl, arith, Bool, true, false, if◌then◌else◌,
}
use ecmc_plugin_grbl.Base.Int.{ℤ, pos, ◌+ℤ◌, ◌-ℤ◌}
use ecmc_plugin_grbl.Stepper.{axis_steps, axis_counter, one_step}

-- The counter after `n` events, and the steps that were taken.
unfoldable pub counter_after : ℕ → ℕ → ℕ → ℕ → ℕ
counter_after count steps counter zero = counter
counter_after count steps counter (suc n) =
    axis_counter count steps (counter_after count steps counter n)

unfoldable pub steps_taken : ℕ → ℕ → ℕ → ℕ → ℕ
unfolding counter_after
steps_taken count steps counter zero = 0
steps_taken count steps counter (suc n) =
    let taken = steps_taken count steps counter n in
    if axis_steps count steps (counter_after count steps counter n) then suc taken else taken

-- The position after so many steps.
abbrev pub travelled : Bool → ℕ → ℤ → ℤ
travelled backward n position = if backward then position -ℤ pos n else position +ℤ pos n

event-exact :
    (count steps counter : ℕ)
    → counter ≤ count
    → steps ≤ count
    → count < 2147483648
    → (axis_counter count steps counter + (if axis_steps count steps counter then count else 0)
        ≡ counter + steps)
      × (axis_counter count steps counter ≤ count)
unfolding axis_counter
event-exact count steps counter h s b = ground arith

travelled-one_step :
    (b : Bool) (n : ℕ) (p : ℤ) → one_step b (travelled b n p) ≡ travelled b (suc n) p
travelled-one_step b n p = ground arith

pub travelled-zero : (b : Bool) (p : ℤ) → travelled b 0 p ≡ p
travelled-zero b p = ground arith

-- The account of `n` events and of one more.
account :
    (b : Bool) (taken count steps counter n before now : ℕ)
    → before + taken * count ≡ counter + n * steps
    → now + (if b then count else 0) ≡ before + steps
    → now + (if b then suc taken else taken) * count ≡ counter + suc n * steps
account true taken count steps counter n before now e f = omega arith
account false taken count steps counter n before now e f = omega arith

-- The counter stays below the number of events of the block, and the steps that were taken and the
-- counter account for all increments.
pub after-exact :
    (count steps counter n : ℕ)
    → counter ≤ count
    → steps ≤ count
    → count < 2147483648
    → (counter_after count steps counter n + steps_taken count steps counter n * count
        ≡ counter + n * steps)
      × (counter_after count steps counter n ≤ count)
unfolding counter_after steps_taken
after-exact count steps counter zero h s b = (omega arith, h)
after-exact count steps counter (suc n) h s b =
    let (e, l) = after-exact count steps counter n h s b in
    let (f, k) = event-exact count steps (counter_after count steps counter n) l s b in
    (
      account (axis_steps count steps (counter_after count steps counter n))
          (steps_taken count steps counter n) count steps counter n _ _ e f,
      k,
    )

pub travel-event :
    (s b : Bool) (taken : ℕ) (p : ℤ)
    → (if s then one_step b (travelled b taken p) else travelled b taken p)
      ≡ travelled b (if s then suc taken else taken) p
travel-event true b taken p = travelled-one_step b taken p
travel-event false b taken p = refl
