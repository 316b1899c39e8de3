-- ===== src/Stepper/Block.antt =====
-- grbl_stepper.c: an axis over all segments of a block, as the interrupt executes them.
use native.Mathlib.Nat.{mul-add, add-mul, mul_left_comm}
use ecmc_plugin_grbl.Base.{
  ℕ, zero, suc, ◌+◌, ◌-◌, ◌*◌, ◌/◌, ◌^◌, ◌≤◌, ◌<◌, ◌≡◌, refl, ◌∙◌, ap, arith, List, [], ◌∷◌,
}
use ecmc_plugin_grbl.Stepper.{shift_right, axis_counter}
use ecmc_plugin_grbl.Stepper.Axis.{counter_after, steps_taken, after-exact}

-- A segment by its AMASS level and its number of events.
abbrev pub Segments : Type 0
Segments = List (ℕ × ℕ)

-- The counter after the segments, and the steps that were taken.
unfoldable pub block_counter : ℕ → ℕ → ℕ → Segments → ℕ
block_counter count steps counter [] = counter
block_counter count steps counter ((level, n) ∷ rest) =
    block_counter count steps (counter_after count (shift_right steps level) counter n) rest

unfoldable pub block_steps : ℕ → ℕ → ℕ → Segments → ℕ
block_steps count steps counter [] = 0
block_steps count steps counter ((level, n) ∷ rest) =
    steps_taken count (shift_right steps level) counter n
    + block_steps count steps (counter_after count (shift_right steps level) counter n) rest

-- The events of the block that the segments execute, in eighths of an event: at level 3 an event of a
-- segment is one of them.
unfoldable pub eighths : Segments → ℕ
eighths [] = 0
eighths ((level, n) ∷ rest) = n * 2 ^ (3 - level) + eighths rest

pub data Levels : Segments → Type 0 where
  done : Levels []
  more : {level n : ℕ} {rest : Segments} → level ≤ 3 → Levels rest → Levels ((level, n) ∷ rest)

shift-exact : (s level : ℕ) → level ≤ 3 → shift_right (s * 8) level ≡ s * 2 ^ (3 - level)
shift-exact s zero h = omega arith
shift-exact s (suc zero) h = omega arith
shift-exact s (suc (suc zero)) h = omega arith
shift-exact s (suc (suc (suc zero))) h = omega arith
shift-exact s (suc (suc (suc (suc n)))) h = omega arith

shift-bounded : (s level : ℕ) → level ≤ 3 → shift_right (s * 8) level ≤ s * 8
shift-bounded s zero h = omega arith
shift-bounded s (suc zero) h = omega arith
shift-bounded s (suc (suc zero)) h = omega arith
shift-bounded s (suc (suc (suc zero))) h = omega arith
shift-bounded s (suc (suc (suc (suc n)))) h = omega arith

event-positive :
    (count steps counter : ℕ)
    → 0 < counter
    → counter ≤ count
    → steps ≤ count
    → count < 2147483648
    → 0 < axis_counter count steps counter
unfolding axis_counter
event-positive count steps counter z h s b = ground arith

after-positive :
    (count steps counter n : ℕ)
    → 0 < counter
    → counter ≤ count
    → steps ≤ count
    → count < 2147483648
    → 0 < counter_after count steps counter n
unfolding counter_after
after-positive count steps counter zero z h s b = z
after-positive count steps counter (suc n) z h s b =
    event-positive count steps (counter_after count steps counter n)
      (after-positive count steps counter n z h s b) (after-exact count steps counter n h s b).1 s b

-- The increments of one segment and of the rest add up.
account :
    (count s middle last taken rest counter n e r : ℕ)
    → middle + taken * count ≡ counter + n * (s * e)
    → last + rest * count ≡ middle + s * r
    → last + (taken + rest) * count ≡ counter + s * (n * e + r)
account count s middle last taken rest counter n e r f g =
    let left : (taken + rest) * count ≡ taken * count + rest * count = add-mul taken rest count in
    let right : s * (n * e + r) ≡ n * (s * e) + s * r =
      mul-add s (n * e) r ∙ ap (λ k. k + s * r) (mul_left_comm s n e) in
    omega arith

block-account :
    (count s counter : ℕ) (segments : Segments)
    → Levels segments
    → 0 < counter
    → counter ≤ count
    → s * 8 ≤ count
    → count < 2147483648
    → (block_counter count (s * 8) counter segments
          + block_steps count (s * 8) counter segments * count
        ≡ counter + s * eighths segments)
      × (0 < block_counter count (s * 8) counter segments)
      × (block_counter count (s * 8) counter segments ≤ count)
unfolding block_counter block_steps eighths
block-account count s counter [] done z h b l = (omega arith, z, h)
block-account count s counter ((level, n) ∷ rest) (more k ks) z h b l =
    let steps = shift_right (s * 8) level in
    let under = shift-bounded s level k in
    let small : steps ≤ count = omega arith in
    let (e, m) = after-exact count steps counter n h small l in
    let (f, p, q) =
      block-account count s (counter_after count steps counter n) rest ks
        (after-positive count steps counter n z h small l) m b l in
    (
      account count s (counter_after count steps counter n) _ (steps_taken count steps counter n) _
          counter n (2 ^ (3 - level)) (eighths rest)
          (e ∙ ap (λ v. counter + n * v) (shift-exact s level k)) f,
      p,
      q,
    )

unique :
    (count taken s c h : ℕ)
    → c + taken * count ≡ h + s * count
    → 0 < c
    → c ≤ count
    → 0 < h
    → h < count
    → taken ≡ s
unique count zero zero c h e z l y b = refl
unique count zero (suc s) c h e z l y b = omega arith
unique count (suc k) zero c h e z l y b = omega arith
unique count (suc k) (suc s) c h e z l y b = ap suc (unique count k s c h (omega arith) z l y b)

returned :
    (count s half last taken : ℕ)
    → last + taken * count ≡ half + s * count
    → taken ≡ s
    → last ≡ half
returned count s half last taken e t =
    let same : taken * count ≡ s * count = ap (λ k. k * count) t in omega arith

-- When the segments of a block, of any AMASS levels up to 3, execute all its events, an axis whose
-- counter starts at half of the number of events makes exactly the steps of the block, and its counter
-- is back at the half. The block has at least as many events as the axis has steps, fewer than 2^28,
-- and both are stored shifted left by 3.
pub block_exact :
    (events s : ℕ) (segments : Segments)
    → Levels segments
    → 0 < events
    → s ≤ events
    → events < 268435456
    → eighths segments ≡ events * 8
    → (block_steps (events * 8) (s * 8) (events * 8 / 2) segments ≡ s)
      × (block_counter (events * 8) (s * 8) (events * 8 / 2) segments ≡ events * 8 / 2)
block_exact events s segments v z h b e =
    let half : ℕ = events * 8 / 2 in
    let (f, p, q) =
      block-account (events * 8) s half segments v (omega arith) (omega arith) (omega arith)
        (omega arith) in
    let account = f ∙ ap (λ n. half + s * n) e in
    let all = unique (events * 8) _ s _ half account p q (omega arith) (omega arith) in
    (all, returned (events * 8) s half _ _ account all)
