-- ===== src/Planner/Push.antt =====
-- grbl_planner.c: what `plan_buffer_line` does to the queue of blocks.
use ecmc_plugin_grbl.Base.{
  ℕ, suc, ◌≡◌, ◌≢◌, refl, sym, ap, ◌∙◌, arith, Bool, true, false, not, ◌&&◌, ◌==◌, ==→ne,
  if◌then◌else◌, List, [], ◌∷◌, ◌++◌, map, set, length-set, get_or-set_self,
}
use ecmc_plugin_grbl.Base.Int.{ℤ}
use ecmc_plugin_grbl.Base.Float.{Float, Vec3}
use ecmc_plugin_grbl.System.{System}
use ecmc_plugin_grbl.Settings.{Settings}
use ecmc_plugin_grbl.Ring.{used, window, window-set, window-set_outside, map-window, offset-used}
use ecmc_plugin_grbl.Planner.{
  Block, LineData, Planner, block_buffer_size, zero_block, set_block, block_at,
  plan_check_full_buffer,
}
use ecmc_plugin_grbl.Planner.Recalculate.{planner_recalculate}
use ecmc_plugin_grbl.Planner.Profile.{
  plan_compute_profile_nominal_speed, plan_compute_profile_parameters,
}
use ecmc_plugin_grbl.Planner.Line.{
  target_steps, step_counts, deltas, start_block, finish_block, push_block, plan_buffer_line,
}
use ecmc_plugin_grbl.Planner.Queue.{IsValid, count, queue}
use ecmc_plugin_grbl.Planner.Passes.{motion, Evolves, recalculate-Evolves}
use ecmc_plugin_grbl.Planner.Ends.{recalculate-IsValid}

map-append {ℓ κ} :
    {A : Type ℓ} {B : Type κ} (f : A → B) (xs ys : List A) → map f (xs ++ ys) ≡ map f xs ++ map f ys
map-append f [] ys = refl
map-append f (x ∷ xs) ys = ap (λ t. f x ∷ t) (map-append f xs ys)

-- No axis has a step to make.
abbrev pub is_still : Vec3 ℕ → Bool
is_still steps = (steps.x == 0) && (steps.y == 0) && (steps.z == 0)

still_iff :
    (fl : Float) (d : LineData fl.F) (steps : Vec3 ℕ) (delta : Vec3 fl.F)
    → ((start_block fl d steps delta).step_event_count == 0) ≡ is_still steps
unfolding start_block
still_iff fl d steps delta = ground arith

module _ (fl : Float) where
  -- The blocks of the queue without their entry speeds.
  abbrev pub motions : Planner fl.F → List (Block fl.F)
  motions p = map (motion fl) (queue fl p)

  pub motions-Evolves : {p q : Planner fl.F} → Evolves fl p q → motions q ≡ motions p
  motions-Evolves {p} {q} s =
      rw (s.tail, s.head)
        (map-window (motion fl) (zero_block fl) block_buffer_size q.block_buffer p.block_buffer
          s.same_motion (count p) p.tail)

  -- A write of the free block at the head.
  head-IsValid : (p : Planner fl.F) (b : Block fl.F) → IsValid p → IsValid (set_block fl p p.head b)
  head-IsValid p b v = record {
    size = length-set p.block_buffer p.head b ∙ v.size;
    tail = v.tail;
    head = v.head;
    next_head = v.next_head;
    planned = v.planned;
    between = v.between;
    inside = v.inside;
  }

  set_block-at :
      (p : Planner fl.F) (b : Block fl.F)
      → IsValid p
      → block_at fl (set_block fl p p.head b) p.head ≡ b
  set_block-at p b v = get_or-set_self p.block_buffer p.head b (zero_block fl) (rw v.size v.head)

  head-queue :
      (p : Planner fl.F) (b : Block fl.F)
      → IsValid p
      → queue fl (set_block fl p p.head b) ≡ queue fl p
  head-queue p b v =
      window-set_outside (zero_block fl) block_buffer_size b p.block_buffer (count p) p.tail
        (count p) p.head v.tail (omega arith) (ground (arith, v.head, v.tail))
        (sym (offset-used block_buffer_size p.head p.tail v.head v.tail))

  -- The block with its bound on the entry speed.
  abbrev pub profile : System → Planner fl.F → Block fl.F → Block fl.F
  profile sys p b =
      plan_compute_profile_parameters fl b (plan_compute_profile_nominal_speed fl sys b)
        p.previous_nominal_speed

  module _ (sys : System) (p : Planner fl.F) (v : IsValid p) (target : Vec3 ℤ) (u : Vec3 fl.F)
      (b : Block fl.F) where
    abbrev profiled : Block fl.F
    profiled = profile sys p b

    push-IsValid : p.next_head ≢ p.tail → IsValid (push_block fl sys p target u b)
    unfolding push_block
    push-IsValid ne = record {
      size = length-set p.block_buffer p.head profiled ∙ v.size;
      tail = v.tail;
      head = ground (arith, v.head, v.next_head);
      next_head = refl;
      planned = v.planned;
      between = ground (arith, v.head, v.tail, v.planned, v.next_head, v.between);
      inside = λ e. ground (arith, v.head, v.tail, v.planned, v.next_head, v.between);
    }

    push-position : (push_block fl sys p target u b).position ≡ target
    unfolding push_block
    push-position = refl

    push-at : block_at fl (push_block fl sys p target u b) p.head ≡ profiled
    unfolding push_block
    push-at = set_block-at p profiled v

    pushed :
        p.next_head ≢ p.tail
        → (push_block fl sys p target u b).head ≢ (push_block fl sys p target u b).tail
    unfolding push_block
    pushed ne = ne

    push-queue :
        p.next_head ≢ p.tail
        → queue fl (push_block fl sys p target u b) ≡ queue fl p ++ profiled ∷ []
    unfolding push_block
    push-queue ne =
        ap
          (λ n.
            window (zero_block fl) block_buffer_size (set p.block_buffer p.head profiled) n p.tail)
          count_more
        ∙ window-set (zero_block fl) block_buffer_size profiled p.block_buffer (count p) p.tail
            p.head (rw v.size (omega arith)) v.tail (ground (arith, v.head, v.tail))
            (sym (offset-used block_buffer_size p.head p.tail v.head v.tail))
      where
        count_more : used block_buffer_size p.next_head p.tail ≡ suc (count p)
        count_more = ground (arith, v.head, v.tail, v.next_head)

  -- What stands at `head`, where the line was planned: the block with its steps when the line has none, the whole
  -- block for a system motion, which `plan_get_system_motion_block` finds, and else the block with the
  -- bound on its entry speed, which the recalculation may have given its speed.
  abbrev pub PlannedAt :
      System → Planner fl.F → Block fl.F → Block fl.F → Bool → Bool → Planner fl.F → Type 0
  PlannedAt sys p started b true _ q = block_at fl q q.head ≡ started
  PlannedAt sys p started b false true q = block_at fl q q.head ≡ b
  PlannedAt sys p started b false false q =
      motion fl (block_at fl q p.head) ≡ motion fl (profile sys p b)

  -- The answer, the queue and the position after a line to `target` that is planned as `b`, is
  -- without a step or not, and is a system motion or not.
  pub record LineResult (sys : System) (p : Planner fl.F) (target : Vec3 ℤ) (started b : Block fl.F)
      (still system : Bool) (r : Bool × Planner fl.F) : Type 0 where
    pub valid : IsValid r.1
    pub answer : r.0 ≡ not still
    pub blocks : motions r.1 ≡ (
        if not still && not system
        then motions p ++ motion fl (profile sys p b) ∷ []
        else motions p)
    pub planned_at : PlannedAt sys p started b still system r.1
    pub position : r.1.position ≡ (if not still && not system then target else p.position)

  branches :
      (sys : System) (p : Planner fl.F)
      → IsValid p
      → (target : Vec3 ℤ) (u : Vec3 fl.F) (s b : Block fl.F) → p.next_head ≢ p.tail
      → (still system : Bool)
      → LineResult sys p target s b still system (
          if still
          then (false, set_block fl p p.head s)
          else if system
          then (true, set_block fl p p.head b)
          else (true, planner_recalculate fl (push_block fl sys p target u b)))
  branches sys p v target u s b room true system = record {
    valid = head-IsValid p s v;
    answer = refl;
    blocks = ap (map (motion fl)) (head-queue p s v);
    planned_at = set_block-at p s v;
    position = refl;
  }
  branches sys p v target u s b room false true = record {
    valid = head-IsValid p b v;
    answer = refl;
    blocks = ap (map (motion fl)) (head-queue p b v);
    planned_at = set_block-at p b v;
    position = refl;
  }
  branches sys p v target u s b room false false =
      let q = push_block fl sys p target u b in
      let same = recalculate-Evolves fl q in
      record {
        valid =
            recalculate-IsValid fl q (push-IsValid sys p v target u b room)
              (pushed sys p v target u b room);
        answer = refl;
        blocks =
            motions-Evolves same
            ∙ ap (map (motion fl)) (push-queue sys p v target u b room)
            ∙ map-append (motion fl) (queue fl p) (profile sys p b ∷ []);
        planned_at = same.same_motion p.head ∙ ap (motion fl) (push-at sys p v target u b);
        position = same.position ∙ push-position sys p v target u b;
      }

  module _ (sys : System) (settings : Settings fl.F) (sys_position : Vec3 ℤ) where
    -- The start of a line: the system's position for a system motion, else the planner's.
    abbrev pub start_position : LineData fl.F → Planner fl.F → Vec3 ℤ
    start_position d p = if d.condition.system_motion then sys_position else p.position

    abbrev pub line_steps : Vec3 fl.F → LineData fl.F → Planner fl.F → Vec3 ℕ
    line_steps target d p = step_counts fl (target_steps fl settings target) (start_position d p)

    abbrev line_delta : Vec3 fl.F → LineData fl.F → Planner fl.F → Vec3 fl.F
    line_delta target d p =
        deltas fl settings (target_steps fl settings target) (start_position d p)

    -- The block of the line up to the test for steps.
    abbrev pub line_start : Vec3 fl.F → LineData fl.F → Planner fl.F → Block fl.F
    line_start target d p = start_block fl d (line_steps target d p) (line_delta target d p)

    -- The block that the line is planned as.
    abbrev pub line_block : Vec3 fl.F → LineData fl.F → Planner fl.F → Block fl.F
    line_block target d p =
        finish_block fl settings d p (line_delta target d p) (line_start target d p)

    -- For a valid planner that is not full: a line with no steps is refused, the block of a system motion is
    -- written whole to the free place at the head and the queue is left as it was, and any other line
    -- becomes the last block of the queue and moves the planner's position to the target.
    pub buffer_line_refines :
        (target : Vec3 fl.F) (d : LineData fl.F) (p : Planner fl.F)
        → IsValid p
        → plan_check_full_buffer fl p ≡ false
        → LineResult sys p
            (target_steps fl settings target)
            (line_start target d p)
            (line_block target d p)
            (is_still (line_steps target d p))
            d.condition.system_motion
            (plan_buffer_line fl sys settings sys_position target d p)
    unfolding plan_buffer_line plan_check_full_buffer
    buffer_line_refines target d p v room =
        rw (still_iff fl d (line_steps target d p) (line_delta target d p)) (
          branches sys p v (target_steps fl settings target) _ (line_start target d p)
            (line_block target d p) (λ e. ==→ne p.tail p.next_head room (sym e))
            (is_still (line_steps target d p)) d.condition.system_motion)
