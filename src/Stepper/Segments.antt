-- ===== src/Stepper/Segments.antt =====
-- grbl_stepper.c: the calls of `ecmc_grbl_main_rt_thread` that execute one segment.
use ecmc_plugin_grbl.Base.{
  ℕ, zero, suc, ◌+◌, ◌%◌, ◌<◌, ◌≡◌, refl, sym, subst, ◌∙◌, ap, arith, Bool, true, false,
  if◌then◌else◌, not, ◌||◌, Option, none, some, ◌==◌,
}
use ecmc_plugin_grbl.Stepper.{
  Stepper, segment_buffer_size, step_axes, end_event, execute_event, load_segment, stop_cycle,
  main_rt_thread,
}
use ecmc_plugin_grbl.Stepper.Events.{AxesAt, axes-start, axes-step}

abbrev pub next_segment : ℕ → ℕ
next_segment tail = if (tail + 1) == segment_buffer_size then 0 else tail + 1

module _ {T : Type 0} where
  -- `n` calls of the interrupt.
  unfoldable pub calls : T → ℕ → Stepper T → Stepper T
  calls t zero m = m
  calls t (suc n) m = main_rt_thread t (calls t n m)

  -- An event that is not the last one of its segment, and the last one.
  abbrev running : ℕ → Stepper T → Stepper T
  running c m = record m { st = record m.st { step_count = c }; busy = false }

  abbrev pub complete : Stepper T → Stepper T
  complete m = record m {
    st = record m.st { step_count = 0; exec_segment = none };
    segment_buffer_tail = next_segment m.segment_buffer_tail;
    busy = false;
  }

  -- The end of an event, by whether it is the last one and by the count that is left.
  abbrev ended : Bool → ℕ → Stepper T → Stepper T
  ended last count m =
      if last
      then record m {
        st = record m.st { step_count = count; exec_segment = none };
        segment_buffer_tail = next_segment m.segment_buffer_tail;
      }
      else record m { st = record m.st { step_count = count } }

  end-ended :
      (last : Bool) (c : ℕ) (m : Stepper T)
      → (m.st.step_count + 65535) % 65536 ≡ c
      → c == 0 ≡ last
      → end_event m ≡ ended last c m
  unfolding end_event
  end-ended last c m e z = (λ i. ended (e i == 0) (e i) m) ∙ (λ i. ended (z i) c m)

  execute-more :
      (c : ℕ) (m : Stepper T)
      → (step_axes m).st.step_count ≡ suc (suc c)
      → suc c < 65535
      → execute_event m ≡ running (suc c) (step_axes m)
  unfolding execute_event
  execute-more c m h l =
      ap {A = Stepper T} (λ q. record q { busy = false })
        (end-ended false (suc c) (step_axes m) (omega arith) (ground arith))

  execute-last :
      (m : Stepper T) → (step_axes m).st.step_count ≡ 1 → execute_event m ≡ complete (step_axes m)
  unfolding execute_event
  execute-last m h =
      ap {A = Stepper T} (λ q. record q { busy = false })
        (end-ended true 0 (step_axes m) (omega arith) refl)

  step_axes-count : (m : Stepper T) → (step_axes m).st.step_count ≡ m.st.step_count
  unfolding step_axes
  step_axes-count m = refl

  -- The segment `i` is being executed: a call executes an event.
  pub record Runs (i : ℕ) (m : Stepper T) : Type 0 where
    pub free : m.busy ≡ false
    pub enabled : m.interrupt_enable ≡ true
    pub segment : m.st.exec_segment ≡ some i

  -- What a call does, by the flags and the segment.
  abbrev pub dispatch : T → Bool → Bool → Option ℕ → Stepper T → Stepper T
  dispatch t busy enabled segment m = if busy || not enabled then m else elim segment [
    | some _ ↦ execute_event m
    | none ↦
        if m.segment_buffer_head == m.segment_buffer_tail
        then stop_cycle m
        else execute_event (load_segment t m)
  ]

  pub main-Runs : (t : T) (i : ℕ) (m : Stepper T) → Runs i m → main_rt_thread t m ≡ execute_event m
  unfolding main_rt_thread
  main-Runs t i m r = λ j. dispatch t (r.free j) (r.enabled j) (r.segment j) m

  -- `n` events of the segment are executed, and more than `c` are left.
  pub record Progress (i : ℕ) (start : Stepper T) (n c : ℕ) (m : Stepper T) : Type 0 where
    pub runs : Runs i m
    pub left : m.st.step_count ≡ suc c
    pub axes : AxesAt start n m
    pub same_tail : m.segment_buffer_tail ≡ start.segment_buffer_tail

  running-Progress :
      (i : ℕ) (start : Stepper T) (n c : ℕ) (m : Stepper T)
      → Progress i start n (suc c) m
      → Progress i start (suc n) c (running (suc c) (step_axes m))
  unfolding step_axes
  running-Progress i start n c m p =
      let a = axes-step start n m p.axes in
      record {
        runs = record { free = refl; enabled = p.runs.enabled; segment = p.runs.segment };
        left = refl;
        axes = record {
          same_block = a.same_block;
          same_null = a.same_null;
          same_steps = a.same_steps;
          at_counters = a.at_counters;
          at_positions = a.at_positions;
        };
        same_tail = p.same_tail;
      }

  main-more :
      (t : T) (i c : ℕ) (m : Stepper T)
      → Runs i m
      → m.st.step_count ≡ suc (suc c)
      → suc c < 65535
      → main_rt_thread t m ≡ running (suc c) (step_axes m)
  main-more t i c m r h l = main-Runs t i m r ∙ execute-more c m (step_axes-count m ∙ h) l

  calls-Progress :
      (t : T) (i : ℕ) (start : Stepper T) (n c : ℕ)
      → Runs i start
      → start.st.step_count ≡ suc (n + c)
      → n + c < 65535
      → Progress i start n c (calls t n start)
  unfolding calls
  calls-Progress t i start zero c r h l = record {
    runs = r;
    left = h ∙ omega arith;
    axes = axes-start start;
    same_tail = refl;
  }
  calls-Progress t i start (suc n) c r h l =
      let p = calls-Progress t i start n (suc c) r (h ∙ omega arith) (omega arith) in
      subst (Progress i start (suc n) c)
        (sym (main-more t i c (calls t n start) p.runs p.left (omega arith)))
        (running-Progress i start n c (calls t n start) p)

  -- The calls that execute a segment to its end.
  pub calls-complete :
      (t : T) (i : ℕ) (start : Stepper T) (n : ℕ)
      → Runs i start
      → start.st.step_count ≡ suc n
      → n < 65535
      → (m : Stepper T) × (calls t (suc n) start ≡ complete (step_axes m)) × Progress i start n 0 m
  unfolding calls
  calls-complete t i start n r h l =
      let p = calls-Progress t i start n 0 r (h ∙ omega arith) (omega arith) in
      (
        calls t n start,
        main-Runs t i (calls t n start) p.runs
            ∙ execute-last (calls t n start) (step_axes-count (calls t n start) ∙ p.left),
        p,
      )
