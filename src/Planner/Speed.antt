-- ===== src/Planner/Speed.antt =====
-- grbl_planner.c: after a recalculation no entry speed exceeds the block's maximum.
pub mod Passes
use ecmc_plugin_grbl.Base.{
  ℕ, zero, suc, ◌+◌, ◌-◌, ◌≤◌, ◌<◌, ◌≡◌, ◌≢◌, ◌⊎◌, refl, sym, ap, subst, ◌∙◌, arith, true, false,
  Bool, ◌==◌, ==→eq, ==→ne, Bool-cases, inl, inr, if◌then◌else◌, Option, none, some, List, [], ◌∷◌,
  length, set, get_or, get_or-set_self, ℕ_discrete,
}
use ecmc_plugin_grbl.Base.Float.{Float}
use ecmc_plugin_grbl.Ring.{used}
use ecmc_plugin_grbl.Planner.{
  Block, Planner, block_buffer_size, plan_next_block_index, plan_prev_block_index, block_at,
  st_update_plan_block_parameters, update_block, set_entry_speed, zero_block,
}
use ecmc_plugin_grbl.Planner.Recalculate.{
  last_entry_speed, reverse_entry_speed, notify_at_tail, reverse_step, reverse_loop, accelerate,
  forward_step, forward_loop, reverse_pass, forward_pass, planner_recalculate, speed_change,
  plan_cycle_reinitialize,
}
use ecmc_plugin_grbl.Planner.Passes.{
  Evolves, reverse_step-Evolves, reverse_step-planned, set_entry_speed-Evolves, st_update-Evolves,
}
use ecmc_plugin_grbl.Planner.Queue.{IsValid}

-- What the proofs use of the comparison of floats.
pub record Order (fl : Float) : Type 0 where
  pub irrefl : (x : fl.F) → fl.lt x x ≡ false
  pub trans : (x y z : fl.F) → fl.lt x y ≡ true → fl.lt y z ≡ true → fl.lt x z ≡ true
  pub eq_not_lt : (x y : fl.F) → fl.eq x y ≡ true → fl.lt y x ≡ false

-- A property of every place survives a write of a value that has it.
get_or-set_pred {ℓ κ} :
    {A : Type ℓ} (P : A → Type κ) (xs : List A) (i j : ℕ) (v d : A)
    → (i ≡ j → P v)
    → P (get_or xs j d)
    → P (get_or (set xs i v) j d)
get_or-set_pred P [] i j v d pv h = h
get_or-set_pred P (x ∷ xs) zero zero v d pv h = pv refl
get_or-set_pred P (x ∷ xs) zero (suc j) v d pv h = h
get_or-set_pred P (x ∷ xs) (suc i) zero v d pv h = h
get_or-set_pred P (x ∷ xs) (suc i) (suc j) v d pv h =
    get_or-set_pred P xs i j v d (λ e. pv (ap suc e)) h

module _ (fl : Float) (o : Order fl) where
  asym : (x y : fl.F) → fl.lt x y ≡ true → fl.lt y x ≡ false
  asym x y h = elim (Bool-cases (fl.lt y x)) [
    | inl e ↦ absurd (clash (sym (o.trans x y x h e) ∙ o.irrefl x))
    | inr e ↦ e
  ]
    where
      clash : true ≢ false
      clash e = ground arith

  -- The entry speed does not exceed the maximum.
  abbrev pub Bounded : Block fl.F → Type 0
  Bounded b = fl.lt b.max_entry_speed_sqr b.entry_speed_sqr ≡ false

  -- `pl_block` does not point to block `j`.
  abbrev pub Untouched : Option ℕ → ℕ → Type 0
  Untouched none j = Unit
  Untouched (some i) j = i ≢ j

  abbrev Good : Planner fl.F → ℕ → Type 0
  Good p j = Untouched p.pl_block j × Bounded (block_at fl p j)

  last-Bounded : (b : Block fl.F) → fl.lt b.max_entry_speed_sqr (last_entry_speed fl b) ≡ false
  unfolding last_entry_speed
  last-Bounded b = elim (Bool-cases (fl.lt b.max_entry_speed_sqr (speed_change fl b))) [
    | inl e ↦ rw e (o.irrefl b.max_entry_speed_sqr)
    | inr e ↦ rw e e
  ]

  reverse-Bounded :
      (b n : Block fl.F) → fl.lt b.max_entry_speed_sqr (reverse_entry_speed fl b n) ≡ false
  unfolding reverse_entry_speed
  reverse-Bounded b n =
      let speed = fl.add n.entry_speed_sqr (speed_change fl b) in
      elim (Bool-cases (fl.eq b.entry_speed_sqr b.max_entry_speed_sqr)) [
        | inl e ↦ rw e (o.eq_not_lt b.entry_speed_sqr b.max_entry_speed_sqr e)
        | inr e ↦ elim (Bool-cases (fl.lt speed b.max_entry_speed_sqr)) [
          | inl f ↦ rw (e, f) (asym speed b.max_entry_speed_sqr f)
          | inr f ↦ rw (e, f) (o.irrefl b.max_entry_speed_sqr)
        ]
      ]

  -- Writing a bounded entry speed keeps every bound, and makes its own.
  set-Good :
      (p : Planner fl.F) (i j : ℕ) (v : fl.F)
      → (i ≡ j → fl.lt (block_at fl p i).max_entry_speed_sqr v ≡ false)
      → Good p j
      → Good (set_entry_speed fl p i v) j
  unfolding set_entry_speed
  set-Good p i j v hv g = (
    g.0,
    get_or-set_pred Bounded p.block_buffer i j (record (block_at fl p i) { entry_speed_sqr = v })
        (zero_block fl) hv g.1,
  )

  set-Good_self :
      (p : Planner fl.F) (i : ℕ) (v : fl.F)
      → i < length p.block_buffer
      → Untouched p.pl_block i
      → fl.lt (block_at fl p i).max_entry_speed_sqr v ≡ false
      → Good (set_entry_speed fl p i v) i
  unfolding set_entry_speed
  set-Good_self p i v hi u hv = (
    u,
    subst Bounded
        (sym (
          get_or-set_self p.block_buffer i (record (block_at fl p i) { entry_speed_sqr = v })
            (zero_block fl) hi))
        hv,
  )

  update_block-Good :
      (p : Planner fl.F) (b : Option ℕ) (j : ℕ)
      → Untouched b j
      → Untouched p.pl_block j
      → Bounded (block_at fl p j)
      → Good (update_block fl p b) j
  unfolding update_block set_entry_speed
  update_block-Good p none j u w h = (w, h)
  update_block-Good p (some i) j u w h =
      (tt, get_or-set_pred Bounded p.block_buffer i j _ (zero_block fl) (λ e. absurd (u e)) h)

  update_block-Untouched :
      (p : Planner fl.F) (b : Option ℕ) (j : ℕ)
      → Untouched p.pl_block j
      → Untouched (update_block fl p b).pl_block j
  unfolding update_block
  update_block-Untouched p none j u = u
  update_block-Untouched p (some i) j u = tt

  notify-Good : (p : Planner fl.F) (i j : ℕ) → Good p j → Good (notify_at_tail fl p i) j
  unfolding notify_at_tail st_update_plan_block_parameters
  notify-Good p i j g = elim (Bool-cases (i == p.tail)) [
    | inl e ↦ rw e (update_block-Good p p.pl_block j g.0 g.0 g.1)
    | inr e ↦ rw e g
  ]

  notify-Untouched :
      (p : Planner fl.F) (i j : ℕ)
      → Untouched p.pl_block j
      → Untouched (notify_at_tail fl p i).pl_block j
  unfolding notify_at_tail st_update_plan_block_parameters
  notify-Untouched p i j u = elim (Bool-cases (i == p.tail)) [
    | inl e ↦ rw e (update_block-Untouched p p.pl_block j u)
    | inr e ↦ rw e u
  ]
