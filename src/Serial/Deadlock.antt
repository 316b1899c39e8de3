-- ===== src/Serial/Deadlock.antt =====
-- grbl_serial.c: the two threads at the transmit buffer. `serial_write` waits for space with
-- `serialTxBufferMutex` held, and the thread that makes space must take that mutex first.
use ecmc_plugin_grbl.Base.{
  ℕ, ◌≡◌, refl, sym, subst, ◌∙◌, Bool, true, false, Option, none, some, ◌==◌,
}
use ecmc_plugin_grbl.Serial.{Buffer, tx_ring_buffer, next_index, store, get_char_from_tx_buffer}

-- The grbl main thread writes; the ecmc thread fetches.
pub data Thread : Type 0 where
  grbl ecmc : Thread

-- The buffer, the owner of its mutex, the byte with which the grbl thread stands in its wait
-- loop, and EXEC_RESET.
pub record Shared : Type 0 where
  pub buffer : Buffer
  pub owner : Option Thread
  pub waiting : Option ℕ
  pub reset : Bool

abbrev pub is_full : Buffer → Bool
is_full b = next_index tx_ring_buffer b.head == b.tail

-- One step of either thread, or of the thread that issues a reset.
pub data Step : Shared → Shared → Type 0 where
  enter :
      (s : Shared) (byte : ℕ)
      → s.owner ≡ none
      → Step s (record s { owner = some grbl; waiting = some byte })
  spin :
      (s : Shared) (byte : ℕ)
      → s.waiting ≡ some byte
      → is_full s.buffer ≡ true
      → s.reset ≡ false
      → Step s s
  give_up :
      (s : Shared) (byte : ℕ)
      → s.waiting ≡ some byte
      → is_full s.buffer ≡ true
      → s.reset ≡ true
      → Step s (record s { owner = none; waiting = none })
  finish :
      (s : Shared) (byte : ℕ)
      → s.waiting ≡ some byte
      → is_full s.buffer ≡ false
      → Step s
          (record s { buffer = store tx_ring_buffer s.buffer byte; owner = none; waiting = none })
  fetch :
      (s : Shared)
      → s.owner ≡ none
      → Step s (record s { buffer = (get_char_from_tx_buffer s.buffer).1 })
  set_reset : (s : Shared) → Step s (record s { reset = true })

-- Any number of steps.
pub data Steps (start : Shared) : Shared → Type 0 where
  no_step : Steps start start
  then_step : {middle last : Shared} → Steps start middle → Step middle last → Steps start last

-- The grbl thread waits for space in a full buffer.
pub record IsStuck (s : Shared) : Type 0 where
  pub held : s.owner ≡ some grbl
  pub byte : ℕ
  pub waits : s.waiting ≡ some byte
  pub full : is_full s.buffer ≡ true

reset-before : {s t : Shared} → Step s t → t.reset ≡ false → s.reset ≡ false
reset-before (enter s byte h) r = r
reset-before (spin s byte h f n) r = r
reset-before (give_up s byte h f n) r = r
reset-before (finish s byte h f) r = r
reset-before (fetch s h) r = r
reset-before (set_reset s) r = cc

step_stuck : {s t : Shared} → Step s t → IsStuck s → t.reset ≡ false → t ≡ s
step_stuck (enter s byte h) k r = cc (k.held)
step_stuck (spin s byte h f n) k r = refl
step_stuck (give_up s byte h f n) k r = cc
step_stuck (finish s byte h f) k r = cc (k.full)
step_stuck (fetch s h) k r = cc (k.held)
step_stuck (set_reset s) k r = cc

-- From a full buffer with the grbl thread waiting, no steps of the threads but a reset change
-- anything: the wait never ends, and the waiting bytes are never fetched.
pub stuck_forever : {s t : Shared} → Steps s t → IsStuck s → t.reset ≡ false → t ≡ s
stuck_forever no_step k r = refl
stuck_forever (then_step {middle = u} run step) k r =
    let same = stuck_forever run k (reset-before step r) in
    step_stuck step (subst IsStuck (sym same) k) r ∙ same
