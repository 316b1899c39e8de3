-- ===== src/Serial/Commands.antt =====
-- grbl_serial.c: which characters of a command reach the receive buffer, and which set flags.
use ecmc_plugin_grbl.Base.{
  ℕ, ◌+◌, ◌≤◌, ◌≡◌, sym, ap, ◌∙◌, Bool, true, false, ◌||◌, ◌&&◌, List, [], ◌∷◌, ◌++◌, ◌⊎◌, inl, inr,
  arith, ◌==◌, ltb, if◌then◌else◌, length, Bool-cases,
}
use mathlib.Core.List.{append_assoc, append-nil}
use ecmc_plugin_grbl.Serial.{
  Input, store, rx_ring_buffer, rx_buffer_size, rx_buffer_available, add_char_to_buffer,
  write_command_serial, cmd_reset, cmd_status_report, cmd_cycle_start, cmd_feed_hold,
}
use ecmc_plugin_grbl.Serial.Receive.{
  IsValid, count, unread, store-IsValid, store-unread, count-store, available_lem,
}

-- The characters that the documentation takes off the stream: the four real-time commands of ASCII, and
-- all of extended ASCII.
abbrev pub is_realtime : ℕ → Bool
is_realtime c =
    c == cmd_reset
    || c == cmd_status_report
    || c == cmd_cycle_start
    || c == cmd_feed_hold
    || ltb 0x7F c

-- The characters of a line that belong to the g-code stream.
abbrev pub stream : List ℕ → List ℕ
stream [] = []
stream (c ∷ line) = if is_realtime c then stream line else c ∷ stream line

-- The line has a character of extended ASCII.
abbrev pub has_extended : List ℕ → Bool
has_extended [] = false
has_extended (c ∷ line) = ltb 0x7F c || has_extended line

rx-realtime :
    (char_signed : Bool) (c : ℕ) (i : Input)
    → (char_signed && ltb 0x7F c) ≡ false
    → is_realtime c ≡ true
    → (add_char_to_buffer char_signed c i).rx ≡ i.rx
unfolding add_char_to_buffer
rx-realtime char_signed c i k h = ground arith

rx-ordinary :
    (char_signed : Bool) (c : ℕ) (i : Input)
    → is_realtime c ≡ false
    → add_char_to_buffer char_signed c i ≡ record i { rx = store rx_ring_buffer i.rx c }
unfolding add_char_to_buffer
rx-ordinary char_signed c i h = ground arith

known-head :
    (char_signed : Bool) (c : ℕ) (line : List ℕ)
    → (char_signed && has_extended (c ∷ line)) ≡ false
    → (char_signed && ltb 0x7F c) ≡ false
known-head char_signed c line h = ground arith

known-rest :
    (char_signed : Bool) (c : ℕ) (line : List ℕ)
    → (char_signed && has_extended (c ∷ line)) ≡ false
    → (char_signed && has_extended line) ≡ false
known-rest char_signed c line h = ground arith

write_from :
    (char_signed : Bool) (line : List ℕ) (i : Input)
    → (char_signed && has_extended line) ≡ false
    → IsValid i.rx
    → count i.rx + length line ≤ rx_buffer_size
    → IsValid (write_command_serial char_signed line i).rx
      × (unread (write_command_serial char_signed line i).rx ≡ unread i.rx ++ stream line)
unfolding write_command_serial
write_from char_signed [] i k v room = (v, sym (append-nil (unread i.rx)))
write_from char_signed (c ∷ line) i k v room =
    let rest =
      write_from char_signed line (add_char_to_buffer char_signed c i)
        (known-rest char_signed c line k) in
    elim (Bool-cases (is_realtime c)) [
      | inl picked ↦
          let same = rx-realtime char_signed c i (known-head char_signed c line k) picked in
          let (valid, bytes) = rest (rw same v) (rw same (omega arith)) in
          (valid, rw picked (bytes ∙ ap (λ b. unread b ++ stream line) same))
      | inr kept ↦
          let stored = ap (λ (j : Input). j.rx) (rx-ordinary char_signed c i kept) in
          let one = store-unread c v (omega arith) in
          let (valid, bytes) =
            rest (rw stored (store-IsValid c v))
              (rw stored (omega (arith, count-store c v (omega arith)))) in
          (
            valid,
            rw kept (
                bytes
                ∙ ap (λ b. unread b ++ stream line) stored
                ∙ ap (λ xs. xs ++ stream line) one
                ∙ append_assoc (unread i.rx) (c ∷ []) (stream line)),
          )
    ]

-- A line that fits in a valid buffer leaves, behind what was unread, exactly its characters that are no
-- real-time commands and not of extended ASCII, in order, and keeps the buffer well formed. Where `char` is signed, the
-- line must have no character of extended ASCII: the code would store it.
pub write_command_serial_refines :
    (char_signed : Bool) (line : List ℕ) (i : Input)
    → (char_signed && has_extended line) ≡ false
    → IsValid i.rx
    → length line ≤ rx_buffer_available i.rx
    → IsValid (write_command_serial char_signed line i).rx
      × (unread (write_command_serial char_signed line i).rx ≡ unread i.rx ++ stream line)
write_command_serial_refines char_signed line i k v fits =
    write_from char_signed line i k v (omega (arith, available_lem v))

-- The character stands in the line.
abbrev pub Contains : ℕ → List ℕ → Type 0
Contains c [] = ⊥
Contains c (x ∷ line) = (x ≡ c) ⊎ Contains c line

hold-kept :
    (char_signed : Bool) (c : ℕ) (i : Input)
    → i.machine.rt.exec_state.feed_hold ≡ true
    → (add_char_to_buffer char_signed c i).machine.rt.exec_state.feed_hold ≡ true
unfolding add_char_to_buffer
hold-kept char_signed c i h = ground arith

reset-kept :
    (char_signed : Bool) (c : ℕ) (i : Input)
    → i.machine.rt.exec_state.reset ≡ true
    → (add_char_to_buffer char_signed c i).machine.rt.exec_state.reset ≡ true
unfolding add_char_to_buffer
reset-kept char_signed c i h = ground arith

hold-set :
    (char_signed : Bool) (i : Input)
    → (add_char_to_buffer char_signed cmd_feed_hold i).machine.rt.exec_state.feed_hold ≡ true
unfolding add_char_to_buffer
hold-set char_signed i = ground arith

reset-set :
    (char_signed : Bool) (i : Input)
    → (add_char_to_buffer char_signed cmd_reset i).machine.rt.exec_state.reset ≡ true
unfolding add_char_to_buffer
reset-set char_signed i = ground arith

hold-kept_line :
    (char_signed : Bool) (line : List ℕ) (i : Input)
    → i.machine.rt.exec_state.feed_hold ≡ true
    → (write_command_serial char_signed line i).machine.rt.exec_state.feed_hold ≡ true
unfolding write_command_serial
hold-kept_line char_signed [] i h = h
hold-kept_line char_signed (c ∷ line) i h =
    hold-kept_line char_signed line (add_char_to_buffer char_signed c i)
      (hold-kept char_signed c i h)

reset-kept_line :
    (char_signed : Bool) (line : List ℕ) (i : Input)
    → i.machine.rt.exec_state.reset ≡ true
    → (write_command_serial char_signed line i).machine.rt.exec_state.reset ≡ true
unfolding write_command_serial
reset-kept_line char_signed [] i h = h
reset-kept_line char_signed (c ∷ line) i h =
    reset-kept_line char_signed line (add_char_to_buffer char_signed c i)
      (reset-kept char_signed c i h)

-- A feed hold character anywhere in a line leaves the feed hold flag set, however full the buffer
-- is and whatever stands round it.
pub feed_hold_taken :
    (char_signed : Bool) (line : List ℕ) (i : Input)
    → Contains cmd_feed_hold line
    → (write_command_serial char_signed line i).machine.rt.exec_state.feed_hold ≡ true
unfolding write_command_serial
feed_hold_taken char_signed [] i h = absurd h
feed_hold_taken char_signed (c ∷ line) i (inl e) =
    rw e (hold-kept_line char_signed line _ (hold-set char_signed i))
feed_hold_taken char_signed (c ∷ line) i (inr h) =
    feed_hold_taken char_signed line (add_char_to_buffer char_signed c i) h

-- A reset character anywhere in a line leaves the reset flag set.
pub reset_taken :
    (char_signed : Bool) (line : List ℕ) (i : Input)
    → Contains cmd_reset line
    → (write_command_serial char_signed line i).machine.rt.exec_state.reset ≡ true
unfolding write_command_serial
reset_taken char_signed [] i h = absurd h
reset_taken char_signed (c ∷ line) i (inl e) =
    rw e (reset-kept_line char_signed line _ (reset-set char_signed i))
reset_taken char_signed (c ∷ line) i (inr h) =
    reset_taken char_signed line (add_char_to_buffer char_signed c i) h
