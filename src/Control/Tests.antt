-- ===== src/Control/Tests.antt =====
-- Runs of two workers: the theorems on the control of a run at concrete states.
use ripsync.Prelude.{◌+◌, ◌≡◌, ◌≤◌, refl, true, false}
use ripsync.Control.{
  Pc, State, start_state, pause, cancel_store, goto, advance, pauses, begins, works, Reach, here,
  next,
}
use ripsync.Control.Locking.{Locking, Reach-Locking}
use ripsync.Control.Progress.{rank, is_at_end, advance-rank, lost_wake_up}

-- Worker 0 has seen the pause and has the lock; worker 1 is about to begin.
abbrev paused_state : State
paused_state = goto (pause start_state) 0 Pc.entered

abbrev locked_state : State
locked_state = advance (advance (advance paused_state 0) 0) 0

abbrev to_locked : Reach start_state locked_state
to_locked =
    next
      (next
        (next (next (next here (pauses start_state)) (begins (pause start_state) 0 refl))
          (works paused_state 0))
        (works (advance paused_state 0) 0))
      (works (advance (advance paused_state 0) 0) 0)

abbrev waiting_state : State
waiting_state = advance (advance locked_state 0) 0

abbrev cancelled_state : State
cancelled_state = cancel_store locked_state

Reach-Locking_example : Locking locked_state
Reach-Locking_example = Reach-Locking to_locked

advance-rank_example :
    (rank ((advance cancelled_state 0).pc 0) + 1 ≤ rank (cancelled_state.pc 0))
    × (is_at_end ((advance cancelled_state 0).pc 0) ≡ false)
advance-rank_example = advance-rank cancelled_state 0 refl refl

lost_wake_up_example :
    (t : State) × Reach waiting_state t
    × (t.pc 0 ≡ Pc.asleep)
    × (t.paused ≡ false)
    × (t.cancelled ≡ true)
    × (t.due ≡ waiting_state.due)
    × (advance t 0 ≡ t)
lost_wake_up_example = lost_wake_up waiting_state 0 refl
