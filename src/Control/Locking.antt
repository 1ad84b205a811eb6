-- ===== src/Control/Locking.antt =====
-- What holds in every state that the run's control can be in.
use ripsync.Prelude.{
  ℕ, ◌≡◌, refl, arith, ==_iff, Bool, true, false, Option, none, some, if◌then◌else◌,
}
use ripsync.Control.{
  Pc, State, start_state, goto, unlock, lock, advance_at, Step, pauses, resumes, cancels, notifies,
  begins, works, stirs, Reach, here, next,
}

-- A worker between the lock and its release.
abbrev pub holds : Pc → Bool
holds Pc.looping = true
holds Pc.paused_seen = true
holds Pc.waiting = true
holds _ = false

-- The lock's holder is the one worker in the loop, and nobody was refused without a cancellation.
pub record Locking (s : State) : Type 0 where
  pub held : (i : ℕ) → holds (s.pc i) ≡ true → s.holder ≡ some i
  pub holding : (i : ℕ) → s.holder ≡ some i → holds (s.pc i) ≡ true
  pub refused : (i : ℕ) → s.pc i ≡ Pc.refused → s.cancelled ≡ true

either : {s t : State} → Locking s → Locking t → (b : Bool) → Locking (if b then s else t)
either ls lt true = ls
either ls lt false = lt

module _ (s : State) (i : ℕ) (inv : Locking s) where
  goto-Locking :
      (p : Pc)
      → holds p ≡ holds (s.pc i)
      → (p ≡ Pc.refused → s.cancelled ≡ true)
      → Locking (goto s i p)
  goto-Locking p same ref = record {
    held = λ j h. ground (arith, inv.held i, inv.held j, ==_iff i j);
    holding = λ j h. ground (arith, inv.holding i, inv.holding j, ==_iff i j);
    refused = λ j h. ground (arith, ref, inv.refused j);
  }

  unlock-Locking :
      (p : Pc)
      → holds (s.pc i) ≡ true
      → holds p ≡ false
      → ¬ (p ≡ Pc.refused)
      → Locking (unlock s i p)
  unlock-Locking p was is nref = record {
    held = λ j h. ground (arith, inv.held i, inv.held j, ==_iff i j);
    holding = λ j h. ground arith;
    refused = λ j h. ground (arith, nref, inv.refused j);
  }

  lock-Locking : (o : Option ℕ) → s.holder ≡ o → Locking (lock s i o)
  lock-Locking (some k) e = inv
  lock-Locking none e = record {
    held = λ j h. ground (arith, inv.held j, ==_iff i j);
    holding = λ j h. ground (arith, ==_iff i j);
    refused = λ j h. ground (arith, inv.refused j);
  }

  advance_at-Locking : (p : Pc) → s.pc i ≡ p → Locking (advance_at s i p)
  advance_at-Locking Pc.entered e = goto-Locking _ (ground arith) (ground arith)
  advance_at-Locking Pc.running e = goto-Locking _ (ground arith) (ground arith)
  advance_at-Locking Pc.locking e = lock-Locking s.holder refl
  advance_at-Locking Pc.looping e =
      either (goto-Locking _ (ground arith) (λ q. ground arith))
        (unlock-Locking _ (ground arith) refl (λ q. ground arith)) s.paused
  advance_at-Locking Pc.paused_seen e =
      either (unlock-Locking _ (ground arith) refl (λ q. ground arith))
        (goto-Locking _ (ground arith) (λ q. ground arith)) s.cancelled
  advance_at-Locking Pc.waiting e = unlock-Locking Pc.asleep (ground arith) refl (λ q. cc)
  advance_at-Locking Pc.leaving e = goto-Locking _ (ground arith) (ground arith)
  advance_at-Locking Pc.idle e = inv
  advance_at-Locking Pc.asleep e = inv
  advance_at-Locking Pc.passed e = inv
  advance_at-Locking Pc.refused e = inv

pub Step-Locking : {s t : State} → Step s t → Locking s → Locking t
Step-Locking (pauses s) inv = record {
  held = inv.held;
  holding = inv.holding;
  refused = inv.refused;
}
Step-Locking (resumes s) inv = record {
  held = inv.held;
  holding = inv.holding;
  refused = inv.refused;
}
Step-Locking (cancels s) inv = record {
  held = inv.held;
  holding = inv.holding;
  refused = λ i e. refl;
}
Step-Locking (notifies s due e) inv = record {
  held = λ i h. ground (arith, inv.held i);
  holding = λ i h. ground (arith, inv.holding i);
  refused = λ i h. ground (arith, inv.refused i);
}
Step-Locking (begins s i e) inv = record {
  held = λ j h. ground (arith, inv.held j);
  holding = λ j h. ground (arith, inv.holding j);
  refused = λ j h. ground (arith, inv.refused j);
}
Step-Locking (works s i) inv = advance_at-Locking s i inv (s.pc i) refl
Step-Locking (stirs s i e) inv = record {
  held = λ j h. ground (arith, inv.held j);
  holding = λ j h. ground (arith, inv.holding j);
  refused = λ j h. ground (arith, inv.refused j);
}

-- What every state that can be reached has: a worker has the lock exactly where the holder is that
-- worker, so no two are between the lock and its release, and only a run that was cancelled
-- refuses.
pub Reach-Locking : {s : State} → Reach start_state s → Locking s
Reach-Locking here = record {
  held = λ i h. ground arith;
  holding = λ i h. ground arith;
  refused = λ i h. ground arith;
}
Reach-Locking (next r st) = Step-Locking st (Reach-Locking r)
