-- ===== src/Control.antt =====
-- crates/ripsync-core/src/control.rs: pause, resume, cancel and the checkpoints of any number of
-- workers, one atomic access at a time, in any order. A condition variable may wake a worker
-- without a notification.
pub mod Locking
pub mod Progress
mod Tests
use ripsync.Prelude.{
  ℕ, zero, suc, ◌+◌, ◌≡◌, ◌==◌, Bool, true, false, Option, none, some, if◌then◌else◌, List, [], ◌∷◌,
}

-- Where a worker stands in `checkpoint`, by its next access: the first test, the test of `paused`,
-- the lock, the two tests of the loop, the wait, the sleep, the last test, and the result.
pub data Pc : Type 0 where
  idle entered running locking looping paused_seen waiting asleep leaving passed refused : Pc

-- The flags, the worker that holds the lock, the workers, and the notifications that are due: those
-- whose caller has stored its flag.
pub record State : Type 0 where
  pub paused : Bool
  pub cancelled : Bool
  pub holder : Option ℕ
  pub due : ℕ
  pub pc : ℕ → Pc

-- `RunControl::default()`
abbrev pub start_state : State
start_state = record {
  paused = false;
  cancelled = false;
  holder = none;
  due = 0;
  pc = λ i. Pc.idle;
}

abbrev pub update : (ℕ → Pc) → ℕ → Pc → ℕ → Pc
update pc i p j = if i == j then p else pc j

abbrev pub pause : State → State
pause s = record s { paused = true }

-- The store of `resume`, and of `cancel`; their `notify_all` is a step of its own.
abbrev pub resume_store : State → State
resume_store s = record s { paused = false; due = s.due + 1 }

abbrev pub cancel_store : State → State
cancel_store s = record s { cancelled = true; due = s.due + 1 }

abbrev pub woken : Pc → Pc
woken Pc.asleep = Pc.locking
woken p = p

-- `notify_all`, where one is due.
abbrev pub notify_all : ℕ → State → State
notify_all due s = record s { due = due; pc = λ i. woken (s.pc i) }

abbrev pub goto : State → ℕ → Pc → State
goto s i p = record s { pc = update s.pc i p }

-- The loop's end, and the wait, give the lock back.
abbrev pub unlock : State → ℕ → Pc → State
unlock s i p = record s { holder = none; pc = update s.pc i p }

abbrev pub lock : State → ℕ → Option ℕ → State
lock s i none = record s { holder = some i; pc = update s.pc i Pc.looping }
lock s i (some _) = s

-- The next access of worker `i`, which stands at `p`; a worker that waits for the lock or sleeps
-- stays, and one that has its result begins anew by `begin`.
abbrev pub advance_at : State → ℕ → Pc → State
advance_at s i Pc.entered = goto s i (if s.cancelled then Pc.refused else Pc.running)
advance_at s i Pc.running = goto s i (if s.paused then Pc.locking else Pc.leaving)
advance_at s i Pc.locking = lock s i s.holder
advance_at s i Pc.looping = if s.paused then goto s i Pc.paused_seen else unlock s i Pc.leaving
advance_at s i Pc.paused_seen = if s.cancelled then unlock s i Pc.leaving else goto s i Pc.waiting
advance_at s i Pc.waiting = unlock s i Pc.asleep
advance_at s i Pc.leaving = goto s i (if s.cancelled then Pc.refused else Pc.passed)
advance_at s i Pc.idle = s
advance_at s i Pc.asleep = s
advance_at s i Pc.passed = s
advance_at s i Pc.refused = s

abbrev pub advance : State → ℕ → State
advance s i = advance_at s i (s.pc i)

-- A worker is outside `checkpoint`.
abbrev pub is_out : Pc → Bool
is_out Pc.idle = true
is_out Pc.passed = true
is_out Pc.refused = true
is_out _ = false

pub data Step : State → State → Type 0 where
  pauses : (s : State) → Step s (pause s)
  resumes : (s : State) → Step s (resume_store s)
  cancels : (s : State) → Step s (cancel_store s)
  notifies : (s : State) (due : ℕ) → s.due ≡ suc due → Step s (notify_all due s)
  begins : (s : State) (i : ℕ) → is_out (s.pc i) ≡ true → Step s (goto s i Pc.entered)
  works : (s : State) (i : ℕ) → Step s (advance s i)
  stirs : (s : State) (i : ℕ) → s.pc i ≡ Pc.asleep → Step s (goto s i Pc.locking)

pub data Reach (s : State) : State → Type 0 where
  here : Reach s s
  next : {t u : State} → Reach s t → Step t u → Reach s u
