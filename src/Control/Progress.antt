-- ===== src/Control/Progress.antt =====
-- How workers leave `checkpoint` once the run is cancelled, and the wake-up that may be lost.
use ripsync.Prelude.{
  ℕ, ◌+◌, ◌≡◌, ◌≤◌, refl, sym, ap, ◌∙◌, arith, ==_iff, Bool, true, false, Option, none, some,
  if◌then◌else◌,
}
use mathlib.Core.Path.{subst}
use ripsync.Control.{
  Pc, State, update, resume_store, cancel_store, woken, notify_all, unlock, lock, advance_at,
  advance, is_out, Step, pauses, resumes, cancels, notifies, begins, works, stirs, Reach, here,
  next,
}

-- How many accesses a worker has before it at most.
abbrev pub rank : Pc → ℕ
rank Pc.waiting = 6
rank Pc.asleep = 5
rank Pc.running = 5
rank Pc.locking = 4
rank Pc.looping = 3
rank Pc.paused_seen = 2
rank Pc.entered = 1
rank Pc.leaving = 1
rank Pc.idle = 0
rank Pc.passed = 0
rank Pc.refused = 0

-- A worker can go on: it neither sleeps, nor is it out, nor does another have the lock it wants.
abbrev pub can_go : Pc → Option ℕ → Bool
can_go Pc.idle _ = false
can_go Pc.passed _ = false
can_go Pc.refused _ = false
can_go Pc.asleep _ = false
can_go Pc.locking none = true
can_go Pc.locking (some _) = false
can_go _ _ = true

abbrev pub is_at_end : Pc → Bool
is_at_end Pc.idle = true
is_at_end Pc.passed = true
is_at_end _ = false

at-goto : (s : State) (i : ℕ) (p : Pc) → update s.pc i p i ≡ p
at-goto s i p = ground (arith, ==_iff i i)

if-pc :
    (b : Bool) (s t : State) (i : ℕ) → (if b then s else t).pc i ≡ (if b then s.pc i else t.pc i)
if-pc true s t i = refl
if-pc false s t i = refl

-- The place of a worker after its own access.
abbrev pub next_pc : State → Pc → Pc
next_pc s Pc.entered = if s.cancelled then Pc.refused else Pc.running
next_pc s Pc.running = if s.paused then Pc.locking else Pc.leaving
next_pc s Pc.locking = Pc.looping
next_pc s Pc.looping = if s.paused then Pc.paused_seen else Pc.leaving
next_pc s Pc.paused_seen = if s.cancelled then Pc.leaving else Pc.waiting
next_pc s Pc.waiting = Pc.asleep
next_pc s Pc.leaving = if s.cancelled then Pc.refused else Pc.passed
next_pc s p = p

pc-advance_at :
    (s : State) (i : ℕ) (p : Pc) (o : Option ℕ)
    → s.pc i ≡ p
    → s.holder ≡ o
    → can_go p o ≡ true
    → (advance_at s i p).pc i ≡ next_pc s p
pc-advance_at s i Pc.entered o e h g = at-goto s i _
pc-advance_at s i Pc.running o e h g = at-goto s i _
pc-advance_at s i Pc.locking none e h g = ap (λ o. (lock s i o).pc i) h ∙ at-goto s i Pc.looping
pc-advance_at s i Pc.locking (some k) e h g = ground (arith, g)
pc-advance_at s i Pc.looping o e h g = ground (arith, ==_iff i i)
pc-advance_at s i Pc.paused_seen o e h g = ground (arith, ==_iff i i)
pc-advance_at s i Pc.waiting o e h g = at-goto s i _
pc-advance_at s i Pc.leaving o e h g = at-goto s i _
pc-advance_at s i Pc.idle o e h g = ground (arith, g)
pc-advance_at s i Pc.asleep o e h g = ground (arith, g)
pc-advance_at s i Pc.passed o e h g = ground (arith, g)
pc-advance_at s i Pc.refused o e h g = ground (arith, g)

next_pc-rank :
    (s : State) (p : Pc) (o : Option ℕ)
    → s.cancelled ≡ true
    → can_go p o ≡ true
    → (rank (next_pc s p) + 1 ≤ rank p) × (is_at_end (next_pc s p) ≡ false)
next_pc-rank s Pc.entered o c g = (ground (arith, c, g), ground (arith, c, g))
next_pc-rank s Pc.running o c g = (ground (arith, c, g), ground (arith, c, g))
next_pc-rank s Pc.locking o c g = (ground (arith, c, g), ground (arith, c, g))
next_pc-rank s Pc.looping o c g = (ground (arith, c, g), ground (arith, c, g))
next_pc-rank s Pc.paused_seen o c g = (ground (arith, c, g), ground (arith, c, g))
next_pc-rank s Pc.waiting o c g = (ground (arith, c, g), ground (arith, c, g))
next_pc-rank s Pc.leaving o c g = (ground (arith, c, g), ground (arith, c, g))
next_pc-rank s Pc.idle o c g = (ground (arith, c, g), ground (arith, c, g))
next_pc-rank s Pc.asleep o c g = (ground (arith, c, g), ground (arith, c, g))
next_pc-rank s Pc.passed o c g = (ground (arith, c, g), ground (arith, c, g))
next_pc-rank s Pc.refused o c g = (ground (arith, c, g), ground (arith, c, g))

-- In a run that was cancelled, a worker that can go on comes nearer to its end with its own next
-- access, and never ends as if nothing had happened: what it gets is the refusal.
pub advance-rank :
    (s : State) (i : ℕ)
    → s.cancelled ≡ true
    → can_go (s.pc i) s.holder ≡ true
    → (rank ((advance s i).pc i) + 1 ≤ rank (s.pc i)) × (is_at_end ((advance s i).pc i) ≡ false)
advance-rank s i c g =
    subst (λ p. (rank p + 1 ≤ rank (s.pc i)) × (is_at_end p ≡ false))
      (sym (pc-advance_at s i (s.pc i) s.holder refl refl g)) (next_pc-rank s (s.pc i) s.holder c g)

module _ (s : State) (i : ℕ) (c : s.cancelled ≡ true) (j : ℕ) where
  lock_up :
      (o : Option ℕ) → s.holder ≡ o → s.pc i ≡ Pc.locking → rank ((lock s i o).pc j) ≤ rank (s.pc j)
  lock_up none h e = ground (arith, ==_iff i j)
  lock_up (some k) h e = ground arith

  rank-advance_at : (p : Pc) → s.pc i ≡ p → rank ((advance_at s i p).pc j) ≤ rank (s.pc j)
  rank-advance_at Pc.entered e = ground (arith, ==_iff i j)
  rank-advance_at Pc.running e = ground (arith, ==_iff i j)
  rank-advance_at Pc.locking e = lock_up s.holder refl e
  rank-advance_at Pc.looping e = ground (arith, ==_iff i j)
  rank-advance_at Pc.paused_seen e = ground (arith, ==_iff i j)
  rank-advance_at Pc.waiting e = ground (arith, ==_iff i j)
  rank-advance_at Pc.leaving e = ground (arith, ==_iff i j)
  rank-advance_at Pc.idle e = ground arith
  rank-advance_at Pc.asleep e = ground arith
  rank-advance_at Pc.passed e = ground arith
  rank-advance_at Pc.refused e = ground arith

cancelled-lock : (s : State) (i : ℕ) (o : Option ℕ) → (lock s i o).cancelled ≡ s.cancelled
cancelled-lock s i none = refl
cancelled-lock s i (some k) = refl

cancelled-advance_at : (s : State) (i : ℕ) (p : Pc) → (advance_at s i p).cancelled ≡ s.cancelled
cancelled-advance_at s i Pc.entered = refl
cancelled-advance_at s i Pc.running = refl
cancelled-advance_at s i Pc.locking = cancelled-lock s i s.holder
cancelled-advance_at s i Pc.looping = ground arith
cancelled-advance_at s i Pc.paused_seen = ground arith
cancelled-advance_at s i Pc.waiting = refl
cancelled-advance_at s i Pc.leaving = refl
cancelled-advance_at s i Pc.idle = refl
cancelled-advance_at s i Pc.asleep = refl
cancelled-advance_at s i Pc.passed = refl
cancelled-advance_at s i Pc.refused = refl

woken_le : (p : Pc) → rank (woken p) ≤ rank p
woken_le p = ground arith

-- No step takes a cancellation back, and none moves a worker inside `checkpoint` away from its end.
pub Step-rank :
    {s t : State}
    → Step s t
    → (j : ℕ) → s.cancelled ≡ true
    → is_out (s.pc j) ≡ false
    → (t.cancelled ≡ true) × (rank (t.pc j) ≤ rank (s.pc j))
Step-rank (pauses s) j c o = (c, ground arith)
Step-rank (resumes s) j c o = (c, ground arith)
Step-rank (cancels s) j c o = (refl, ground arith)
Step-rank (notifies s due e) j c o = (c, woken_le (s.pc j))
Step-rank (begins s i e) j c o = (c, ground (arith, ==_iff i j))
Step-rank (works s i) j c o =
    (cancelled-advance_at s i (s.pc i) ∙ c, rank-advance_at s i c j (s.pc i) refl)
Step-rank (stirs s i e) j c o = (c, ground (arith, ==_iff i j))

-- The wake-up that is lost. A worker that has seen the pause and not yet begun to wait can come to
-- sleep in a run that was resumed and cancelled, after both of their notifications: nothing that
-- was due is left but what was due before, and the worker does nothing more by itself.
pub lost_wake_up :
    (s : State) (i : ℕ)
    → s.pc i ≡ Pc.waiting
    → (t : State) × Reach s t
      × (t.pc i ≡ Pc.asleep)
      × (t.paused ≡ false)
      × (t.cancelled ≡ true)
      × (t.due ≡ s.due)
      × (advance t i ≡ t)
lost_wake_up s i e =
    let a = notify_all s.due (resume_store s) in
    let b = notify_all s.due (cancel_store a) in
    let w = ap (λ p. woken (woken p)) e in
    let t = unlock b i Pc.asleep in
    let z = at-goto b i Pc.asleep in
    (
      t,
      next
          (next
            (next (next (next here (resumes s)) (notifies (resume_store s) s.due (ground arith)))
              (cancels a))
            (notifies (cancel_store a) s.due (ground arith)))
          (subst (λ p. Step b (advance_at b i p)) w (works b i)),
      z,
      refl,
      refl,
      refl,
      ap (advance_at t i) z,
    )
