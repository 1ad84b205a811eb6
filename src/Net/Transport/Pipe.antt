-- ===== src/Net/Transport/Pipe.antt =====
-- The in-process pipe in every order of writes, reads and the close.
use ripsync.Prelude.{
  ℕ, zero, suc, ◌≤◌, ◌≡◌, refl, sym, ap, ◌∙◌, arith, true, false, none, some, List, [], ◌∷◌, ◌++◌,
  length, take, min, is_empty, take-append-drop, length-take, Bool-cases, inl, inr,
}
use mathlib.Core.List.{append_assoc, append-nil}
use ripsync.Net.Transport.{PipeState, new_pipe, pipe_write, pipe_close, pipe_read}

-- A pipe's state with all that was written to it and all that was read from it. A closed pipe has
-- no writer any more.
pub data Run : PipeState → List ℕ → List ℕ → Type 0 where
  start : Run new_pipe [] []
  wrote :
      {s : PipeState} {written got : List ℕ} (bytes : List ℕ)
      → Run s written got
      → s.closed ≡ false
      → Run (pipe_write bytes s) (written ++ bytes) got
  closed :
      {s : PipeState} {written got : List ℕ} → Run s written got → Run (pipe_close s) written got
  took :
      {s s' : PipeState} {written got bytes : List ℕ} (n : ℕ)
      → Run s written got
      → pipe_read n s ≡ some (bytes, s')
      → Run s' written (got ++ bytes)

some-injective : {A : Type 0} {a b : A} → some a ≡ some b → a ≡ b
some-injective h = cc

none≢some : {A : Type 0} {a : A} → ¬ (none ≡ some a)
none≢some h = cc

-- The buffer that a read leaves, behind the bytes that it gives.
abbrev joined : List ℕ × PipeState → List ℕ
joined (bytes, s) = bytes ++ s.buf

-- A read takes its bytes from the front of the buffer.
pipe_read_front :
    (n : ℕ) (s s' : PipeState) (bytes : List ℕ)
    → pipe_read n s ≡ some (bytes, s')
    → bytes ++ s'.buf ≡ s.buf
unfolding pipe_read
pipe_read_front zero s s' bytes h = ap joined (sym (some-injective h))
pipe_read_front (suc n) s s' bytes h = elim (Bool-cases (is_empty s.buf)) [
  | inl e ↦ elim (Bool-cases s.closed) [
    | inl c ↦ ap joined (sym (some-injective (rw (e, c) at h)))
    | inr c ↦ absurd (none≢some (rw (e, c) at h))
  ]
  | inr e ↦
      ap joined (sym (some-injective (rw e at h)))
      ∙ take-append-drop (min (length s.buf) (suc n)) s.buf
]

-- In every run, what was read and what waits in the buffer is what was written, in its order.
pub pipe_read-pipe_write :
    (s : PipeState) (written got : List ℕ) → Run s written got → got ++ s.buf ≡ written
unfolding pipe_write pipe_close
pipe_read-pipe_write _ _ _ start = refl
pipe_read-pipe_write _ _ _ (wrote {s} {written} {got} bytes run alive) =
    sym (append_assoc got s.buf bytes)
    ∙ ap (λ (bs : List ℕ). bs ++ bytes) (pipe_read-pipe_write s written got run)
pipe_read-pipe_write _ _ _ (closed {s} {written} {got} run) = pipe_read-pipe_write s written got run
pipe_read-pipe_write _ _ _ (took {s} {s'} {written} {got} {bytes} n run h) =
    append_assoc got bytes s'.buf
    ∙ ap (λ (bs : List ℕ). got ++ bs) (pipe_read_front n s s' bytes h)
    ∙ pipe_read-pipe_write s written got run

is_empty→nil : (xs : List ℕ) → is_empty xs ≡ true → xs ≡ []
is_empty→nil [] h = refl
is_empty→nil (x ∷ xs) h = ground arith

length-nonempty : (xs : List ℕ) → is_empty xs ≡ false → 1 ≤ length xs
length-nonempty [] h = ground arith
length-nonempty (x ∷ xs) h = omega arith

-- A read into a buffer with room that gives nothing is the end: the writer is gone, and all that
-- it wrote was read.
pub pipe_read_end :
    (n : ℕ) (s s' : PipeState) (written got : List ℕ)
    → Run s written got
    → pipe_read (suc n) s ≡ some ([], s')
    → (s.closed ≡ true) × (got ≡ written)
unfolding pipe_read
pipe_read_end n s s' written got run h = elim (Bool-cases (is_empty s.buf)) [
  | inl e ↦ elim (Bool-cases s.closed) [
    | inl c ↦ (
      c,
      sym (append-nil got)
          ∙ ap (λ (bs : List ℕ). got ++ bs) (sym (is_empty→nil s.buf e))
          ∙ pipe_read-pipe_write s written got run,
    )
    | inr c ↦ absurd (none≢some (rw (e, c) at h))
  ]
  | inr e ↦
      let nothing : take (min (length s.buf) (suc n)) s.buf ≡ [] =
        ap (λ (p : List ℕ × PipeState). p.0) (some-injective (rw e at h)) in
      absurd (
        omega (
          arith,
          ap (λ (bs : List ℕ). length bs) nothing,
          length-take (min (length s.buf) (suc n)) s.buf,
          length-nonempty s.buf e,
        ))
]
