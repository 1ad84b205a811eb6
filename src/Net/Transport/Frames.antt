-- ===== src/Net/Transport/Frames.antt =====
-- Frames on a stream: what was sent is received, and what is cut short or too large is refused.
use ripsync.Prelude.{
  ℕ, zero, suc, ◌*◌, ◌/◌, ◌^◌, ◌≤◌, ◌<◌, ◌≡◌, refl, sym, ap, ◌∙◌, arith, true, false, some, List,
  [], ◌∷◌, ◌++◌, length, take, drop, leb, ltb, ok, err, ◌>>=◌, >>=-eq-ok, ok-injective, All,
  length-append, length-take, take_past, ◌-◌, take-append_all, drop-append_all, le→leb,
  ltb_false→le, Bool-cases, Option-cases, inl, inr,
}
use native.Mathlib.Decide.{dec_lt}
use mathlib.Core.List.{append_assoc, append-nil}
use ripsync.Errors.{Outcome, Error, bare_io, protocol}
use ripsync.Net.Transport.{
  max_frame, le_bytes, of_le_bytes, receive_exact, Wire, frame, send_msg, decoded, receive_body,
  recv_msg, send_msgs, recv_msgs,
}

-- The numbers of so many bytes.
abbrev bound : ℕ → ℕ
bound zero = 1
bound (suc width) = 256 * bound width

of_le_bytes-le_bytes : (width n : ℕ) → n < bound width → of_le_bytes (le_bytes width n) ≡ n
unfolding of_le_bytes le_bytes
of_le_bytes-le_bytes zero n h = omega arith
of_le_bytes-le_bytes (suc width) n h =
    omega (arith, of_le_bytes-le_bytes width (n / 256) (omega arith))

length-le_bytes : (width n : ℕ) → length (le_bytes width n) ≡ width
unfolding le_bytes
length-le_bytes zero n = refl
length-le_bytes (suc width) n = omega (arith, length-le_bytes width (n / 256))

receive_exact-append :
    (n : ℕ) (xs ys : List ℕ) → length xs ≡ n → receive_exact n (xs ++ ys) ≡ ok (xs, ys)
unfolding receive_exact
receive_exact-append n xs ys e =
    let room : leb n (length (xs ++ ys)) ≡ true = le→leb _ _ (omega (arith, length-append xs ys)) in
    rw room (λ i. ok (front i, rest i))
  where
    front : take n (xs ++ ys) ≡ xs
    front = ap (λ (k : ℕ). take k (xs ++ ys)) (sym e) ∙ take-append_all xs ys

    rest : drop n (xs ++ ys) ≡ ys
    rest = ap (λ (k : ℕ). drop k (xs ++ ys)) (sym e) ∙ drop-append_all xs ys

receive_exact_short :
    (n : ℕ) (stream : List ℕ) → length stream < n → receive_exact n stream ≡ err bare_io
unfolding receive_exact
receive_exact_short n stream h =
    let short : leb n (length stream) ≡ false = ground arith in rw short

err≢ok : {A : Type 0} {e : Error} {a : A} → ¬ (◌≡◌ {A = Outcome A} (err e) (ok a))
err≢ok h = cc

module _ {Msg : Type 0} (wire : Wire Msg) where
  -- `bincode` reads back what it wrote of a message.
  abbrev pub ReadsBack : Msg → Type 0
  ReadsBack msg =
      (bytes : List ℕ) → wire.serialize msg ≡ some bytes → wire.deserialize bytes ≡ some msg

  -- What `send_msg` puts on the stream.
  record Sent (stream sent : List ℕ) (msg : Msg) : Type 0 where
    bytes : List ℕ
    serialized : wire.serialize msg ≡ some bytes
    small : length bytes ≤ max_frame
    on_stream : sent ≡ stream ++ frame bytes

  send_msg-ok :
      (stream sent : List ℕ) (msg : Msg) → send_msg wire stream msg ≡ ok sent → Sent stream sent msg
  unfolding send_msg
  send_msg-ok stream sent msg h = elim (Option-cases (wire.serialize msg)) [
    | inl n ↦ absurd (err≢ok (rw (n, send_msg) at h))
    | inr (bytes, e) ↦
        let h' = rw (e, send_msg) at h in
        elim (Bool-cases (ltb max_frame (length bytes))) [
          | inl t ↦ absurd (err≢ok (rw t at h'))
          | inr f ↦ record {
            bytes = bytes;
            serialized = e;
            small = ltb_false→le max_frame (length bytes) f;
            on_stream = sym (ok-injective (rw f at h'));
          }
        ]
  ]

  receive_body-append :
      (bytes rest : List ℕ) (msg : Msg)
      → length bytes ≤ max_frame
      → wire.deserialize bytes ≡ some msg
      → receive_body wire (length bytes) (bytes ++ rest) ≡ ok (msg, rest)
  unfolding receive_body
  receive_body-append bytes rest msg small back =
      let room : ltb max_frame (length bytes) ≡ false = ground arith in
      rw room (
        ap
          (λ (body : Outcome (List ℕ × List ℕ)).
            body >>= λ (b : List ℕ × List ℕ). decoded wire b.1 (wire.deserialize b.0))
          (receive_exact-append (length bytes) bytes rest refl)
        ∙ ap (decoded wire rest) back)

  -- A frame's length is read before anything else.
  recv_msg-le_bytes :
      (n : ℕ) (rest : List ℕ)
      → n < bound 8
      → recv_msg wire (le_bytes 8 n ++ rest) ≡ receive_body wire n rest
  unfolding recv_msg
  recv_msg-le_bytes n rest h =
      ap
        (λ (head : Outcome (List ℕ × List ℕ)).
          head >>= λ (b : List ℕ × List ℕ). receive_body wire (of_le_bytes b.0) b.1)
        (receive_exact-append 8 (le_bytes 8 n) rest (length-le_bytes 8 n))
      ∙ ap (λ (k : ℕ). receive_body wire k rest) (of_le_bytes-le_bytes 8 n h)

  recv_msg-frame :
      (bytes rest : List ℕ) (msg : Msg)
      → length bytes ≤ max_frame
      → wire.deserialize bytes ≡ some msg
      → recv_msg wire (frame bytes ++ rest) ≡ ok (msg, rest)
  recv_msg-frame bytes rest msg small back =
      ap (λ (stream : List ℕ). recv_msg wire stream)
        (append_assoc (le_bytes 8 (length bytes)) bytes rest)
      ∙ recv_msg-le_bytes (length bytes) (bytes ++ rest) (omega arith)
      ∙ receive_body-append bytes rest msg small back

  -- A length above the bound is refused, whatever follows it.
  pub recv_msg_large :
      (n : ℕ) (rest : List ℕ)
      → max_frame < n
      → n < 2 ^ 64
      → recv_msg wire (le_bytes 8 n ++ rest) ≡ err protocol
  unfolding receive_body
  recv_msg_large n rest large h =
      let test : ltb max_frame n ≡ true = ground arith in
      recv_msg-le_bytes n rest (omega arith) ∙ rw test

  recv_msgs-send_msgs_from :
      (msgs : List Msg) (stream sent rest : List ℕ)
      → All ReadsBack msgs
      → send_msgs wire stream msgs ≡ ok sent
      → (body : List ℕ) × (sent ≡ stream ++ body)
        × (recv_msgs wire (length msgs) (body ++ rest) ≡ ok (msgs, rest))
  unfolding send_msgs recv_msgs
  recv_msgs-send_msgs_from [] stream sent rest _ h =
      ([], sym (ok-injective h) ∙ sym (append-nil stream), refl)
  recv_msgs-send_msgs_from (msg ∷ msgs) stream sent rest (back, backs) h =
      let (next, first, later) = >>=-eq-ok (send_msg wire stream msg) _ h in
      let s = send_msg-ok stream next msg first in
      let (body, e, received) = recv_msgs-send_msgs_from msgs next sent rest backs later in
      (
        frame s.bytes ++ body,
        e ∙ ap (λ (bs : List ℕ). bs ++ body) s.on_stream ∙ append_assoc stream (frame s.bytes) body,
        ap (λ (bs : List ℕ). recv_msgs wire (suc (length msgs)) bs)
              (append_assoc (frame s.bytes) body rest)
            ∙ ap
                (λ (got : Outcome (Msg × List ℕ)). got >>= λ (first : Msg × List ℕ).
                  recv_msgs wire (length msgs) first.1 >>= λ (others : List Msg × List ℕ).
                  ok (first.0 ∷ others.0, others.1))
                (recv_msg-frame s.bytes (body ++ rest) msg s.small (back s.bytes s.serialized))
            ∙ ap
                (λ (got : Outcome (List Msg × List ℕ)).
                  got >>= λ (others : List Msg × List ℕ). ok (msg ∷ others.0, others.1))
                received,
      )

  -- Messages that were all sent, and that `bincode` reads back, are received in their order by as
  -- many calls, and what follows them on the stream is left there.
  pub recv_msgs-send_msgs :
      (msgs : List Msg) (sent rest : List ℕ)
      → All ReadsBack msgs
      → send_msgs wire [] msgs ≡ ok sent
      → recv_msgs wire (length msgs) (sent ++ rest) ≡ ok (msgs, rest)
  recv_msgs-send_msgs msgs sent rest backs h =
      let (body, e, received) = recv_msgs-send_msgs_from msgs [] sent rest backs h in
      ap (λ (bs : List ℕ). recv_msgs wire (length msgs) (bs ++ rest)) e ∙ received

  receive_body_short :
      (n : ℕ) (stream : List ℕ)
      → n ≤ max_frame
      → length stream < n
      → receive_body wire n stream ≡ err bare_io
  unfolding receive_body
  receive_body_short n stream small h =
      let room : ltb max_frame n ≡ false = ground arith in
      rw room (
        ap
          (λ (body : Outcome (List ℕ × List ℕ)).
            body >>= λ (b : List ℕ × List ℕ). decoded wire b.1 (wire.deserialize b.0))
          (receive_exact_short n stream h))

  recv_msg_short : (stream : List ℕ) → length stream < 8 → recv_msg wire stream ≡ err bare_io
  unfolding recv_msg
  recv_msg_short stream h =
      ap
        (λ (head : Outcome (List ℕ × List ℕ)).
          head >>= λ (b : List ℕ × List ℕ). receive_body wire (of_le_bytes b.0) b.1)
        (receive_exact_short 8 stream h)

  -- A stream that ends within a frame of at most `max_frame` bytes, be it in the eight bytes of the
  -- length or in the bytes behind them, is an error of the stream.
  pub recv_msg_cut :
      (bytes : List ℕ) (k : ℕ)
      → length bytes ≤ max_frame
      → k < length (frame bytes)
      → recv_msg wire (take k (frame bytes)) ≡ err bare_io
  recv_msg_cut bytes k small h = elim (dec_lt k 8) [
    | yes early ↦ recv_msg_short (take k (frame bytes)) (omega (arith, length-take k (frame bytes)))
    | no later ↦
        let prefix = length-le_bytes 8 (length bytes) in
        let whole = length-append (le_bytes 8 (length bytes)) bytes in
        ap (recv_msg wire) (take_past k 8 (le_bytes 8 (length bytes)) bytes prefix (omega arith))
        ∙ recv_msg-le_bytes (length bytes) (take (k - 8) bytes) (omega arith)
        ∙ receive_body_short (length bytes) (take (k - 8) bytes) small
            (omega (arith, length-take (k - 8) bytes))
  ]
