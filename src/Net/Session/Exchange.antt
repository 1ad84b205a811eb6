-- ===== src/Net/Session/Exchange.antt =====
-- Pieces of the receiver's work with the sender's part in them.
use ripsync.Prelude.{
  ℕ, ◌+◌, ◌≤◌, ◌≡◌, refl, sym, ap, ◌∙◌, arith, Bool, true, false, not, ◌&&◌, Option, none, some,
  List, [], ◌∷◌, ◌++◌, length, length-append, ok, err, ◌>>=◌, ◌>>◌, Bool-cases, Option-cases,
  Result-cases, inl, inr,
}
use mathlib.Core.List.{append_assoc, append-nil}
use ripsync.Errors.{FilePath, Outcome}
use ripsync.Entries.{Entry}
use ripsync.Disk.{AbsPath, Disk}
use ripsync.Meta.{check_relative, names}
use ripsync.Delta.{compute, apply}
use ripsync.Delta.Codec.{block_choice_pos}
use ripsync.Delta.Termination.{encode_with_signature_total}
use ripsync.Net.Proto.{NetOptions, NetKind, NetEntry, Request, Data, Msg, Conn, send, receive}
use ripsync.Net.Sender.{
  Codecs, Source, answer, serve, whole_data, whole_answer, Sendable, send_ok-Sendable,
}
use ripsync.Net.Receiver.{
  Work, request_for, bytes_in, fetch_bytes, receive_file, receive_entry, receive_kind, file_at,
  unchanged, ensure_and_contain, existing_at, is_existing_file, store, applied, fail, unpack,
  or_empty, whole_bytes,
}

module _ (c : Codecs) (options : NetOptions) (source : Source)
    (alive : (n : ℕ) → source.checkpoint n ≡ ok tt) where
  -- A piece of the receiver's work, with the messages that it sends and those that it is sent in
  -- return by the sender's loop.
  pub record Exchange {A : Type 0} (piece : Conn → Outcome (A × Conn)) (result : A) : Type 0 where
    pub requests : List Msg
    pub replies : List Msg
    pub received :
        (rest out : List Msg)
        → piece (record { input = replies ++ rest; output = out })
          ≡ ok (result, record { input = rest; output = out ++ requests })
    pub served :
        (n : ℕ) (more sent : List Msg)
        → serve c options source n (requests ++ more) sent
          ≡ serve c options source (n + length requests) more (sent ++ replies)

  pub no-Exchange : {A : Type 0} (result : A) → Exchange (λ conn. ok (result, conn)) result
  no-Exchange result = record {
    requests = [];
    replies = [];
    received = λ rest out.
        ap (λ (o : List Msg). ok (result, record { input = rest; output = o }))
          (sym (append-nil out));
    served = λ n more sent.
        ap (λ (k : ℕ). serve c options source k more sent) (omega arith)
        ∙ ap (λ (o : List Msg). serve c options source (n + 0) more o) (sym (append-nil sent));
  }

  pub same_piece :
      {A : Type 0} (p q : Conn → Outcome (A × Conn)) (result : A)
      → ((conn : Conn) → p conn ≡ q conn)
      → Exchange q result
      → Exchange p result
  same_piece p q result same x = record {
    requests = x.requests;
    replies = x.replies;
    received = λ rest out. same _ ∙ x.received rest out;
    served = x.served;
  }

  -- One piece after another.
  pub both :
      {A B : Type 0} (first : Conn → Outcome (A × Conn)) (next : A → Conn → Outcome (B × Conn))
      (a : A) (b : B)
      → Exchange first a
      → Exchange (next a) b
      → Exchange (λ conn. first conn >>= λ got. next got.0 got.1) b
  both {A = A} first next a b x y = record {
    requests = x.requests ++ y.requests;
    replies = x.replies ++ y.replies;
    received = λ rest out.
        ap
          (λ (i : List Msg). first (record { input = i; output = out }) >>= λ got. next got.0 got.1)
          (append_assoc x.replies y.replies rest)
        ∙ ap (λ (r : Outcome (A × Conn)). r >>= λ got. next got.0 got.1)
            (x.received (y.replies ++ rest) out)
        ∙ y.received rest (out ++ x.requests)
        ∙ ap (λ (o : List Msg). ok (b, record { input = rest; output = o }))
            (append_assoc out x.requests y.requests);
    served = λ n more sent.
        ap (λ (i : List Msg). serve c options source n i sent)
          (append_assoc x.requests y.requests more)
        ∙ x.served n (y.requests ++ more) sent
        ∙ y.served (n + length x.requests) more (sent ++ x.replies)
        ∙ ap (λ (k : ℕ). serve c options source k more ((sent ++ x.replies) ++ y.replies))
            (omega (arith, length-append x.requests y.requests))
        ∙ ap
            (λ (o : List Msg).
              serve c options source (n + length (x.requests ++ y.requests)) more o)
            (append_assoc sent x.replies y.replies);
  }

  -- A request that the sender answers.
  pub asked :
      {A : Type 0} (r : Request) (reply : Data) (piece : Conn → Outcome (A × Conn)) (result : A)
      → answer c options source r ≡ some reply
      → Sendable c (Msg.data_of reply)
      → ((rest out : List Msg)
          → piece (record { input = Msg.data_of reply ∷ rest; output = out })
            ≡ ok (result, record { input = rest; output = out ++ (Msg.request r ∷ []) }))
      → Exchange piece result
  unfolding serve
  asked r reply piece result e fits received = record {
    requests = Msg.request r ∷ [];
    replies = Msg.data_of reply ∷ [];
    received = received;
    served = λ n more sent.
        rw (alive n, serve) (rw (e) (rw (send_ok-Sendable c (Msg.data_of reply) fits)));
  }

  module _ {S : Type 0} (disk : Disk S) where
    -- The sender answers the receiver's request for a file, and the receiver takes the answer.
    pub record Answered (e : NetEntry) (use_delta : Bool) (old : Option (List ℕ)) : Type 0 where
      pub reply : Data
      pub bytes : Option (List ℕ)
      pub answered :
          answer c options source (request_for disk c options e use_delta old) ≡ some reply
      pub taken : bytes_in disk c options use_delta old (Msg.data_of reply) ≡ ok bytes

    -- A whole file, packed or not, is taken.
    whole_taken :
        (found : Option (List ℕ))
        → (bytes : Option (List ℕ)) × (whole_bytes c
              (Msg.data_of (whole_answer c options source found))
            ≡ ok bytes)
    unfolding whole_data
    whole_taken none = (none, refl)
    whole_taken (some bytes) = elim (Bool-cases options.compress) [
      | inr f ↦ (unpack c bytes false, rw f)
      | inl t ↦ elim (Option-cases (c.zstd_encode options.compress_level bytes)) [
        | inl n ↦ (unpack c bytes false, rw (t, n))
        | inr (packed, z) ↦ (unpack c packed true, rw (t, z))
      ]
    ]

    compute_pos : (old : List ℕ) → 1 ≤ (compute c.blake3_hash c.sqrt_round old none).block_size
    unfolding compute
    compute_pos old = ground (arith, block_choice_pos c.blake3_hash c.sqrt_round (length old) none)

    request-Answered :
        (e : NetEntry) (use_delta : Bool) (old : Option (List ℕ)) → Answered e use_delta old
    unfolding answer request_for bytes_in
    request-Answered e false old =
        let (bytes, taken) = whole_taken (source.read e.rel) in
        record {
          reply = whole_answer c options source (source.read e.rel);
          bytes = bytes;
          answered = refl;
          taken = taken;
        }
    request-Answered e true old = elim (Option-cases (source.read e.rel)) [
      | inl n ↦ record { reply = Data.not_found; bytes = none; answered = rw (n); taken = refl }
      | inr (bytes, r) ↦
          let sig = compute c.blake3_hash c.sqrt_round (or_empty old) none in
          let (d, encoded, _) =
            encode_with_signature_total c.blake3_hash sig bytes (compute_pos (or_empty old)) in
          record {
            reply = Data.delta d;
            bytes = applied (apply (or_empty old) d);
            answered = rw (r) (rw (encoded));
            taken = refl;
          }
    ]

    -- Every request that the receiver can make for this entry, with a signature of what its own
    -- tree holds in any state, can be sent, and so can the answer to it.
    abbrev pub Askable : NetEntry → Type 0
    Askable e =
        (use_delta : Bool) (dst : AbsPath) (s : S)
        → Sendable c (Msg.request (request_for disk c options e use_delta (disk.read s dst)))
          × ((reply : Data)
              → answer c options source (request_for disk c options e use_delta (disk.read s dst))
                ≡ some reply
              → Sendable c (Msg.data_of reply))

    fetch_bytes-Exchange :
        (e : NetEntry) (dst : AbsPath) (existed : Bool) (s : S)
        → Askable e
        → (bytes : Option (List ℕ)) × Exchange (fetch_bytes disk c options e dst existed s) bytes
    unfolding fetch_bytes
    fetch_bytes-Exchange e dst existed s fits =
        let use_delta = not options.whole_file && existed in
        let old = disk.read s dst in
        let a = request-Answered e use_delta old in
        let request = Msg.request (request_for disk c options e use_delta old) in
        (
          a.bytes,
          asked (request_for disk c options e use_delta old) a.reply
              (fetch_bytes disk c options e dst existed s) a.bytes a.answered
              ((fits use_delta dst s).1 a.reply a.answered)
              (λ rest out.
                ap
                  (λ (r : Outcome (Unit {0})).
                    r
                    >> receive
                        (send request (record { input = Msg.data_of a.reply ∷ rest; output = out }))
                    >>= λ (got : Msg × Conn).
                        bytes_in disk c options use_delta old got.0 >>= λ bytes. ok (bytes, got.1))
                  (send_ok-Sendable c request (fits use_delta dst s).0)
                ∙ ap
                    (λ (r : Outcome (Option (List ℕ))). r >>= λ (bytes : Option (List ℕ)). ok (
                      bytes,
                      record {
                        input = rest;
                        output =
                            out ++ (Msg.request (request_for disk c options e use_delta old) ∷ []);
                      },
                    ))
                    a.taken),
        )

    file_at-Exchange :
        (e : NetEntry) (existed : Bool) (dst : Outcome AbsPath) (work : Work disk c options)
        → Askable e
        → (after : Work disk c options) × Exchange (file_at disk c options e existed dst work) after
    file_at-Exchange e existed (err _) (s, stats) fits = (_, no-Exchange _)
    file_at-Exchange e existed (ok dst) (s, stats) fits =
        let (bytes, x) = fetch_bytes-Exchange e dst existed s fits in
        (
          store disk c options e dst existed bytes (s, stats),
          both (fetch_bytes disk c options e dst existed s)
              (λ (got : Option (List ℕ)) conn.
                ok (store disk c options e dst existed got (s, stats), conn))
              bytes (store disk c options e dst existed bytes (s, stats)) x (no-Exchange _),
        )

    receive_file-Exchange :
        (root : AbsPath) (e : NetEntry) (existing : Option Entry) (work : Work disk c options)
        → Askable e
        → (after : Work disk c options) × Exchange
            (receive_file disk c options root e existing work)
            after
    unfolding receive_file
    receive_file-Exchange root e existing (s, stats) fits =
        elim (Bool-cases (unchanged disk c options e existing)) [
          | inl t ↦
              let after : Work disk c options = (s, record stats { skipped = stats.skipped + 1 }) in
              (after, same_piece _ _ after (λ conn. rw (t, receive_file)) (no-Exchange after))
          | inr f ↦
              let found = ensure_and_contain disk c options root (names e.rel) s in
              let (after, x) =
                file_at-Exchange e (is_existing_file disk c options existing) found.0
                  (found.1, stats) fits in
              (after, same_piece _ _ after (λ conn. rw (f, receive_file)) x)
        ]

    receive_kind-Exchange :
        (symlink_text : FilePath → List ℕ) (root : AbsPath) (e : NetEntry) (kind : NetKind)
        (existing : Option Entry) (work : Work disk c options)
        → Askable e
        → (after : Work disk c options) × Exchange
            (receive_kind disk c options symlink_text root e kind existing work)
            after
    receive_kind-Exchange symlink_text root e NetKind.dir existing work fits = (_, no-Exchange _)
    receive_kind-Exchange symlink_text root e (NetKind.symlink target) existing work fits =
        (_, no-Exchange _)
    receive_kind-Exchange symlink_text root e NetKind.file existing work fits =
        receive_file-Exchange root e existing work fits

    -- One entry, whatever it is and whatever the file system makes of it, where its request and the
    -- answer can be sent.
    pub receive_entry-Exchange :
        (symlink_text : FilePath → List ℕ) (root : AbsPath) (existing : List Entry) (e : NetEntry)
        (work : Work disk c options)
        → Askable e
        → (after : Work disk c options) × Exchange
            (receive_entry disk c options symlink_text root existing e work)
            after
    unfolding receive_entry
    receive_entry-Exchange symlink_text root existing e (s, stats) fits =
        elim (Result-cases (check_relative e.rel)) [
          | inr (bad, h) ↦
              let after : Work disk c options = (s, fail stats) in
              (after, same_piece _ _ after (λ conn. rw (h, receive_entry)) (no-Exchange after))
          | inl (_, h) ↦
              let (after, x) =
                receive_kind-Exchange symlink_text root e e.kind (existing_at existing e.rel)
                  (s, stats) fits in
              (after, same_piece _ _ after (λ conn. rw (h, receive_entry)) x)
        ]
