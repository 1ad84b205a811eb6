-- ===== src/Net/Session/Whole.antt =====
-- Whole sessions: `run_sender` and `run_receiver` with the messages of each other.
use ripsync.Prelude.{
  ℕ, suc, ◌+◌, ◌≡◌, refl, sym, ap, ◌∙◌, arith, some, List, [], ◌∷◌, ◌++◌, map, length, All,
  if◌then◌else◌, ok, ◌>>=◌, ◌>>◌, Bool-cases, inl, inr, Bool,
}
use mathlib.Core.List.{append-nil}
use ripsync.Errors.{Outcome}
use ripsync.Entries.{Entry}
use ripsync.Disk.{AbsPath}
use ripsync.Meta.{canonical_root}
use ripsync.Report.{Stats, no_stats}
use ripsync.Net.Proto.{NetOptions, NetEntry, Msg, Conn}
use ripsync.Net.Sender.{
  Codecs, Source, net_entry, send_entries, serve, started, run_sender, Sendable, send_ok,
  send_ok-Sendable,
}
use ripsync.Net.Receiver.{Work, receive_entry}
use ripsync.Net.Receiver.Run.{
  Destination, receive_list, receive_entries, victims, remove_victim, remove_victims, mirror,
  finish, ended, entries_received, receive_tree, run_receiver,
}
use ripsync.Net.Session.Exchange.{
  Exchange, no-Exchange, same_piece, both, receive_entry-Exchange, Askable,
}

-- What the sender sends before it waits.
abbrev listing : Source → List Entry → List Msg
listing source [] = Msg.list_done ∷ []
listing source (e ∷ es) = Msg.entry (net_entry source e) ∷ listing source es

module _ (c : Codecs) (options : NetOptions) (source : Source)
    (alive : (n : ℕ) → source.checkpoint n ≡ ok tt) where
  -- `bincode` writes each message of the list of files, and it fits a frame.
  abbrev pub Listable : List Entry → Type 0
  Listable es =
      All (λ (e : Entry). Sendable c (Msg.entry (net_entry source e))) es × Sendable c Msg.list_done

  send_entries-listing :
      (n : ℕ) (es : List Entry)
      → Listable es
      → (m : ℕ) × (send_entries c source n es ≡ ok (listing source es, m))
  unfolding send_entries
  send_entries-listing n [] (_, done) = (
    n,
    ap (λ (r : Outcome (Unit {0})). r >> ok (Msg.list_done ∷ [], n))
        (send_ok-Sendable c Msg.list_done done),
  )
  send_entries-listing n (e ∷ es) ((fits, all), done) =
      let (m, sent) = send_entries-listing (n + 1) es (all, done) in
      (
        m,
        ap
              (λ (r : Outcome (Unit {0})).
                r
                >> send_ok c (Msg.entry (net_entry source e))
                >> send_entries c source (n + 1) es
                >>= λ (rest : List Msg × ℕ). ok (Msg.entry (net_entry source e) ∷ rest.0, rest.1))
              (alive n)
            ∙ ap
                (λ (r : Outcome (Unit {0})).
                  r >> send_entries c source (n + 1) es >>= λ (rest : List Msg × ℕ).
                  ok (Msg.entry (net_entry source e) ∷ rest.0, rest.1))
                (send_ok-Sendable c (Msg.entry (net_entry source e)) fits)
            ∙ ap
                (λ (r : Outcome (List Msg × ℕ)). r >>= λ (rest : List Msg × ℕ).
                  ok (Msg.entry (net_entry source e) ∷ rest.0, rest.1))
                sent,
      )

  -- Behind its listing the sender serves.
  run_sender-serve :
      (entries : List Entry)
      → source.walk ≡ ok entries
      → Listable entries
      → (m : ℕ) × ((input : List Msg)
          → run_sender c options source input
            ≡ serve c options source m input (listing source entries))
  unfolding run_sender
  run_sender-serve entries walked fits =
      let (m, listed) = send_entries-listing 0 entries fits in
      (
        m,
        λ input.
            ap
              (λ (r : Outcome (List Entry)).
                started c options source (r >>= send_entries c source 0) input)
              walked
            ∙ ap (λ (r : Outcome (List Msg × ℕ)). started c options source r input) listed,
      )

  serve-finished :
      (n : ℕ) (stats : Stats) (sent : List Msg)
      → serve c options source n (Msg.finished stats ∷ []) sent ≡ some (ok (stats, sent))
  unfolding serve
  serve-finished n stats sent = rw (alive n, serve)

  module _ {S : Type 0} (d : Destination S) (awake : (n : ℕ) → d.checkpoint n ≡ ok tt) where
    receive_list-listing :
        (n : ℕ) (es : List Entry) (more : List Msg)
        → receive_list d.checkpoint n (listing source es ++ more)
          ≡ ok (map (net_entry source) es, more, n + suc (length es))
    unfolding receive_list
    receive_list-listing n [] more =
        ap (λ (r : Outcome (Unit {0})). r >> ok ([], more, n + 1)) (awake n)
    receive_list-listing n (e ∷ es) more =
        ap
          (λ (r : Outcome (Unit {0})).
            r
            >> receive_list d.checkpoint (n + 1) (listing source es ++ more)
            >>= λ (rest : List NetEntry × List Msg × ℕ).
                ok (net_entry source e ∷ rest.0, rest.1, rest.2))
          (awake n)
        ∙ ap
            (λ (r : Outcome (List NetEntry × List Msg × ℕ)).
              r >>= λ (rest : List NetEntry × List Msg × ℕ).
              ok (net_entry source e ∷ rest.0, rest.1, rest.2))
            (receive_list-listing (n + 1) es more)
        ∙ ap (λ (k : ℕ). ok (net_entry source e ∷ map (net_entry source) es, more, k)) (omega arith)

    receive_entries-Exchange :
        (root : AbsPath) (existing : List Entry) (n : ℕ) (es : List NetEntry)
        (work : Work d.disk c options)
        → All (Askable c options source alive d.disk) es
        → (after : Work d.disk c options × ℕ) × Exchange c options source alive
            (receive_entries d c options root existing n es work)
            after
    unfolding receive_entries
    receive_entries-Exchange root existing n [] work fits =
        (_, no-Exchange c options source alive _)
    receive_entries-Exchange root existing n (e ∷ es) work (fits, all) =
        let first = receive_entry d.disk c options d.symlink_text root existing e work in
        let (mid, x) =
          receive_entry-Exchange c options source alive d.disk d.symlink_text root existing e work
            fits in
        let (after, y) = receive_entries-Exchange root existing (n + 1) es mid all in
        (
          after,
          same_piece c options source alive _ _ after
              (λ conn.
                ap
                  (λ (r : Outcome (Unit {0})).
                    r >> first conn >>= λ (next : Work d.disk c options × Conn).
                    receive_entries d c options root existing (n + 1) es next.0 next.1)
                  (awake n))
              (both c options source alive first
                (receive_entries d c options root existing (n + 1) es) mid after x y),
        )

    remove_victims_total :
        (root : AbsPath) (n : ℕ) (xs : List Entry) (work : Work d.disk c options)
        → (after : Work d.disk c options) × (remove_victims d c options root n xs work ≡ ok after)
    unfolding remove_victims
    remove_victims_total root n [] work = (work, refl)
    remove_victims_total root n (x ∷ xs) work =
        let next = remove_victim d c options root x work in
        let (after, removed) = remove_victims_total root (n + 1) xs next in
        (
          after,
          ap (λ (r : Outcome (Unit {0})). r >> remove_victims d c options root (n + 1) xs next)
                (awake n)
              ∙ removed,
        )

    mirror_total :
        (root : AbsPath) (n : ℕ) (src_entries : List NetEntry) (existing : List Entry)
        (work : Work d.disk c options)
        → (after : Work d.disk c options) × (mirror d c options root n src_entries existing work
            ≡ ok after)
    mirror_total root n src_entries existing work = elim (Bool-cases options.delete) [
      | inl t ↦
          let (after, removed) = remove_victims_total root n (victims src_entries existing) work in
          (
            after,
            ap
                  (λ (b : Bool).
                    if b
                    then remove_victims d c options root n (victims src_entries existing) work
                    else ok work)
                  t
                ∙ removed,
          )
      | inr f ↦ (
        work,
        ap
            (λ (b : Bool).
              if b
              then remove_victims d c options root n (victims src_entries existing) work
              else ok work)
            f,
      )
    ]

    -- The receiver's run, in its stages.
    receive_tree-stages :
        (canon : AbsPath) (s : S) (entries existing : List Entry) (replies : List Msg)
        → d.walk s ≡ ok existing
        → receive_tree d c options canon s
            (record { input = listing source entries ++ replies; output = [] })
          ≡ entries_received d c options canon s []
              (map (net_entry source) entries, replies, 0 + suc (length entries))
              existing
    unfolding receive_tree
    receive_tree-stages canon s entries existing replies found =
        ap
          (λ (r : Outcome (List NetEntry × List Msg × ℕ)).
            r >>= λ (list : List NetEntry × List Msg × ℕ).
            d.walk s >>= λ (found : List Entry). entries_received d c options canon s [] list found)
          (receive_list-listing 0 entries replies)
        ∙ ap
            (λ (r : Outcome (List Entry)). r >>= λ (found : List Entry).
              entries_received d c options canon s []
                (map (net_entry source) entries, replies, 0 + suc (length entries)) found)
            found

    -- Every message of a session can be sent: `bincode` writes it and it fits a frame.
    pub record Carried (entries : List Entry) : Type 0 where
      pub list : Listable entries
      pub files : All (Askable c options source alive d.disk) (map (net_entry source) entries)
      pub tally : (stats : Stats) → Sendable c (Msg.finished stats)

    -- Sender and receiver, each given what the other sends, both come to the end and with one
    -- tally, and no message is left over: for every file system, whatever its calls answer, and
    -- every source tree, where both walks succeed, the destination's root can be made, nobody
    -- cancels, and `bincode` writes within the bound of a frame the list of files, each request
    -- that the receiver can make for them, the answers and the tally.
    pub run_receiver-run_sender :
        (root canon : AbsPath) (s s' : S) (entries existing : List Entry)
        → source.walk ≡ ok entries
        → canonical_root d.disk s root ≡ ok (canon, s')
        → d.walk s' ≡ ok existing
        → Carried entries
        → (stats : Stats) × (after : S) × (requests sent : List Msg) × (run_sender c options source
              requests
            ≡ some (ok (stats, sent)))
          × (run_receiver d c options root s (record { input = sent; output = [] })
              ≡ ok (stats, after, record { input = []; output = requests }))
    unfolding run_receiver
    run_receiver-run_sender root canon s s' entries existing walked made found carried =
        let (m, serving) = run_sender-serve entries walked carried.list in
        let nets = map (net_entry source) entries in
        let k = 0 + suc (length entries) in
        let (after, x) =
          receive_entries-Exchange canon existing k nets (s', no_stats) carried.files in
        let (work, mirrored) = mirror_total canon after.1 nets existing after.0 in
        let last = Msg.finished work.1 ∷ [] in
        (
          work.1,
          work.0,
          x.requests ++ last,
          listing source entries ++ x.replies,
          serving (x.requests ++ last)
              ∙ x.served m last (listing source entries)
              ∙ serve-finished (m + length x.requests) work.1 (listing source entries ++ x.replies),
          ap
                (λ (r : Outcome (AbsPath × S)). r >>= λ (root' : AbsPath × S).
                  receive_tree d c options root'.0 root'.1
                    (record { input = listing source entries ++ x.replies; output = [] }))
                made
              ∙ receive_tree-stages canon s' entries existing x.replies found
              ∙ ap
                  (λ (r : Outcome ((Work d.disk c options × ℕ) × Conn)).
                    r >>= ended d c options canon nets existing)
                  (ap
                      (λ (i : List Msg).
                        receive_entries d c options canon existing k nets (s', no_stats)
                          (record { input = i; output = [] }))
                      (sym (append-nil x.replies))
                    ∙ x.received [] [])
              ∙ ap
                  (λ (r : Outcome (Work d.disk c options)). r >>= λ (w : Work d.disk c options).
                    finish d c options w (record { input = []; output = x.requests }))
                  mirrored
              ∙ ap
                  (λ (r : Outcome (Unit {0})).
                    r >> ok (work.1, work.0, record { input = []; output = x.requests ++ last }))
                  (send_ok-Sendable c (Msg.finished work.1) (carried.tally work.1)),
        )
