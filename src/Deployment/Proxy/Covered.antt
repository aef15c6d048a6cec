-- ===== src/Deployment/Proxy/Covered.antt =====
-- What the proxy's journal says of the bodies that it sent upstream, whatever the order in which its
-- requests run.
use chain_port.Prelude.{
  ℕ, zero, suc, ◌+◌, ◌≤◌, ◌≡◌, ◌⊎◌, refl, String, Bool, true, false, Option, none, some, List, [],
  ◌∷◌, ◌++◌, get_elem?, if◌then◌else◌, arith, inl, inr,
}
use chain_port.Shared.Json.{Json, null, bool, num, str, arr, obj}
use chain_port.Deployment.Proxy.{
  Outcome, Handler, writing, settled, fetching, ended, refuse, forward, JournalEntry, Sent,
  method_of, allowed_name, on_method, on_parsed, on_body, append_journal, after_journal,
  after_fetch,
}
use chain_port.Deployment.Proxy.Server.{
  Server, new_server, Event, body_read, disk_settled, resumed, answered, replace_at, start_handler,
  settle, resume, answer, step, run,
}

-- How many entries pass a test, and how many bodies were sent by one that does.
abbrev pub entries : (JournalEntry → Bool) → List JournalEntry → ℕ
entries p [] = 0
entries p (x ∷ xs) = let rest = entries p xs in if p x then suc rest else rest

abbrev pub sent_by : (JournalEntry → Bool) → List Sent → ℕ
sent_by p [] = 0
sent_by p (x ∷ xs) = let rest = sent_by p xs in if p x.entry then suc rest else rest

entries-append :
    (p : JournalEntry → Bool) (xs ys : List JournalEntry)
    → entries p (xs ++ ys) ≡ entries p xs + entries p ys
entries-append p [] ys = omega arith
entries-append p (x ∷ xs) ys = ground (arith, entries-append p xs ys)

sent_by-append :
    (p : JournalEntry → Bool) (xs ys : List Sent)
    → sent_by p (xs ++ ys) ≡ sent_by p xs + sent_by p ys
sent_by-append p [] ys = omega arith
sent_by-append p (x ∷ xs) ys = ground (arith, sent_by-append p xs ys)

-- A body ends its handler or goes on to its method.
pub on_parsed-cases :
    (raw : String) (value : Option Json) (counts : List (String × ℕ))
    → ((outcome : Outcome) × (on_parsed raw value counts ≡ (ended outcome, counts)))
      ⊎ ((parsed : Json) × (value ≡ some parsed)
          × (on_parsed raw value counts
              ≡ on_method raw parsed (allowed_name (method_of parsed)) counts))
on_parsed-cases raw none counts = inl (_, refl)
on_parsed-cases raw (some null) counts = inl (_, refl)
on_parsed-cases raw (some (bool b)) counts = inr (_, refl, refl)
on_parsed-cases raw (some (num n)) counts = inr (_, refl, refl)
on_parsed-cases raw (some (str s)) counts = inr (_, refl, refl)
on_parsed-cases raw (some (arr items)) counts = inr (_, refl, refl)
on_parsed-cases raw (some (obj fields)) counts = inr (_, refl, refl)

module _ (p : JournalEntry → Bool) where
  -- What a handler is about to send: its line stands in the journal.
  pending : Handler → ℕ
  pending handler = sent_by p (after_journal handler).1

  all_pending : List Handler → ℕ
  all_pending [] = 0
  all_pending (handler ∷ handlers) = pending handler + all_pending handlers

  all_pending-append :
      (xs ys : List Handler) → all_pending (xs ++ ys) ≡ all_pending xs + all_pending ys
  unfolding all_pending
  all_pending-append [] ys = omega arith
  all_pending-append (x ∷ xs) ys = omega (arith, all_pending-append xs ys)

  all_pending-replace_at :
      (i : ℕ) (handlers : List Handler) (old new : Handler)
      → get_elem? handlers i ≡ some old
      → all_pending (replace_at i new handlers) + pending old ≡ all_pending handlers + pending new
  unfolding all_pending
  all_pending-replace_at i [] old new h = cc
  all_pending-replace_at zero (x ∷ xs) old new h = let same : x ≡ old = cc in rw same (omega arith)
  all_pending-replace_at (suc i) (x ∷ xs) old new h =
      omega (arith, all_pending-replace_at i xs old new h)

  on_method-pending :
      (raw : String) (parsed : Json) (name : Option String) (counts : List (String × ℕ))
      → pending (on_method raw parsed name counts).0 ≡ 0
  unfolding pending after_journal
  on_method-pending raw parsed none counts = refl
  on_method-pending raw parsed (some name) counts = refl

  on_body-pending :
      (parse : String → Option Json) (raw : Option String) (counts : List (String × ℕ))
      → pending (on_body parse raw counts).0 ≡ 0
  unfolding pending on_body after_journal
  on_body-pending parse none counts = refl
  on_body-pending parse (some raw) counts = elim (on_parsed-cases raw (parse raw) counts) [
    | inl (outcome, e) ↦ rw e refl
    | inr (parsed, _, e) ↦
        rw e (on_method-pending raw parsed (allowed_name (method_of parsed)) counts)
  ]

  append_journal-pending :
      (written : Bool) (handler : Handler)
      → pending (append_journal written handler).0
        ≤ pending handler + entries p (append_journal written handler).1
  unfolding pending append_journal after_journal
  append_journal-pending true (writing entry (refuse method)) = omega arith
  append_journal-pending true (writing entry (forward raw)) = omega arith
  append_journal-pending false (writing entry (refuse method)) = omega arith
  append_journal-pending false (writing entry (forward raw)) = omega arith
  append_journal-pending written (settled b entry next) = omega arith
  append_journal-pending written fetching = omega arith
  append_journal-pending written (ended outcome) = omega arith

  after_journal-pending : (handler : Handler) → pending (after_journal handler).0 ≡ 0
  unfolding pending after_journal
  after_journal-pending (writing entry next) = refl
  after_journal-pending (settled true entry (refuse method)) = refl
  after_journal-pending (settled true entry (forward raw)) = refl
  after_journal-pending (settled false entry next) = refl
  after_journal-pending fetching = refl
  after_journal-pending (ended outcome) = refl

  after_fetch-pending :
      (upstream : Option (ℕ × String)) (handler : Handler)
      → pending (after_fetch upstream handler) ≡ pending handler
  unfolding pending after_journal after_fetch
  after_fetch-pending upstream (writing entry next) = refl
  after_fetch-pending upstream (settled b entry next) = refl
  after_fetch-pending upstream fetching = refl
  after_fetch-pending upstream (ended outcome) = refl

  -- The journal has a line for each body that was sent or is about to be.
  IsCovered : Server → Type 0
  IsCovered server = sent_by p server.sent + all_pending server.handlers ≤ entries p server.journal

  start_handler-IsCovered :
      (started : Handler × List (String × ℕ)) (server : Server)
      → pending started.0 ≡ 0
      → IsCovered server
      → IsCovered (start_handler started server)
  unfolding IsCovered all_pending
  start_handler-IsCovered (handler, counts) server e h =
      omega (arith, h, e, all_pending-append server.handlers (handler ∷ []))

  settle-IsCovered :
      (i : ℕ) (written : Bool) (handler : Option Handler) (server : Server)
      → get_elem? server.handlers i ≡ handler
      → IsCovered server
      → IsCovered (settle i written handler server)
  unfolding IsCovered
  settle-IsCovered i written none server e h = h
  settle-IsCovered i written (some handler) server e h =
      let (new, lines) = append_journal written handler in
      omega (
        arith,
        h,
        append_journal-pending written handler,
        all_pending-replace_at i server.handlers handler new e,
        entries-append p server.journal lines,
      )

  resume-IsCovered :
      (i : ℕ) (handler : Option Handler) (server : Server)
      → get_elem? server.handlers i ≡ handler
      → IsCovered server
      → IsCovered (resume i handler server)
  unfolding IsCovered pending
  resume-IsCovered i none server e h = h
  resume-IsCovered i (some handler) server e h =
      let (new, bodies) = after_journal handler in
      omega (
        arith,
        h,
        after_journal-pending handler,
        all_pending-replace_at i server.handlers handler new e,
        sent_by-append p server.sent bodies,
      )

  answer-IsCovered :
      (i : ℕ) (upstream : Option (ℕ × String)) (handler : Option Handler) (server : Server)
      → get_elem? server.handlers i ≡ handler
      → IsCovered server
      → IsCovered (answer i upstream handler server)
  unfolding IsCovered
  answer-IsCovered i upstream none server e h = h
  answer-IsCovered i upstream (some handler) server e h = omega (
    arith,
    h,
    after_fetch-pending upstream handler,
    all_pending-replace_at i server.handlers handler (after_fetch upstream handler) e,
  )

  step-IsCovered :
      (parse : String → Option Json) (event : Event) (server : Server)
      → IsCovered server
      → IsCovered (step parse event server)
  step-IsCovered parse (body_read raw) server h =
      start_handler-IsCovered (on_body parse raw server.counts) server
        (on_body-pending parse raw server.counts) h
  step-IsCovered parse (disk_settled i written) server h =
      settle-IsCovered i written (get_elem? server.handlers i) server refl h
  step-IsCovered parse (resumed i) server h =
      resume-IsCovered i (get_elem? server.handlers i) server refl h
  step-IsCovered parse (answered i upstream) server h =
      answer-IsCovered i upstream (get_elem? server.handlers i) server refl h

  run-IsCovered :
      (parse : String → Option Json) (events : List Event) (server : Server)
      → IsCovered server
      → IsCovered (run parse events server)
  unfolding run
  run-IsCovered parse [] server h = h
  run-IsCovered parse (event ∷ events) server h =
      run-IsCovered parse events (step parse event server) (step-IsCovered parse event server h)

  -- No test passes more sent bodies than lines of the journal.
  pub run-covered :
      (parse : String → Option Json) (events : List Event)
      → (let server = run parse events new_server in
          sent_by p server.sent ≤ entries p server.journal)
  unfolding IsCovered all_pending
  run-covered parse events = omega (arith, run-IsCovered parse events new_server (omega arith))
