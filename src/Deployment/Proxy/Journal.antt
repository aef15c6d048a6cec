-- ===== src/Deployment/Proxy/Journal.antt =====
-- What the RPC proxy sends upstream, and what its journal says of it, whatever the order in which
-- its requests run.
use chain_port.Prelude.{
  ℕ, zero, suc, ◌≤◌, ◌≡◌, refl, sym, String, Bool, true, false, Option, none, some, List, [], ◌∷◌,
  All, All-append, All-map, get_elem?, elem, Option-cases, inl, inr,
}
use chain_port.Shared.Json.{Json, JsonObject, obj}
use chain_port.Deployment.Proxy.{
  Handler, writing, settled, fetching, ended, refuse, forward, JournalEntry, Sent,
  allowed_rpc_methods, method_of, allowed_name, on_method, on_body, append_journal, after_journal,
  after_fetch,
}
use chain_port.Deployment.Proxy.Line.{IsEntryOf, IsMethod, method_of-allowed, raw_tx_of_iff}
use chain_port.Deployment.Proxy.Server.{
  Server, new_server, Event, body_read, disk_settled, resumed, answered, replace_at, step, run,
}
use chain_port.Deployment.Proxy.Covered.{entries, sent_by, on_parsed-cases, run-covered}

module _ (parse : String → Option Json) where
  -- The text is an object whose method is in the list.
  abbrev pub IsAllowed : String → Type 0
  IsAllowed raw =
      (fields : JsonObject) × (name : String) × (parse raw ≡ some (obj fields))
      × IsMethod fields name
      × (elem name allowed_rpc_methods ≡ true)

  -- The entry is the line of the text.
  abbrev pub IsLineOf : String → JournalEntry → Type 0
  IsLineOf raw entry =
      (fields : JsonObject) × (name : String) × (parse raw ≡ some (obj fields))
      × IsMethod fields name
      × IsEntryOf fields name entry

  abbrev IsProper : String → JournalEntry → Type 0
  IsProper raw entry = IsAllowed raw × IsLineOf raw entry

  -- What a handler sends, or is to send, has its line.
  abbrev IsHonest : Handler → Type 0
  IsHonest (writing entry (forward raw)) = IsProper raw entry
  IsHonest (settled written entry (forward raw)) = IsProper raw entry
  IsHonest _ = Unit

  abbrev IsProperSent : Sent → Type 0
  IsProperSent sent = IsProper sent.raw sent.entry

  on_method-IsHonest :
      (raw : String) (parsed : Json) (name : Option String) (counts : List (String × ℕ))
      → parse raw ≡ some parsed
      → allowed_name (method_of parsed) ≡ name
      → IsHonest (on_method raw parsed name counts).0
  on_method-IsHonest raw parsed none counts f e = tt
  on_method-IsHonest raw parsed (some name) counts f e =
      let (fields, is_object, named, allowed) = method_of-allowed parsed name e in
      let parses : parse raw ≡ some (obj fields) = rw (sym is_object) f in
      (
        (fields, name, parses, named, allowed),
        (
          fields,
          name,
          parses,
          named,
          record {
            named = refl;
            unblocked = refl;
            raw_txs = λ tx. rw is_object (raw_tx_of_iff fields name tx);
          },
        ),
      )

  on_body-IsHonest :
      (raw : Option String) (counts : List (String × ℕ)) → IsHonest (on_body parse raw counts).0
  unfolding on_body
  on_body-IsHonest none counts = tt
  on_body-IsHonest (some raw) counts = elim (on_parsed-cases raw (parse raw) counts) [
    | inl (outcome, e) ↦ rw e tt
    | inr (parsed, f, e) ↦
        rw e (on_method-IsHonest raw parsed (allowed_name (method_of parsed)) counts f refl)
  ]

  append_journal-IsHonest :
      (written : Bool) (handler : Handler)
      → IsHonest handler
      → IsHonest (append_journal written handler).0
  unfolding append_journal
  append_journal-IsHonest written (writing entry (refuse method)) h = tt
  append_journal-IsHonest written (writing entry (forward raw)) h = h
  append_journal-IsHonest written (settled b entry next) h = h
  append_journal-IsHonest written fetching h = tt
  append_journal-IsHonest written (ended outcome) h = tt

  after_journal-IsHonest :
      (handler : Handler)
      → IsHonest handler
      → IsHonest (after_journal handler).0 × All IsProperSent (after_journal handler).1
  unfolding after_journal
  after_journal-IsHonest (writing entry next) h = (h, tt)
  after_journal-IsHonest (settled true entry (refuse method)) h = (tt, tt)
  after_journal-IsHonest (settled true entry (forward raw)) h = (tt, (h, tt))
  after_journal-IsHonest (settled false entry next) h = (tt, tt)
  after_journal-IsHonest fetching h = (tt, tt)
  after_journal-IsHonest (ended outcome) h = (tt, tt)

  after_fetch-IsHonest :
      (upstream : Option (ℕ × String)) (handler : Handler)
      → IsHonest handler
      → IsHonest (after_fetch upstream handler)
  unfolding after_fetch
  after_fetch-IsHonest upstream (writing entry next) h = h
  after_fetch-IsHonest upstream (settled b entry next) h = h
  after_fetch-IsHonest upstream fetching h = tt
  after_fetch-IsHonest upstream (ended outcome) h = tt

  get_elem?-IsHonest :
      (i : ℕ) (handlers : List Handler) (handler : Handler)
      → get_elem? handlers i ≡ some handler
      → All IsHonest handlers
      → IsHonest handler
  get_elem?-IsHonest i [] handler e h = cc
  get_elem?-IsHonest zero (x ∷ xs) handler e h = let same : x ≡ handler = cc in rw (sym same) h.0
  get_elem?-IsHonest (suc i) (x ∷ xs) handler e h = get_elem?-IsHonest i xs handler e h.1

  replace_at-IsHonest :
      (i : ℕ) (handlers : List Handler) (new : Handler)
      → All IsHonest handlers
      → IsHonest new
      → All IsHonest (replace_at i new handlers)
  replace_at-IsHonest i [] new h k = tt
  replace_at-IsHonest zero (x ∷ xs) new h k = (k, h.1)
  replace_at-IsHonest (suc i) (x ∷ xs) new h k = (h.0, replace_at-IsHonest i xs new h.1 k)

  abbrev IsHonestServer : Server → Type 0
  IsHonestServer server = All IsHonest server.handlers × All IsProperSent server.sent

  step-IsHonest :
      (event : Event) (server : Server)
      → IsHonestServer server
      → IsHonestServer (step parse event server)
  step-IsHonest (body_read raw) server h = (
    All-append IsHonest server.handlers ((on_body parse raw server.counts).0 ∷ []) h.0
        (on_body-IsHonest raw server.counts, tt),
    h.1,
  )
  step-IsHonest (disk_settled i written) server h =
      elim (Option-cases (get_elem? server.handlers i)) [
        | inl e ↦ rw e h
        | inr (handler, e) ↦
            let old = get_elem?-IsHonest i server.handlers handler e h.0 in
            let new = append_journal-IsHonest written handler old in
            rw e (
              replace_at-IsHonest i server.handlers (append_journal written handler).0 h.0 new,
              h.1,
            )
      ]
  step-IsHonest (resumed i) server h = elim (Option-cases (get_elem? server.handlers i)) [
    | inl e ↦ rw e h
    | inr (handler, e) ↦
        let old = get_elem?-IsHonest i server.handlers handler e h.0 in
        let new = after_journal-IsHonest handler old in
        rw e (
          replace_at-IsHonest i server.handlers (after_journal handler).0 h.0 new.0,
          All-append IsProperSent server.sent (after_journal handler).1 h.1 new.1,
        )
  ]
  step-IsHonest (answered i upstream) server h = elim (Option-cases (get_elem? server.handlers i)) [
    | inl e ↦ rw e h
    | inr (handler, e) ↦
        let old = get_elem?-IsHonest i server.handlers handler e h.0 in
        let new = after_fetch-IsHonest upstream handler old in
        rw e (replace_at-IsHonest i server.handlers (after_fetch upstream handler) h.0 new, h.1)
  ]

  run-IsHonest :
      (events : List Event) (server : Server)
      → IsHonestServer server
      → IsHonestServer (run parse events server)
  unfolding run
  run-IsHonest [] server h = h
  run-IsHonest (event ∷ events) server h =
      run-IsHonest events (step parse event server) (step-IsHonest event server h)

  -- After any events of a new server's requests, in any order: every body that was sent upstream
  -- goes with an unblocked entry that tells its method and its raw transaction, the first parameter
  -- of an eth_sendRawTransaction when it is a string and none else; and for every test on entries,
  -- the sent bodies whose entry passes are at most the lines of the journal that pass.
  pub run-journaled :
      (events : List Event)
      → (let server = run parse events new_server in
          All (λ (sent : Sent). IsLineOf sent.raw sent.entry) server.sent
          × ((p : JournalEntry → Bool) → sent_by p server.sent ≤ entries p server.journal))
  run-journaled events = (
    All-map IsProperSent (λ sent. IsLineOf sent.raw sent.entry) (run parse events new_server).sent
        (λ sent proper. proper.1) (run-IsHonest events new_server (tt, tt)).1,
    λ p. run-covered p parse events,
  )

  -- After any events of a new server's requests, in any order: every body that was sent upstream
  -- parses to an object whose field "method" is the name of an allowed method.
  pub run-IsAllowed :
      (events : List Event)
      → All (λ (sent : Sent). IsAllowed sent.raw) (run parse events new_server).sent
  run-IsAllowed events =
      All-map IsProperSent (λ sent. IsAllowed sent.raw) (run parse events new_server).sent
        (λ sent proper. proper.0) (run-IsHonest events new_server (tt, tt)).1
