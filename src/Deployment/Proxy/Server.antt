-- ===== src/Deployment/Proxy/Server.antt =====
-- The requests of one proxy of packages/deployment/src/rpc-proxy.ts, whose handlers run by turns.
use chain_port.Prelude.{
  ℕ, zero, suc, String, Bool, Option, none, some, List, [], ◌∷◌, ◌++◌, get_elem?,
}
use chain_port.Shared.Json.{Json}
use chain_port.Deployment.Proxy.{
  Handler, JournalEntry, Sent, on_body, append_journal, after_journal, after_fetch,
}

-- What the requests share, the handlers in the order in which their bodies were read, and what went
-- to the upstream.
pub record Server : Type 0 where
  pub counts : List (String × ℕ)
  pub journal : List JournalEntry
  pub handlers : List Handler
  pub sent : List Sent

abbrev pub new_server : Server
new_server = record { counts = []; journal = []; handlers = []; sent = [] }

-- The body of a request was read or not; the disk settled for a request; its handler runs on; its
-- upstream answers or fails. A request is named by its place among the handlers.
pub data Event : Type 0 where
  body_read : Option String → Event
  disk_settled : ℕ → Bool → Event
  resumed : ℕ → Event
  answered : ℕ → Option (ℕ × String) → Event

abbrev pub replace_at : ℕ → Handler → List Handler → List Handler
replace_at i handler [] = []
replace_at zero handler (x ∷ xs) = handler ∷ xs
replace_at (suc i) handler (x ∷ xs) = x ∷ replace_at i handler xs

abbrev pub start_handler : Handler × List (String × ℕ) → Server → Server
start_handler (handler, counts) server = record server {
  counts = counts;
  handlers = server.handlers ++ handler ∷ [];
}

-- An event of a request that there is not changes nothing.
abbrev pub settle : ℕ → Bool → Option Handler → Server → Server
settle i written none server = server
settle i written (some handler) server = record server {
  journal = server.journal ++ (append_journal written handler).1;
  handlers = replace_at i (append_journal written handler).0 server.handlers;
}

abbrev pub resume : ℕ → Option Handler → Server → Server
resume i none server = server
resume i (some handler) server = record server {
  sent = server.sent ++ (after_journal handler).1;
  handlers = replace_at i (after_journal handler).0 server.handlers;
}

abbrev pub answer : ℕ → Option (ℕ × String) → Option Handler → Server → Server
answer i upstream none server = server
answer i upstream (some handler) server = record server {
  handlers = replace_at i (after_fetch upstream handler) server.handlers;
}

module _ (parse : String → Option Json) where
  abbrev pub step : Event → Server → Server
  step (body_read raw) server = start_handler (on_body parse raw server.counts) server
  step (disk_settled i written) server = settle i written (get_elem? server.handlers i) server
  step (resumed i) server = resume i (get_elem? server.handlers i) server
  step (answered i upstream) server = answer i upstream (get_elem? server.handlers i) server

  unfoldable pub run : List Event → Server → Server
  run [] server = server
  run (event ∷ events) server = run events (step event server)
