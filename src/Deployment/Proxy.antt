-- ===== src/Deployment/Proxy.antt =====
-- packages/deployment/src/rpc-proxy.ts. The handler of a request is cut at each of its awaits, where
-- other requests may run: its arrival, up to the wait for its body; the body, up to the wait for the
-- journal; the journal's answer, up to the wait for the upstream; and the upstream's answer.
pub mod Window
pub mod Server
pub mod Line
pub mod Covered
pub mod Journal
pub mod Rejected
use chain_port.Prelude.{
  ℕ, ◌+◌, String, Bool, true, false, not, ◌&&◌, Option, none, some, or_else, List, [], ◌∷◌, ◌++◌,
  elem, length, insert, lookup, if◌then◌else◌, ltb, leb, ◌===◌,
}
use chain_port.Shared.Json.{Json, Items, null, str, arr, obj, nil, item, get_field}

abbrev pub allowed_rpc_methods : List String
allowed_rpc_methods =
    "eth_chainId" ∷ "eth_blockNumber" ∷ "eth_getBalance" ∷ "eth_getTransactionCount" ∷ "eth_call"
    ∷ "eth_estimateGas" ∷ "eth_gasPrice" ∷ "eth_feeHistory" ∷ "eth_maxPriorityFeePerGas"
    ∷ "eth_getCode" ∷ "eth_getTransactionReceipt" ∷ "eth_getTransactionByHash"
    ∷ "eth_sendRawTransaction" ∷ "eth_getBlockByNumber" ∷ "eth_getBlockByHash" ∷ "net_version" ∷ []

pub data Reply : Type 0 where
  post_only rate_limited payload_too_large parse_error bad_gateway : Reply
  not_allowed : Json → Reply
  upstream_reply : ℕ → String → Reply

-- `while (windowHits.length > 0 && now - windowHits[0] > 60_000) windowHits.shift()`
abbrev pub drop_old : ℕ → List ℕ → List ℕ
drop_old now [] = []
drop_old now (hit ∷ hits) =
    let rest = drop_old now hits in if ltb (hit + 60000) now then rest else hit ∷ hits

-- The reply that ends an arrival, or `none` when the handler goes on to read the body; and the
-- hits after it.
abbrev pub admit : ℕ → ℕ → List ℕ → Option Reply × List ℕ
admit rate_limit now window_hits =
    if leb rate_limit (length window_hits)
    then (some rate_limited, window_hits)
    else (none, window_hits ++ now ∷ [])

unfoldable pub arrive : ℕ → String → ℕ → List ℕ → Option Reply × List ℕ
arrive rate_limit http_method now window_hits =
    if not (http_method === "POST")
    then (some post_only, window_hits)
    else admit rate_limit now (drop_old now window_hits)

-- A line of the journal.
pub record JournalEntry : Type 0 where
  pub method : Json
  pub blocked : Bool
  pub raw_tx : Option String

-- `parsed.method ?? ""` of a value that is not null: only an object has the field.
abbrev pub method_or_empty : Option Json → Json
method_or_empty none = str ""
method_or_empty (some null) = str ""
method_or_empty (some method) = method

abbrev pub method_of : Json → Json
method_of (obj fields) = method_or_empty (get_field "method" fields)
method_of _ = str ""

-- The name that a method is, if it is an allowed one.
abbrev pub allowed_name : Json → Option String
allowed_name (str name) = if elem name allowed_rpc_methods then some name else none
allowed_name _ = none

abbrev pub first_string : Option Json → Option String
first_string (some (arr (item (str s) rest))) = some s
first_string _ = none

abbrev pub first_param : Json → Option String
first_param (obj fields) = first_string (get_field "params" fields)
first_param _ = none

-- How a request ends: with a reply, or with a rejected promise and no reply.
pub data Outcome : Type 0 where
  replied : Reply → Outcome
  rejected : Outcome

-- What the handler does once the journal is written.
pub data Next : Type 0 where
  -- It answers that the method is not allowed.
  refuse : Json → Next
  -- It sends the body to the upstream URL.
  forward : String → Next

-- Where a request stands after its body: it waits for the disk; the disk has settled, well or not,
-- and the handler has not run on; it waits for the upstream; or it has ended.
pub data Handler : Type 0 where
  writing : JournalEntry → Next → Handler
  settled : Bool → JournalEntry → Next → Handler
  fetching : Handler
  ended : Outcome → Handler

-- A body that was sent upstream, by the request that made the journal's entry.
pub record Sent : Type 0 where
  pub entry : JournalEntry
  pub raw : String

abbrev pub raw_tx_of : String → Json → Option String
raw_tx_of name parsed = if name === "eth_sendRawTransaction" then first_param parsed else none

abbrev pub count_method : String → List (String × ℕ) → List (String × ℕ)
count_method name counts = insert name (or_else (lookup name counts) 0 + 1) counts

-- Whether `${method}` makes a string: an object whose own `toString` hides the inherited one throws,
-- and an array prints its items.
mutual
  pub can_print : Json → Bool
  can_print (arr items) = can_print_items items
  can_print (obj fields) = elim (get_field "toString" fields) [ none ↦ true | some _ ↦ false ]
  can_print _ = true

  pub can_print_items : Items → Bool
  can_print_items nil = true
  can_print_items (item value rest) = can_print value && can_print_items rest

abbrev pub on_method :
    String → Json → Option String → List (String × ℕ) → Handler × List (String × ℕ)
on_method raw parsed none counts = (
  writing (record { method = method_of parsed; blocked = true; raw_tx = none })
      (refuse (method_of parsed)),
  counts,
)
on_method raw parsed (some name) counts = (
  writing (record { method = str name; blocked = false; raw_tx = raw_tx_of name parsed })
      (forward raw),
  count_method name counts,
)

-- `parsed.method` of `null` throws outside every `try`.
abbrev pub on_parsed : String → Option Json → List (String × ℕ) → Handler × List (String × ℕ)
on_parsed raw none counts = (ended (replied parse_error), counts)
on_parsed raw (some null) counts = (ended rejected, counts)
on_parsed raw (some parsed) counts = on_method raw parsed (allowed_name (method_of parsed)) counts

-- From the body that was read, or `none` for one that is too large or fails, to the wait for the
-- journal, given what `JSON.parse` makes of a text and the counts of the methods.
unfoldable pub on_body :
    (String → Option Json) → Option String → List (String × ℕ) → Handler × List (String × ℕ)
on_body parse none counts = (ended (replied payload_too_large), counts)
on_body parse (some raw) counts = on_parsed raw (parse raw) counts

-- `appendJournal`, on a disk that takes the line or not; and the lines that the journal gains.
unfoldable pub append_journal : Bool → Handler → Handler × List JournalEntry
append_journal written (writing entry next) =
    (settled written entry next, if written then entry ∷ [] else [])
append_journal written handler = (handler, [])

abbrev pub refused : Json → Outcome
refused method = if can_print method then replied (not_allowed method) else rejected

-- The handler after `await appendJournal(...)`; and the bodies that it sends.
unfoldable pub after_journal : Handler → Handler × List Sent
after_journal (settled false entry next) = (ended rejected, [])
after_journal (settled true entry (refuse method)) = (ended (refused method), [])
after_journal (settled true entry (forward raw)) =
    (fetching, record { entry = entry; raw = raw } ∷ [])
after_journal handler = (handler, [])

-- The reply of the upstream: its status and text, or the 502 of a failed fetch.
abbrev pub fetched : Option (ℕ × String) → Reply
fetched none = bad_gateway
fetched (some (status, text)) = upstream_reply status text

-- The handler after `await fetch(...)` and `await upstream.text()`.
unfoldable pub after_fetch : Option (ℕ × String) → Handler → Handler
after_fetch upstream fetching = ended (replied (fetched upstream))
after_fetch upstream handler = handler
