-- ===== src/Deployment/Proxy/Line.antt =====
-- What the journal's line of a body must say, read off the body alone.
use chain_port.Prelude.{
  ◌≡◌, ◌↔◌, refl, sym, ap, String, true, false, Option, none, some, elem, ◌===◌, eq_iff, Bool-cases,
  inl, inr,
}
use chain_port.Shared.Json.{
  Json, JsonObject, Items, null, bool, num, str, arr, obj, nil, item, get_field,
}
use chain_port.Deployment.Proxy.{
  JournalEntry, allowed_rpc_methods, method_or_empty, method_of, allowed_name, first_string,
  raw_tx_of,
}

-- The request sends a raw transaction, which is the first of its parameters.
abbrev pub HasRawTx : JsonObject → String → String → Type 0
HasRawTx fields name tx =
    (name ≡ "eth_sendRawTransaction")
    × ((rest : Items) × (get_field "params" fields ≡ some (arr (item (str tx) rest))))

-- The entry tells the method of the object and its raw transaction, if there is one.
pub record IsEntryOf (fields : JsonObject) (name : String) (entry : JournalEntry) : Type 0 where
  pub named : entry.method ≡ str name
  pub unblocked : entry.blocked ≡ false
  pub raw_txs : (tx : String) → (entry.raw_tx ≡ some tx) ↔ HasRawTx fields name tx

-- The method of an object, by its field.
abbrev pub IsMethod : JsonObject → String → Type 0
IsMethod fields name = get_field "method" fields ≡ some (str name)

method_or_empty-allowed :
    (method : Option Json) (name : String)
    → allowed_name (method_or_empty method) ≡ some name
    → (method ≡ some (str name)) × (elem name allowed_rpc_methods ≡ true)
method_or_empty-allowed none name h = cc
method_or_empty-allowed (some null) name h = cc
method_or_empty-allowed (some (bool b)) name h = cc
method_or_empty-allowed (some (num n)) name h = cc
method_or_empty-allowed (some (arr items)) name h = cc
method_or_empty-allowed (some (obj fields)) name h = cc
method_or_empty-allowed (some (str s)) name h = elim (Bool-cases (elem s allowed_rpc_methods)) [
  | inl e ↦ let same : s ≡ name = cc (rw e at h) in (ap (λ n. some (str n)) same, rw (sym same) e)
  | inr e ↦ cc (rw e at h)
]

-- A body with an allowed method is an object whose field is that method.
pub method_of-allowed :
    (parsed : Json) (name : String)
    → allowed_name (method_of parsed) ≡ some name
    → (fields : JsonObject) × (parsed ≡ obj fields)
      × IsMethod fields name
      × (elem name allowed_rpc_methods ≡ true)
method_of-allowed null name h = cc
method_of-allowed (bool b) name h = cc
method_of-allowed (num n) name h = cc
method_of-allowed (str s) name h = cc
method_of-allowed (arr items) name h = cc
method_of-allowed (obj fields) name h =
    let (named, allowed) = method_or_empty-allowed (get_field "method" fields) name h in
    (fields, refl, named, allowed)

first_string_iff :
    (value : Option Json) (s : String)
    → (first_string value ≡ some s) ↔ ((rest : Items) × (value ≡ some (arr (item (str s) rest))))
first_string_iff (some (arr (item (str t) rest))) s = (
  λ h. let same : t ≡ s = cc in (rest, ap (λ u. some (arr (item (str u) rest))) same),
  λ (_, e). cc,
)
first_string_iff none s = (λ h. cc, λ (_, e). cc)
first_string_iff (some null) s = (λ h. cc, λ (_, e). cc)
first_string_iff (some (bool b)) s = (λ h. cc, λ (_, e). cc)
first_string_iff (some (num n)) s = (λ h. cc, λ (_, e). cc)
first_string_iff (some (str t)) s = (λ h. cc, λ (_, e). cc)
first_string_iff (some (obj fields)) s = (λ h. cc, λ (_, e). cc)
first_string_iff (some (arr nil)) s = (λ h. cc, λ (_, e). cc)
first_string_iff (some (arr (item null rest))) s = (λ h. cc, λ (_, e). cc)
first_string_iff (some (arr (item (bool b) rest))) s = (λ h. cc, λ (_, e). cc)
first_string_iff (some (arr (item (num n) rest))) s = (λ h. cc, λ (_, e). cc)
first_string_iff (some (arr (item (arr xs) rest))) s = (λ h. cc, λ (_, e). cc)
first_string_iff (some (arr (item (obj fields) rest))) s = (λ h. cc, λ (_, e). cc)

pub raw_tx_of_iff :
    (fields : JsonObject) (name tx : String)
    → (raw_tx_of name (obj fields) ≡ some tx) ↔ HasRawTx fields name tx
raw_tx_of_iff fields name tx =
    let first = first_string_iff (get_field "params" fields) tx in
    let test = eq_iff name "eth_sendRawTransaction" in
    elim (Bool-cases (name === "eth_sendRawTransaction")) [
      | inl e ↦
          let same : name ≡ "eth_sendRawTransaction" = test.0 e in
          rw e (λ h. (same, first.0 h), λ (_, found). first.1 found)
      | inr e ↦ rw e (λ h. cc, λ (same, _). cc (e, test.1 same))
    ]
