-- ===== src/Deployment/Proxy/Rejected.antt =====
-- Which bodies leave a request of packages/deployment/src/rpc-proxy.ts without a reply.
use chain_port.Prelude.{
  ℕ, ◌≡◌, ◌≢◌, ◌↔◌, ◌⊎◌, refl, String, Bool, false, Option, none, some, List, arith, Bool-cases,
  inl, inr,
}
use chain_port.Shared.Json.{Json, null, bool, num, str, arr, obj}
use chain_port.Deployment.Proxy.{
  Outcome, rejected, Handler, ended, can_print, method_of, allowed_name, on_method, on_parsed,
  on_body, append_journal, after_journal, after_fetch,
}

-- What the disk and the upstream do for one body.
pub record Body : Type 0 where
  pub written : Bool
  pub upstream : Option (ℕ × String)

abbrev outcome_of : Handler → Option Outcome
outcome_of (ended outcome) = some outcome
outcome_of _ = none

-- The rest of the handler, wait by wait.
unfoldable finish : Body → Handler → Option Outcome
finish body handler =
    outcome_of (after_fetch body.upstream (after_journal (append_journal body.written handler).0).0)

-- How the request of a body ends: its own waits alone decide, as no other request's step changes
-- its handler.
unfoldable pub end_of_body :
    (String → Option Json) → Body → String → List (String × ℕ) → Option Outcome
unfolding finish
end_of_body parse body raw counts = finish body (on_body parse (some raw) counts).0

-- What stops the handler on a body that parses.
abbrev pub IsStopped : Body → Json → Type 0
IsStopped body parsed =
    (parsed ≡ null)
    ⊎ (body.written ≡ false)
    ⊎ ((allowed_name (method_of parsed) ≡ none) × (can_print (method_of parsed) ≡ false))

-- The request ends, and it ends without a reply exactly under the condition.
abbrev pub EndsRejectedIf : Type 0 → Option Outcome → Type 0
EndsRejectedIf P ending = (outcome : Outcome) × (ending ≡ some outcome) × ((outcome ≡ rejected) ↔ P)

on_method-EndsRejected :
    (body : Body) (raw : String) (parsed : Json) (name : Option String) (counts : List (String × ℕ))
    → EndsRejectedIf
        ((body.written ≡ false) ⊎ ((name ≡ none) × (can_print (method_of parsed) ≡ false)))
        (finish body (on_method raw parsed name counts).0)
unfolding finish append_journal after_journal after_fetch
on_method-EndsRejected body raw parsed none counts = elim (Bool-cases body.written) [
  | inl w ↦ elim (Bool-cases (can_print (method_of parsed))) [
    | inl c ↦ rw (w, c) (_, refl, ground arith)
    | inr c ↦ rw (w, c) (_, refl, ground arith)
  ]
  | inr w ↦ rw w (_, refl, ground arith)
]
on_method-EndsRejected body raw parsed (some name) counts = elim (Bool-cases body.written) [
  | inl w ↦ rw w (_, refl, ground arith)
  | inr w ↦ rw w (_, refl, ground arith)
]

-- A body that parses to `null` ends the handler; any other goes on to its method.
on_parsed-null :
    (raw : String) (parsed : Json) (counts : List (String × ℕ))
    → ((parsed ≡ null) × (on_parsed raw (some parsed) counts ≡ (ended rejected, counts)))
      ⊎ ((parsed ≢ null)
          × (on_parsed raw (some parsed) counts
              ≡ on_method raw parsed (allowed_name (method_of parsed)) counts))
on_parsed-null raw null counts = inl (refl, refl)
on_parsed-null raw (bool b) counts = inr (λ e. cc, refl)
on_parsed-null raw (num n) counts = inr (λ e. cc, refl)
on_parsed-null raw (str s) counts = inr (λ e. cc, refl)
on_parsed-null raw (arr items) counts = inr (λ e. cc, refl)
on_parsed-null raw (obj fields) counts = inr (λ e. cc, refl)

finish_rejected : (body : Body) → finish body (ended rejected) ≡ some rejected
unfolding finish append_journal after_journal after_fetch
finish_rejected body = refl

-- The request of a body that parses ends, and it ends without a reply exactly if the parsed value
-- is `null`, or the journal cannot be written, or the method is not allowed and has no string for
-- the reply.
pub on_body_rejected :
    (parse : String → Option Json) (body : Body) (raw : String) (parsed : Json)
    (counts : List (String × ℕ))
    → parse raw ≡ some parsed
    → EndsRejectedIf (IsStopped body parsed) (end_of_body parse body raw counts)
unfolding end_of_body on_body
on_body_rejected parse body raw parsed counts f = elim (on_parsed-null raw parsed counts) [
  | inl (is_null, g) ↦ rw (f, g) (rejected, finish_rejected body, (λ _. inl is_null, λ _. refl))
  | inr (not_null, g) ↦
      let (outcome, ends, stops) =
        on_method-EndsRejected body raw parsed (allowed_name (method_of parsed)) counts in
      rw (f, g)
        (
          outcome,
          ends,
          (
            λ h. inr (stops.0 h),
            λ stopped. elim stopped [
              | inl is_null ↦ elim (not_null is_null) [ ]
              | inr reason ↦ stops.1 reason
            ],
          ),
        )
]
