-- ===== src/Lifecycle/Paths.antt =====
-- Sequences of allowed transitions, and how long one can be between two retries.
use chain_port.Prelude.{
  ℕ, suc, ◌+◌, ◌*◌, ◌≤◌, ◌<◌, ◌≡◌, ◌⊎◌, inl, Bool, true, false, arith, if◌then◌else◌,
}

-- The error of the `assert...Transition` functions.
pub data TransitionError {ℓ} (S : Type ℓ) : Type ℓ where
  invalid_transition : S → S → TransitionError S

module _ {S : Type 0} (allowed : S → S → Bool) where
  pub data Trace (s : S) : S → Type 0 where
    start : Trace s s
    move : {t : S} (u : S) → Trace s t → allowed t u ≡ true → Trace s u

  pub steps : {s t : S} → Trace s t → ℕ
  steps start = 0
  steps (move u p h) = suc (steps p)

  -- The path is at a status at its start or after one of its moves.
  unfoldable pub Visits : S → {s t : S} → Trace s t → Type 0
  Visits v {s} start = s ≡ v
  Visits v (move u p h) = (u ≡ v) ⊎ Visits v p

  -- A path is at its end.
  pub Visits-end : {s t v : S} (p : Trace s t) → t ≡ v → Visits v p
  unfolding Visits
  Visits-end start e = e
  Visits-end (move u p h) e = inl e

  -- A path that starts in a class of statuses that no transition leaves stays in the class.
  pub Trace-closed {κ} :
      (P : S → Type κ)
      → ((s t : S) → allowed s t ≡ true → P s → P t)
      → {s t : S} → Trace s t
      → P s
      → P t
  Trace-closed P closed start h = h
  Trace-closed P closed (move {t} u p e) h = closed t u e (Trace-closed P closed p h)

  module _ (is_retry : S → Bool) where
    -- How many moves of the path are retries.
    pub retries : {s t : S} → Trace s t → ℕ
    retries start = 0
    retries (move {t} u p h) = (if is_retry t then 1 else 0) + retries p

    -- With a rank that every transition raises but a retry, a path is no longer than its retries
    -- account for.
    pub steps-le :
        (rank : S → ℕ) (top : ℕ)
        → ((s t : S) → allowed s t ≡ true → is_retry s ≡ false → rank s < rank t)
        → ((s : S) → rank s ≤ top)
        → {s t : S} (p : Trace s t) → steps p + rank s ≤ rank t + (top + 1) * retries p
    unfolding steps retries
    steps-le rank top rises bounded start = omega arith
    steps-le rank top rises bounded (move {t} u p h) =
        ground (arith, steps-le rank top rises bounded p, rises t u h, bounded t, bounded u)
