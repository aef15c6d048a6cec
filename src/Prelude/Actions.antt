-- ===== src/Prelude/Actions.antt =====
-- Code that reads and writes a state and may throw: what was written before a throw stays written.
use mathlib.Core.Path.{◌≡◌, refl}
use mathlib.Core.Bool.{Bool, true, false}
use mathlib.Core.List.{List, [], ◌∷◌}
use mathlib.Core.Logic.{◌⊎◌, inl, inr}
use chain_port.Prelude.Tests.{if◌then◌else◌}
use chain_port.Prelude.Results.{Result, ok, err}

abbrev pub Exec {ℓ} : Type ℓ → Type ℓ → Type ℓ → Type ℓ
Exec S E A = S → Result E A × S

module _ {S E : Type 0} where
  abbrev pub pure : {A : Type 0} → A → Exec S E A
  pure a s = (ok a, s)

  abbrev pub throw : {A : Type 0} → E → Exec S E A
  throw e s = (err e, s)

  abbrev pub gets : {A : Type 0} → (S → A) → Exec S E A
  gets f s = (ok (f s), s)

  abbrev pub modify : (S → S) → Exec S E (Unit {0})
  modify f s = (ok tt, f s)

  -- A call that does not touch the state.
  abbrev pub lift : {A : Type 0} → Result E A → Exec S E A
  lift r s = (r, s)

  infixl 5 ◌>>=◌ ◌>>◌
  unfoldable pub ◌>>=◌ : {A B : Type 0} → Exec S E A → (A → Exec S E B) → Exec S E B
  ◌>>=◌ m f s = let (r, s') = m s in elim r [ ok a ↦ f a s' | err e ↦ (err e, s') ]

  abbrev pub ◌>>◌ : {A B : Type 0} → Exec S E A → Exec S E B → Exec S E B
  m >> k = m >>= λ _. k

  -- `try { m } catch (error) { handler }`
  unfoldable pub try_catch : {A : Type 0} → Exec S E A → (E → Exec S E A) → Exec S E A
  try_catch m handler s = let (r, s') = m s in elim r [ ok a ↦ (ok a, s') | err e ↦ handler e s' ]

  -- `try { m } finally { ... }`, where the last part does not throw.
  unfoldable pub try_finally : {A : Type 0} → Exec S E A → (S → S) → Exec S E A
  try_finally m cleanup s = let (r, s') = m s in (r, cleanup s')

  abbrev pub when : Bool → Exec S E (Unit {0}) → Exec S E (Unit {0})
  when b m = if b then m else pure tt

  unfoldable pub for_each : {A : Type 0} → List A → (A → Exec S E (Unit {0})) → Exec S E (Unit {0})
  for_each [] f = pure tt
  for_each (a ∷ rest) f = f a >> for_each rest f

  -- How a call ends: with a value and a state, or with a throw and a state.
  abbrev pub Post : {A : Type 0} → (A → S → Type 0) → (S → Type 0) → Result E A × S → Type 0
  Post Q R (ok a, s) = Q a s
  Post Q R (err e, s) = R s

  -- From a state of `P` the code returns into `Q` or throws into `R`.
  pub record Ends {A : Type 0} (P : S → Type 0) (m : Exec S E A) (Q : A → S → Type 0)
      (R : S → Type 0) : Type 0 where
    pub at : (s : S) → P s → Post Q R (m s)

  module _ {A : Type 0} {P : S → Type 0} {Q : A → S → Type 0} {R : S → Type 0} where
    pub Ends-pure : (a : A) → ((s : S) → P s → Q a s) → Ends P (pure a) Q R
    Ends-pure a h = record { at = h }

    pub Ends-throw : (e : E) → ((s : S) → P s → R s) → Ends P (throw e) Q R
    Ends-throw e h = record { at = h }

    pub Ends-if :
        {b : Bool} {m n : Exec S E A}
        → (b ≡ true → Ends P m Q R)
        → (b ≡ false → Ends P n Q R)
        → Ends P (if b then m else n) Q R
    Ends-if {b = true} hm hn = hm refl
    Ends-if {b = false} hm hn = hn refl

    pub Ends-lift :
        {r : Result E A}
        → ((a : A) → r ≡ ok a → (s : S) → P s → Q a s)
        → ((s : S) → P s → R s)
        → Ends P (lift r) Q R
    Ends-lift {r = ok a} hq hr = record { at = hq a refl }
    Ends-lift {r = err e} hq hr = record { at = hr }

    pub Ends-cases :
        {P' : S → Type 0} {m : Exec S E A}
        → Ends P m Q R
        → Ends P' m Q R
        → Ends (λ s. P s ⊎ P' s) m Q R
    Ends-cases hp hp' = record { at = λ s h. elim h [ inl p ↦ hp.at s p | inr p ↦ hp'.at s p ] }

    pub Ends-try_catch :
        {T : S → Type 0} {m : Exec S E A} {handler : E → Exec S E A}
        → Ends P m Q T
        → ((e : E) → Ends T (handler e) Q R)
        → Ends P (try_catch m handler) Q R
    unfolding try_catch
    Ends-try_catch {T = T} {m = m} {handler = handler} hm hh = record {
      at = λ s p. go (m s) (hm.at s p);
    }
      where
        go :
            (x : Result E A × S)
            → Post Q T x
            → Post Q R (elim x.0 [ ok a ↦ (ok a, x.1) | err e ↦ handler e x.1 ])
        go (ok a, s') h = h
        go (err e, s') h = (hh e).at s' h

    pub Ends-try_finally :
        {m : Exec S E A} (cleanup : S → S)
        → Ends P m (λ a s. Q a (cleanup s)) (λ s. R (cleanup s))
        → Ends P (try_finally m cleanup) Q R
    unfolding try_finally
    Ends-try_finally {m = m} cleanup hm = record { at = λ s p. go (m s) (hm.at s p) }
      where
        go :
            (x : Result E A × S)
            → Post (λ a s. Q a (cleanup s)) (λ s. R (cleanup s)) x
            → Post Q R (x.0, cleanup x.1)
        go (ok a, s') h = h
        go (err e, s') h = h

  -- The rules of a sequence and of a weakening.
  module _ {A B : Type 0} {P : S → Type 0} {Q : B → S → Type 0} {R : S → Type 0} where
    pub Ends-bind :
        {m : Exec S E A} {f : A → Exec S E B} {M : A → S → Type 0}
        → Ends P m M R
        → ((a : A) → Ends (M a) (f a) Q R)
        → Ends P (m >>= f) Q R
    unfolding ◌>>=◌
    Ends-bind {m = m} {f = f} {M = M} hm hf = record { at = λ s p. go (m s) (hm.at s p) }
      where
        go :
            (x : Result E A × S)
            → Post M R x
            → Post Q R (elim x.0 [ ok a ↦ f a x.1 | err e ↦ (err e, x.1) ])
        go (ok a, s') h = (hf a).at s' h
        go (err e, s') h = h

  module _ {A : Type 0} {P P' : S → Type 0} {Q Q' : A → S → Type 0} {R R' : S → Type 0} where
    pub Ends-weaken :
        {m : Exec S E A}
        → Ends P m Q R
        → ((s : S) → P' s → P s)
        → ((a : A) (s : S) → Q a s → Q' a s)
        → ((s : S) → R s → R' s)
        → Ends P' m Q' R'
    Ends-weaken {m = m} hm hp hq hr = record { at = λ s p. go (m s) (hm.at s (hp s p)) }
      where
        go : (x : Result E A × S) → Post Q R x → Post Q' R' x
        go (ok a, s') h = hq a s' h
        go (err e, s') h = hr s' h

  module _ {P : S → Type 0} {R : S → Type 0} where
    pub Ends-for_each :
        {A : Type 0} (items : List A) {f : A → Exec S E (Unit {0})}
        → ((a : A) → Ends P (f a) (λ _. P) R)
        → Ends P (for_each items f) (λ _. P) R
    unfolding for_each
    Ends-for_each [] hf = record { at = λ s p. p }
    Ends-for_each (a ∷ rest) hf = Ends-bind (hf a) (λ _. Ends-for_each rest hf)
