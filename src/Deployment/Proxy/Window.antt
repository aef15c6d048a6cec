-- ===== src/Deployment/Proxy/Window.antt =====
-- The rate limit of the proxy, over any sequence of arrivals.
use chain_port.Prelude.{
  ℕ, ◌+◌, ◌≤◌, ◌<◌, ◌≡◌, ◌⊎◌, refl, String, Option, none, some, List, [], ◌∷◌, ◌++◌, length,
  length-append, if◌then◌else◌, leb, ◌===◌, arith, Bool-cases, inl, inr,
}
use chain_port.Deployment.Proxy.{Reply, post_only, rate_limited, drop_old, arrive}

-- The hits among the last 60 seconds before `now`, and these seconds' ends.
abbrev pub recent : ℕ → List ℕ → ℕ
recent now [] = 0
recent now (hit ∷ hits) = (if leb now (hit + 60000) then 1 else 0) + recent now hits

recent-append : (now : ℕ) (xs ys : List ℕ) → recent now (xs ++ ys) ≡ recent now xs + recent now ys
recent-append now [] ys = omega arith
recent-append now (x ∷ xs) ys = omega (arith, recent-append now xs ys)

recent-le : (now : ℕ) (hits : List ℕ) → recent now hits ≤ length hits
recent-le now [] = omega arith
recent-le now (hit ∷ hits) = ground (arith, recent-le now hits)

recent-drop_old :
    (now later : ℕ) (hits : List ℕ)
    → now ≤ later
    → recent later (drop_old now hits) ≡ recent later hits
recent-drop_old now later [] h = refl
recent-drop_old now later (hit ∷ hits) h = ground (arith, recent-drop_old now later hits h)

-- An arrival: its HTTP method and its time.
abbrev pub Arrival : Type 0
Arrival = String × ℕ

abbrev pub push_time : Option Reply → ℕ → List ℕ → List ℕ
push_time none now times = now ∷ times
push_time (some reply) now times = times

-- The times of the arrivals whose body is read, after the hits of the window.
unfoldable pub accepted : ℕ → List Arrival → List ℕ → List ℕ
accepted rate_limit [] hits = []
accepted rate_limit ((http_method, now) ∷ arrivals) hits =
    let step = arrive rate_limit http_method now hits in
    push_time step.0 now (accepted rate_limit arrivals step.1)

-- The clock does not go back, from a time on and up to a last one.
unfoldable pub IsOrdered : ℕ → List Arrival → ℕ → Type 0
IsOrdered from [] last = from ≤ last
IsOrdered from ((http_method, now) ∷ arrivals) last = (from ≤ now) × IsOrdered now arrivals last

IsOrdered-le :
    (from : ℕ) (arrivals : List Arrival) (last : ℕ) → IsOrdered from arrivals last → from ≤ last
unfolding IsOrdered
IsOrdered-le from [] last h = h
IsOrdered-le from ((http_method, now) ∷ arrivals) last h =
    omega (arith, h.0, IsOrdered-le now arrivals last h.1)

arrive-cases :
    (rate_limit : ℕ) (http_method : String) (now : ℕ) (hits : List ℕ)
    → ((reply : Reply) × (arrive rate_limit http_method now hits ≡ (some reply, hits)))
      ⊎ ((reply : Reply) × (arrive rate_limit http_method now hits
            ≡ (some reply, drop_old now hits)))
      ⊎ ((length (drop_old now hits) < rate_limit)
          × (arrive rate_limit http_method now hits ≡ (none, drop_old now hits ++ now ∷ [])))
unfolding arrive
arrive-cases rate_limit http_method now hits = elim (Bool-cases (http_method === "POST")) [
  | inr other ↦ inl (post_only, rw other refl)
  | inl post ↦ elim (Bool-cases (leb rate_limit (length (drop_old now hits)))) [
    | inl full ↦ inr (inl (rate_limited, rw (post, full) refl))
    | inr free ↦ inr (inr (ground (arith, free), rw (post, free) refl))
  ]
]

length-drop_old : (now : ℕ) (hits : List ℕ) → length (drop_old now hits) ≤ length hits
length-drop_old now [] = omega arith
length-drop_old now (hit ∷ hits) = ground (arith, length-drop_old now hits)

recent-accepted :
    (rate_limit from : ℕ) (arrivals : List Arrival) (hits : List ℕ) (last : ℕ)
    → IsOrdered from arrivals last
    → length hits ≤ rate_limit
    → recent last hits + recent last (accepted rate_limit arrivals hits) ≤ rate_limit
unfolding accepted IsOrdered
recent-accepted rate_limit from [] hits last h le = omega (arith, recent-le last hits)
recent-accepted rate_limit from ((http_method, now) ∷ arrivals) hits last h le =
    let later : now ≤ last = IsOrdered-le now arrivals last h.1 in
    elim (arrive-cases rate_limit http_method now hits) [
      | inl (reply, e) ↦ rw e (recent-accepted rate_limit now arrivals hits last h.1 le)
      | inr (inl (reply, e)) ↦ rw e (
          omega (
            arith,
            recent-drop_old now last hits later,
            recent-accepted rate_limit now arrivals (drop_old now hits) last h.1
                (omega (arith, length-drop_old now hits)),
          ))
      | inr (inr (free, e)) ↦ rw e (
          omega (
            arith,
            recent-drop_old now last hits later,
            recent-append last (drop_old now hits) (now ∷ []),
            recent-accepted rate_limit now arrivals (drop_old now hits ++ now ∷ []) last h.1
                (omega (arith, length-append (drop_old now hits) (now ∷ []))),
          ))
    ]

-- While the clock does not go back, at no time are more arrivals of the last 60 seconds accepted
-- than the limit.
pub accepted-le :
    (rate_limit : ℕ) (arrivals : List Arrival) (last : ℕ)
    → IsOrdered 0 arrivals last
    → recent last (accepted rate_limit arrivals []) ≤ rate_limit
accepted-le rate_limit arrivals last h =
    omega (arith, recent-accepted rate_limit 0 arrivals [] last h (omega arith))
