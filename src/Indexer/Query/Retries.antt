-- ===== src/Indexer/Query/Retries.antt =====
-- The attempts of a query of src/indexer/index.ts, and the calls that they make.
use compact_multi_part_event.Prelude.{
  ℕ, zero, suc, ◌+◌, ◌≤◌, ◌<◌, ◌≡◌, refl, sym, ap, Option, none, some, List, [], ◌∷◌, ◌++◌,
  append-nil, Error, Result, arith,
}
use compact_multi_part_event.Indexer.Query.{
  Query, DataOf, Reply, Outcome, again, ended, outcome, Call, request, Client, delay, sleeps,
  query_attempts, query,
}

-- The calls of a number of attempts, from an attempt on.
abbrev pub attempt_calls : Query → ℕ → ℕ → List Call
attempt_calls q attempt zero = []
attempt_calls q attempt (suc count) =
    (sleeps attempt ++ request q ∷ []) ++ attempt_calls q (attempt + 1) count

pub delay_bounded : (attempt : ℕ) → delay attempt ≤ 10000
unfolding delay
delay_bounded attempt = omega arith

module _ (C : Client) where
  open C use {State, fetch, max_attempts}

  -- A number of attempts, each with a transient outcome, lead from a state to another one.
  pub data Transient (q : Query) : ℕ → State → State → Type 0 where
    none_yet : (s : State) → Transient q zero s s
    one_more :
        (n : ℕ) (s t u : State) (e : Error) (reply : Reply (DataOf q))
        → fetch q s ≡ (reply, t)
        → outcome reply ≡ again e
        → Transient q n t u
        → Transient q (suc n) s u

  query_attempts-ended :
      (q : Query) (n attempt left : ℕ) (last : Option Error) (s t u : State)
      (reply : Reply (DataOf q)) (result : Result (DataOf q))
      → Transient q n s t
      → fetch q t ≡ (reply, u)
      → outcome reply ≡ ended result
      → n < left
      → query_attempts C q attempt left last s ≡ (result, u, attempt_calls q attempt (suc n))
  unfolding query_attempts
  query_attempts-ended q n attempt zero last s t u reply result before f o lt = absurd (omega arith)
  query_attempts-ended q zero attempt (suc left) last s t u reply result (none_yet _) f o lt =
      rw (query_attempts, f, o, f)
        (ap (λ (cs : List Call). (result, u, cs))
          (sym (append-nil (sleeps attempt ++ request q ∷ []))))
  query_attempts-ended q (suc n) attempt (suc left) last s t u reply result
        (one_more _ _ m _ e r g p before) f o lt =
      let rest =
        query_attempts-ended q n (attempt + 1) left (some e) m t u reply result before f o
          (omega arith) in
      rw (query_attempts, g, p, g)
        (ap (λ x. (x.0, x.1, (sleeps attempt ++ request q ∷ []) ++ x.2)) rest)

  -- If fewer requests than the attempts end in a transient failure and the next one ends otherwise,
  -- then the query answers what that request ends in, and its calls are one request for each
  -- attempt, with the delay of each attempt from the second on.
  pub query-ended :
      (q : Query) (n : ℕ) (s t u : State) (reply : Reply (DataOf q)) (result : Result (DataOf q))
      → Transient q n s t
      → fetch q t ≡ (reply, u)
      → outcome reply ≡ ended result
      → n < max_attempts
      → query C q s ≡ (result, u, attempt_calls q 1 (suc n))
  unfolding query
  query-ended q n s t u reply result =
      query_attempts-ended q n 1 max_attempts none s t u reply result

  query_attempts_bounded :
      (q : Query) (attempt left : ℕ) (last : Option Error) (s : State)
      → (count : ℕ) × (count ≤ left)
        × ((query_attempts C q attempt left last s).2 ≡ attempt_calls q attempt count)
  unfolding query_attempts
  query_attempts_bounded q attempt zero last s = (0, omega arith, refl)
  query_attempts_bounded q attempt (suc left) last s =
      cases (outcome (fetch q s).0) refl
        (λ e. query_attempts_bounded q (attempt + 1) left (some e) (fetch q s).1)
    where
      cases :
          (o : Outcome (DataOf q))
          → outcome (fetch q s).0 ≡ o
          → ((e : Error)
              → (count : ℕ) × (count ≤ left)
                × ((query_attempts C q (attempt + 1) left (some e) (fetch q s).1).2
                    ≡ attempt_calls q (attempt + 1) count))
          → (count : ℕ) × (count ≤ suc left)
            × ((query_attempts C q attempt (suc left) last s).2 ≡ attempt_calls q attempt count)
      cases (ended result) h rest = (
        1,
        omega arith,
        rw (query_attempts, h) (sym (append-nil (sleeps attempt ++ request q ∷ []))),
      )
      cases (again e) h rest =
          let (count, few, calls) = rest e in
          (
            suc count,
            omega arith,
            rw (query_attempts, h) (ap (λ cs. (sleeps attempt ++ request q ∷ []) ++ cs) calls),
          )

  -- The calls of a query are those of some number of attempts, at most the configured one, whatever
  -- the indexer answers.
  pub query_bounded :
      (q : Query) (s : State)
      → (count : ℕ) × (count ≤ max_attempts) × ((query C q s).2 ≡ attempt_calls q 1 count)
  unfolding query
  query_bounded q s = query_attempts_bounded q 1 max_attempts none s
