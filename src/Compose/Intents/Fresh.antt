-- ===== src/Compose/Intents/Fresh.antt =====
-- The segment that `addGuaranteedIntent` of src/publisher/compose.ts returns.
use compact_multi_part_event.Prelude.{
  ℕ, zero, suc, ◌+◌, ◌≤◌, ◌≡◌, refl, sym, ap, ◌∙◌, subst, Bool, true, false, not, ◌||◌, some, List,
  [], ◌∷◌, nat_eq, nat_eq_iff, Bool-cases, select, Result, ok, >>=-eq-ok, throw_ne_ok, ok_injective,
  none_ne_some, arith, Option-cases, inl, inr, none,
}
use compact_multi_part_event.Dates.{Date}
use compact_multi_part_event.Compose.Runtime.{Assembly}
use compact_multi_part_event.Compose.Intents.{
  segments, Added, only_physical, fresh_segment, add_attempts, add_guaranteed_intent,
}
use compact_multi_part_event.Guard.{has_segment}
use compact_multi_part_event.Ledger.{Ledger}

-- The one segment of `after` that is not of `before`, and it is physical.
pub record IsFresh (before after : List ℕ) (segment : ℕ) : Type 0 where
  pub physical : 1 ≤ segment
  pub only : select (λ s. not (has_segment before s)) after ≡ segment ∷ []
  pub held : has_segment after segment ≡ true
  pub untaken : has_segment before segment ≡ false

select_holds :
    (P : ℕ → Bool) (xs : List ℕ) (s : ℕ) (more : List ℕ)
    → select P xs ≡ s ∷ more
    → (P s ≡ true) × (has_segment xs s ≡ true)
select_holds P [] s more h = cc
select_holds P (x ∷ xs) s more h = elim (Bool-cases (P x)) [
  | inl t ↦
      let e : x ∷ select P xs ≡ s ∷ more = rw (select, t) at h in
      let same : x ≡ s = cc in
      (ap P (sym same) ∙ t, ap (λ b. b || has_segment xs s) ((nat_eq_iff x s).1 same))
  | inr f ↦
      let e : select P xs ≡ s ∷ more = rw (select, f) at h in
      let (p, q) = select_holds P xs s more e in (p, ground (arith, q))
]

only_physical_lem :
    (added : List ℕ) (segment : ℕ)
    → only_physical added ≡ some segment
    → (added ≡ segment ∷ []) × (1 ≤ segment)
unfolding only_physical
only_physical_lem [] segment e = cc
only_physical_lem (s ∷ []) segment e = elim (Bool-cases (nat_eq s 0)) [
  | inl z ↦ absurd (none_ne_some (rw z at e))
  | inr p ↦
      let e' : some s ≡ some segment = rw p at e in
      let same : s ≡ segment = cc in (ap (λ x. x ∷ []) same, ground arith)
]
only_physical_lem (s ∷ t ∷ more) segment e = cc

pub fresh_segment-IsFresh :
    (before after : List ℕ) (segment : ℕ)
    → fresh_segment before after ≡ some segment
    → IsFresh before after segment
unfolding fresh_segment
fresh_segment-IsFresh before after segment e =
    let (only, low) =
      only_physical_lem (select (λ s. not (has_segment before s)) after) segment e in
    let (new, held) = select_holds _ after segment [] only in
    record { physical = low; only = only; held = held; untaken = ground arith }

fresh_segment-none :
    (before after : List ℕ)
    → fresh_segment before after ≡ none
    → (segment : ℕ) → ¬ IsFresh before after segment
unfolding fresh_segment only_physical
fresh_segment-none before after e segment fresh =
    let one : only_physical (segment ∷ []) ≡ none = ap only_physical (sym fresh.only) ∙ e in
    elim (Bool-cases (nat_eq segment 0)) [
      | inl z ↦ let physical = fresh.physical in ground arith
      | inr p ↦ absurd (none_ne_some (sym (rw p at one)))
    ]

module _ (L : Ledger) (A : Assembly L) where
  open L use {Tx, intents, Params}
  open A use {Seed, PreCall, add_calls}

  module _ (tx : Tx) (calls : Seed → Result (List PreCall × Seed)) (params : Params)
      (ttl : Date) where
    -- The attempts whose segments are not kept, each with calls and a draw of its own.
    pub data Redrawn (first : Seed) : ℕ → Seed → Type 0 where
      untried : Redrawn first 0 first
      redrawn :
          {failed : ℕ} {seed : Seed} (drawn : List PreCall × Seed) (next : Tx × Seed)
          → Redrawn first failed seed
          → calls seed ≡ ok drawn
          → add_calls tx drawn.0 params ttl drawn.1 ≡ ok next
          → ((segment : ℕ) → ¬ IsFresh (segments L A tx) (segments L A next.0) segment)
          → Redrawn first (suc failed) next.1

    -- The draw that `addGuaranteedIntent` keeps: the first, from the seed, that is fresh.
    pub record IsAdded (most : ℕ) (first : Seed) (result : Added L A × Seed) : Type 0 where
      pub failed : ℕ
      pub start : Seed
      pub drawn : List PreCall × Seed
      pub attempts : result.0.attempts ≡ failed + 1
      pub within : failed + 1 ≤ most
      pub redraws : Redrawn first failed start
      pub made : calls start ≡ ok drawn
      pub added_calls : add_calls tx drawn.0 params ttl drawn.1 ≡ ok (result.0.built, result.1)
      pub fresh : IsFresh (segments L A tx) (segments L A result.0.built) result.0.segment

    add_attempts-IsAdded :
        (most attempt left failed : ℕ) (first seed : Seed) (result : Added L A × Seed)
        → attempt ≡ failed + 1
        → attempt + left ≤ most + 1
        → Redrawn first failed seed
        → add_attempts L A tx calls params ttl most attempt left seed ≡ ok result
        → IsAdded most first result
    unfolding add_attempts
    add_attempts-IsAdded most attempt zero failed first seed result low high before e =
        absurd (throw_ne_ok _ result e)
    add_attempts-IsAdded most attempt (suc left) failed first seed result low high before e =
        let (drawn, e1, e2) = >>=-eq-ok (calls seed) _ e in
        let (next, e3, e4) = >>=-eq-ok (add_calls tx drawn.0 params ttl drawn.1) _ e2 in
        elim (Option-cases (fresh_segment (segments L A tx) (segments L A next.0))) [
          | inl h ↦
              add_attempts-IsAdded most (attempt + 1) left (suc failed) first next.1 result
                (omega (arith, low)) (omega (arith, high))
                (redrawn drawn next before e1 e3 (fresh_segment-none _ _ h)) (rw h at e4)
          | inr (segment, h) ↦
              let same : (record { built = next.0; segment = segment; attempts = attempt }, next.1)
                  ≡ result =
                ok_injective (rw h at e4) in
              subst (λ r. IsAdded most first r) same
                (record {
                  failed = failed;
                  start = seed;
                  drawn = drawn;
                  attempts = low;
                  within = omega (arith, low, high);
                  redraws = before;
                  made = e1;
                  added_calls = e3;
                  fresh = fresh_segment-IsFresh _ _ segment h;
                })
        ]

  -- If an intent of guaranteed-only calls is added to a transaction, then the result is that of the
  -- first attempt, within those allowed, whose calls, made anew from its seed, the ledger put into
  -- exactly one new segment, which is not segment 0 and held no intent before; each attempt before
  -- made its calls too, and left no such segment.
  pub add_guaranteed_intent-IsAdded :
      (tx : Tx) (calls : Seed → Result (List PreCall × Seed)) (params : Params) (ttl : Date)
      (most : ℕ) (seed : Seed) (result : Added L A × Seed)
      → add_guaranteed_intent L A tx calls params ttl most seed ≡ ok result
      → IsAdded tx calls params ttl most seed result
  unfolding add_guaranteed_intent
  add_guaranteed_intent-IsAdded tx calls params ttl most seed result e =
      add_attempts-IsAdded tx calls params ttl most 1 most 0 seed seed result refl (omega arith)
        untried e
