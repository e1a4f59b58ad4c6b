-- ===== src/Verification/Facts/Entries.antt =====
-- The entries that src/cli/verify.ts reports on, and the packages of the events that they show.
use compact_multi_part_event.Prelude.{
  ℕ, ◌≡◌, refl, subst, true, none, some, some_injective, none_ne_some, ok_injective, List, [], ◌∷◌,
  map, select, Text, Bytes, text_eq, ◌==◌, inl, inr, Bool-cases, Dictionary, lookup, store, Option,
  Option-cases, Result, ok, throw, All,
}
use compact_multi_part_event.Ledger.{Ledger}
use compact_multi_part_event.Packages.{Package, ReaderLimits}
use compact_multi_part_event.Packages.Positions.{Member}
use compact_multi_part_event.Process.{lift, process-ok}
use compact_multi_part_event.Transaction.{deserialize_transaction}
use compact_multi_part_event.Verification.Facts.{
  entry_key, is_segment, in_scope, add_entries, raw_entry, add_raw_entry, add_raw_entries, Survey,
  fetch_transaction, transaction_checks, raw_packages, survey_found, survey_hashes,
}
use compact_multi_part_event.Verification.Records.{
  SourceTransaction, VerifySource, VerifyRequest, Entry,
}

-- A package of the events, of the segment that is asked for.
abbrev pub IsRead : Option ℕ → List Package → Package → Type 0
IsRead wanted packages pkg = Member pkg packages × (is_segment wanted pkg.scope.segment ≡ true)

select-IsRead :
    (wanted : Option ℕ) (all packages : List Package)
    → ((pkg : Package) → Member pkg packages → Member pkg all)
    → All (IsRead wanted all) (in_scope wanted packages)
select-IsRead wanted all [] within = tt
select-IsRead wanted all (pkg ∷ packages) within =
    let rest = select-IsRead wanted all packages (λ q m. within q (inr m)) in
    elim (Bool-cases (is_segment wanted pkg.scope.segment)) [
      | inl asked ↦ rw (select, asked) ((within pkg (inl refl), asked), rest)
      | inr other ↦ rw (select, other) rest
    ]

pub in_scope-IsRead :
    (wanted : Option ℕ) (packages : List Package)
    → All (IsRead wanted packages) (in_scope wanted packages)
in_scope-IsRead wanted packages = select-IsRead wanted packages packages (λ pkg m. m)

module _ (P : Package → Type 0) where
  -- The package of the events that an entry shows, if any, at its hash and segment.
  abbrev pub IsEntry : Entry → Type 0
  IsEntry entry =
      (pkg : Package)
      → entry.from_events ≡ some pkg
      → P pkg
        × (entry.transaction_hash ≡ pkg.scope.transaction_hash)
        × (entry.segment ≡ pkg.scope.segment)

  abbrev pub AreEntries : Dictionary Text Entry → Type 0
  AreEntries = All (λ held. IsEntry held.1)

  store-AreEntries :
      (key : Text) (entry : Entry) (entries : Dictionary Text Entry)
      → IsEntry entry
      → AreEntries entries
      → AreEntries (store key entry entries)
  store-AreEntries key entry [] here there = (here, tt)
  store-AreEntries key entry ((k, e) ∷ entries) here (first, there) = elim (Bool-cases (k == key)) [
    | inl same ↦ rw (store, same) (here, there)
    | inr other ↦ rw (store, other) (first, store-AreEntries key entry entries here there)
  ]

  pub add_entries-AreEntries :
      (packages : List Package) (entries : Dictionary Text Entry)
      → All P packages
      → AreEntries entries
      → AreEntries (add_entries entries packages)
  unfolding add_entries
  add_entries-AreEntries [] entries shown held = held
  add_entries-AreEntries (pkg ∷ packages) entries (here, shown) held =
      add_entries-AreEntries packages _ shown (
        store-AreEntries (entry_key pkg.scope.transaction_hash pkg.scope.segment) _ entries
          (λ q e. subst IsOf (some_injective e) (here, refl, refl)) held)
    where
      IsOf : Package → Type 0
      IsOf q =
          P q
          × (pkg.scope.transaction_hash ≡ q.scope.transaction_hash)
          × (pkg.scope.segment ≡ q.scope.segment)

  -- What only the raw bytes show adds no package of the events.
  add_raw_entry-AreEntries :
      (hash : Text) (entries : Dictionary Text Entry) (pkg : Package)
      → AreEntries entries
      → AreEntries (add_raw_entry hash entries pkg)
  unfolding add_raw_entry
  add_raw_entry-AreEntries hash entries pkg held =
      elim (Option-cases (lookup (entry_key hash pkg.scope.segment) entries)) [
        | inr (entry, is) ↦ rw (add_raw_entry, is) held
        | inl absent ↦
            rw (add_raw_entry, absent)
              (store-AreEntries (entry_key hash pkg.scope.segment) (raw_entry hash pkg) entries
                (λ q e. absurd (none_ne_some e)) held)
      ]

  add_raw_entries-AreEntries :
      (hash : Text) (entries : Dictionary Text Entry) (packages : List Package)
      → AreEntries entries
      → AreEntries (add_raw_entries hash entries packages)
  unfolding add_raw_entries
  add_raw_entries-AreEntries hash entries [] held = held
  add_raw_entries-AreEntries hash entries (pkg ∷ packages) held =
      add_raw_entries-AreEntries hash (add_raw_entry hash entries pkg) packages
        (add_raw_entry-AreEntries hash entries pkg held)

  pub AreEntries-map :
      (entries : Dictionary Text Entry) → AreEntries entries → All IsEntry (map (λ e. e.1) entries)
  AreEntries-map [] held = tt
  AreEntries-map (e ∷ entries) (here, held) = (here, AreEntries-map entries held)

  module _ (L : Ledger) (V : VerifySource) (request : VerifyRequest) (name : Bytes)
      (limits : ReaderLimits) where
    open L use {Tx}
    open V use {State}

    survey_found-AreEntries :
        (hash : Text) (before after : Survey L V) (tx : Option SourceTransaction) (s : State)
        → AreEntries before.entries
        → (survey_found L V request name limits hash before tx s).0 ≡ ok after
        → AreEntries after.entries
    unfolding survey_found
    survey_found-AreEntries hash before after none s held h =
        subst (λ x. AreEntries x.entries) (ok_injective h) held
    survey_found-AreEntries hash before after (some tx) s held h =
        by_bytes (deserialize_transaction L tx.raw) refl h
      where
        by_bytes :
            (r : Result Tx)
            → deserialize_transaction L tx.raw ≡ r
            → (survey_found L V request name limits hash before (some tx) s).0 ≡ ok after
            → AreEntries after.entries
        by_bytes (throw e) same h =
            subst (λ x. AreEntries x.entries) (ok_injective (rw (survey_found, same) at h)) held
        by_bytes (ok decoded) same h =
            let (checks, _, rest) =
              process-ok (transaction_checks L V request.cross_check_node hash tx decoded) _ s
                (rw (survey_found, same) at h) in
            let (read, _, last) =
              process-ok (lift (raw_packages L V request.target name limits hash decoded)) _ _
                rest in
            subst (λ x. AreEntries x.entries) (ok_injective last)
              (add_raw_entries-AreEntries hash before.entries _ held)

    pub survey_hashes-AreEntries :
        (hashes : List Text) (before after : Survey L V) (s : State)
        → AreEntries before.entries
        → (survey_hashes L V request name limits before hashes s).0 ≡ ok after
        → AreEntries after.entries
    unfolding survey_hashes
    survey_hashes-AreEntries [] before after s held h =
        subst (λ x. AreEntries x.entries) (ok_injective h) held
    survey_hashes-AreEntries (hash ∷ hashes) before after s held h =
        let (got, _, h1) = process-ok (fetch_transaction L V before.transactions hash) _ s h in
        let (next, h2, h3) =
          process-ok
            (survey_found L V request name limits hash
              (record { facts = before.facts; entries = before.entries; transactions = got.1 })
              got.0)
            _ _ h1 in
        survey_hashes-AreEntries hashes next after _
          (survey_found-AreEntries hash _ next got.0 _ held h2) h3
