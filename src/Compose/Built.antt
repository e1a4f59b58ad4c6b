-- ===== src/Compose/Built.antt =====
-- What a transaction built by src/publisher/compose.ts holds.
pub mod Frozen
use compact_multi_part_event.Prelude.{
  ℕ, ◌+◌, ◌*◌, ◌≤◌, ◌≡◌, refl, sym, ap, ◌∙◌, subst, ◌&&◌, none, List, [], ◌∷◌, ◌++◌, append-nil,
  append_assoc, Text, Bytes, text, leb, length, Dictionary, range_error, ok, guard, guard_last,
  >>=-eq-ok, ok_injective, arith,
}
use compact_multi_part_event.Compose.{
  compose_packages, frozen_transcripts, first_params, check_block, built_of, nothing_composed,
  build_packages_transaction,
}
use compact_multi_part_event.Compose.Built.Frozen.{AreFrozen, frozen_transcripts-AreFrozen}
use compact_multi_part_event.Compose.Config.{
  max_packages, PublisherConfig, ResolvedConfig, resolve_publisher_config,
}
use compact_multi_part_event.Compose.Loop.{
  latest_block, request_label, preflight, read_snapshots, Composed, compose_package,
}
use compact_multi_part_event.Compose.Loop.Requested.{
  IsRequested, AreNamed, preflight-AreNamed, compose_package-IsRequested,
}
use compact_multi_part_event.Compose.Runtime.{
  Assembly, ContractSnapshot, StateSource, PackageRequest,
}
use compact_multi_part_event.Dates.{Date, new_date}
use compact_multi_part_event.Effects.{lift, call, effect-eq-ok}
use compact_multi_part_event.Event.{event_name}
use compact_multi_part_event.Finalize.{PinnedBlock, BuiltTransaction}
use compact_multi_part_event.Guard.{ExpectedPackage, assert_transaction_packages}
use compact_multi_part_event.Guard.Transactions.{IsPackaged, assert_transaction_packages-IsPackaged}
use compact_multi_part_event.Ledger.{Ledger}

module _ (L : Ledger) (A : Assembly L) where
  open L use {Tx, Params}
  open A use {Seed}

  -- The packages are the requested ones, in order, each under the encoded name.
  abbrev pub AreRequested :
      ResolvedConfig → List (PackageRequest L A) → List ExpectedPackage → Type 0
  AreRequested config [] [] = Unit
  AreRequested config [] (pkg ∷ packages) = ⊥
  AreRequested config (request ∷ requests) [] = ⊥
  AreRequested config (request ∷ requests) (pkg ∷ packages) =
      ((name : Bytes) × (event_name request.name ≡ ok name)
        × IsRequested L A config name request pkg)
      × AreRequested config requests packages

  compose_packages-AreRequested :
      (config : ResolvedConfig) (block : PinnedBlock)
      (snapshots : Dictionary Text (ContractSnapshot L)) (params : Params) (ttl : Date)
      (count index : ℕ) (requests : List (PackageRequest L A))
      (named : List (Bytes × PackageRequest L A)) (composed next : Composed L A)
      → AreNamed L A requests named
      → (compose_packages L A config block snapshots params ttl count index named composed).0
        ≡ ok next
      → (packages : List ExpectedPackage) × (next.packages ≡ composed.packages ++ packages)
        × AreRequested config requests packages
  unfolding compose_packages
  compose_packages-AreRequested config block snapshots params ttl count index [] [] composed next n
        e =
      ([], ap (λ c. c.packages) (sym (ok_injective e)) ∙ sym (append-nil composed.packages), tt)
  compose_packages-AreRequested config block snapshots params ttl count index [] (m ∷ named)
        composed next n e =
      absurd n
  compose_packages-AreRequested config block snapshots params ttl count index (r ∷ requests) []
        composed next n e =
      absurd n
  compose_packages-AreRequested config block snapshots params ttl count index (r ∷ requests)
        ((name, request) ∷ named) composed next (encoded, same, n) e =
      let label = request_label count index (text "part") in
      let (after, e1, e2, _) =
        effect-eq-ok
          (compose_package L A config block snapshots params ttl label name request composed) _ e in
      let (pkg, added, requested) =
        compose_package-IsRequested L A config block snapshots params ttl label name request
          composed after e1 in
      let (packages, rest, described) =
        compose_packages-AreRequested config block snapshots params ttl count (index + 1) requests
          named after next n e2 in
      (
        pkg ∷ packages,
        rest ∙ ap (λ ps. ps ++ packages) added ∙ append_assoc composed.packages (pkg ∷ []) packages,
        ((name, encoded, subst (λ q. IsRequested L A config name q pkg) same requested), described),
      )

  -- What a built transaction promises.
  pub record IsBuilt (source : StateSource L) (config : PublisherConfig)
      (requests : List (PackageRequest L A)) (built : BuiltTransaction L) : Type 0 where
    pub resolved : ResolvedConfig
    pub resolves : resolve_publisher_config A.sha256 config ≡ ok resolved
    pub few : length requests ≤ max_packages
    pub requested : AreRequested resolved requests built.packages
    pub packaged : IsPackaged L built.built built.packages none
    pub frozen : AreFrozen L built.built built.packages built.frozen_transcripts
    pub pinned : source.latest_block ≡ ok built.block
    pub expires :
        built.ttl ≡ new_date ((built.block.timestamp_seconds + resolved.ttl_seconds) * 1000)

  record IsChecked (composed : Composed L A) (block : PinnedBlock) (ttl : Date)
      (built : BuiltTransaction L) : Type 0 where
    packages : built.packages ≡ composed.packages
    packaged : IsPackaged L built.built built.packages none
    frozen : AreFrozen L built.built built.packages built.frozen_transcripts
    pinned : built.block ≡ block
    expires : built.ttl ≡ ttl

  built_of-IsChecked :
      (composed : Composed L A) (block : PinnedBlock) (params : Params) (ttl : Date)
      (built : BuiltTransaction L)
      → built_of L A composed block params ttl ≡ ok built
      → IsChecked composed block ttl built
  unfolding built_of
  built_of-IsChecked composed block params ttl built e =
      let (_, e1, e2) =
        >>=-eq-ok
          (assert_transaction_packages L composed.built composed.packages (text "after assembly")
            none)
          _ e in
      let packaged =
        assert_transaction_packages-IsPackaged L composed.built composed.packages
          (text "after assembly") none e1 in
      let (frozen, e3, e4) =
        >>=-eq-ok (frozen_transcripts L A composed.built composed.packages) _ e2 in
      subst (λ b. IsChecked composed block ttl b) (ok_injective e4)
        (record {
          packages = refl;
          packaged = packaged;
          frozen =
              frozen_transcripts-AreFrozen L A composed.built composed.packages frozen packaged.held
                e3;
          pinned = refl;
          expires = refl;
        })

  -- If a transaction is built, then it holds one package for each request, in order and at most
  -- sixteen, with the request's contract, circuit, encoded name and parts, each as one intent of
  -- guaranteed-only calls at a segment of its own; its frozen transcripts are, for each package,
  -- the guaranteed transcripts of the calls of the intent at its segment, in order; and its TTL is
  -- the date the configured time after the pinned block, invalid if it is beyond the range of
  -- dates.
  pub build_packages_transaction-IsBuilt :
      (source : StateSource L) (config : PublisherConfig) (requests : List (PackageRequest L A))
      (seed : Seed) (built : BuiltTransaction L)
      → (build_packages_transaction L A source config requests seed).0 ≡ ok built
      → IsBuilt source config requests built
  unfolding build_packages_transaction
  build_packages_transaction-IsBuilt source config requests seed built e =
      let (resolved, r0, e0, _) =
        effect-eq-ok (lift (resolve_publisher_config A.sha256 config)) _ e in
      let (_, r1, e1, _) =
        effect-eq-ok
          (lift (
            guard (leb 1 (length requests) && leb (length requests) max_packages)
              (range_error (text "a transaction holds 1..16 packages"))))
          _ e0 in
      let few = guard_last (leb 1 (length requests) && leb (length requests) max_packages) _ r1 in
      let (named, r2, e2, _) =
        effect-eq-ok (lift (preflight L A resolved.max_parts (length requests) 0 requests)) _ e1 in
      let (block, r3, e3, _) = effect-eq-ok (call latest_block source.latest_block) _ e2 in
      let (_, r4, e4, _) = effect-eq-ok (lift (check_block L A block)) _ e3 in
      let (snapshots, r5, e5, _) =
        effect-eq-ok (read_snapshots L A source block.hash requests []) _ e4 in
      let (params, r6, e6, _) = effect-eq-ok (lift (first_params L A snapshots)) _ e5 in
      let ttl = new_date ((block.timestamp_seconds + resolved.ttl_seconds) * 1000) in
      let (composed, r7, e7, _) =
        effect-eq-ok
          (compose_packages L A resolved block snapshots params ttl (length requests) 0 named
            (nothing_composed L A resolved.network seed))
          _ e6 in
      let (packages, all, described) =
        compose_packages-AreRequested resolved block snapshots params ttl (length requests) 0
          requests named (nothing_composed L A resolved.network seed) composed
          (preflight-AreNamed L A resolved.max_parts (length requests) 0 requests named r2) r7 in
      let checked = built_of-IsChecked composed block params ttl built e7 in
      record {
        resolved = resolved;
        resolves = r0;
        few = ground arith;
        requested =
            subst (λ ps. AreRequested resolved requests ps) (sym (checked.packages ∙ all))
              described;
        packaged = checked.packaged;
        frozen = checked.frozen;
        pinned = r3 ∙ ap ok (sym checked.pinned);
        expires =
            checked.expires
            ∙ ap (λ b. new_date ((b.timestamp_seconds + resolved.ttl_seconds) * 1000))
                (sym checked.pinned);
      }
