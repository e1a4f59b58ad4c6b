-- ===== src/Compose/Loop/Requested.antt =====
-- The packages that the loops of `buildPackagesTransaction` describe, and the requests for them:
-- src/publisher/compose.ts.
use compact_multi_part_event.Prelude.{
  ℕ, ◌+◌, ◌≡◌, refl, sym, ap, ◌∙◌, subst, List, [], ◌∷◌, ◌++◌, Text, Bytes, text, length, ok,
  >>=-eq-ok, guard-eq-ok, not, nat_eq, leb, ◌&&◌, ok_injective, Dictionary,
}
use compact_multi_part_event.Compose.Config.{ResolvedConfig, preflight_package, check_widths}
use compact_multi_part_event.Compose.Intents.{pre_calls, add_guaranteed_intent}
use compact_multi_part_event.Compose.Loop.{
  request_label, preflight, execute_parts, Composed, verifier_key_for, snapshot_of, compose_package,
}
use compact_multi_part_event.Dates.{Date}
use compact_multi_part_event.Compose.Runtime.{Assembly, ContractSnapshot, PackageRequest}
use compact_multi_part_event.Effects.{lift, effect-eq-ok}
use compact_multi_part_event.Event.{event_name}
use compact_multi_part_event.Finalize.{PinnedBlock}
use compact_multi_part_event.Guard.{ExpectedPackage}
use compact_multi_part_event.Ledger.{Ledger}
use compact_multi_part_event.Packages.{is_address}

module _ (L : Ledger) (A : Assembly L) where
  open L use {Params}

  -- The package is the one that the request asks for, in the configured network.
  pub record IsRequested (config : ResolvedConfig) (name : Bytes) (request : PackageRequest L A)
      (pkg : ExpectedPackage) : Type 0 where
    pub network : pkg.network ≡ config.network
    pub contract : pkg.contract ≡ request.contract
    pub entry_point : pkg.entry_point ≡ request.emission.entry_point
    pub encoded : pkg.name ≡ name
    pub parts : pkg.parts ≡ request.parts

  abbrev pub AreNamed : List (PackageRequest L A) → List (Bytes × PackageRequest L A) → Type 0
  AreNamed [] [] = Unit
  AreNamed [] (n ∷ named) = ⊥
  AreNamed (request ∷ requests) [] = ⊥
  AreNamed (request ∷ requests) ((name, same) ∷ named) =
      (event_name request.name ≡ ok name) × (same ≡ request) × AreNamed requests named

  preflight_package-name :
      (request : PackageRequest L A) (most : ℕ) (label : Text) (name : Bytes)
      → preflight_package request.contract request.emission.entry_point request.name request.parts
          most label
        ≡ ok name
      → event_name request.name ≡ ok name
  unfolding preflight_package
  preflight_package-name request most label name e =
      let (_, e1) = guard-eq-ok (is_address request.contract) _ _ e in
      let (_, e2) = guard-eq-ok (not (nat_eq (length request.emission.entry_point) 0)) _ _ e1 in
      let (encoded, e3, e4) = >>=-eq-ok (event_name request.name) _ e2 in
      let (_, e5) =
        guard-eq-ok (leb 1 (length request.parts) && leb (length request.parts) most) _ _ e4 in
      let (_, _, e6) = >>=-eq-ok (check_widths label 0 request.parts) _ e5 in e3 ∙ e6

  pub preflight-AreNamed :
      (most count index : ℕ) (requests : List (PackageRequest L A))
      (named : List (Bytes × PackageRequest L A))
      → preflight L A most count index requests ≡ ok named
      → AreNamed requests named
  unfolding preflight
  preflight-AreNamed most count index [] named e = subst (λ n. AreNamed [] n) (ok_injective e) tt
  preflight-AreNamed most count index (request ∷ requests) named e =
      let (name, e1, e2) =
        >>=-eq-ok
          (preflight_package request.contract request.emission.entry_point request.name
            request.parts most (request_label count index (text "package")))
          _ e in
      let (rest, e3, e4) = >>=-eq-ok (preflight L A most count (index + 1) requests) _ e2 in
      let here : AreNamed (request ∷ requests) ((name, request) ∷ rest) = (
        preflight_package-name request most _ name e1,
        refl,
        preflight-AreNamed most count (index + 1) requests rest e3,
      ) in
      subst (λ n. AreNamed (request ∷ requests) n) (ok_injective e4) here

  -- Composing a package adds it behind the packages composed so far.
  pub compose_package-IsRequested :
      (config : ResolvedConfig) (block : PinnedBlock)
      (snapshots : Dictionary Text (ContractSnapshot L)) (params : Params) (ttl : Date)
      (label : Text) (name : Bytes) (request : PackageRequest L A) (composed next : Composed L A)
      → (compose_package L A config block snapshots params ttl label name request composed).0
        ≡ ok next
      → (pkg : ExpectedPackage) × (next.packages ≡ composed.packages ++ pkg ∷ [])
        × IsRequested config name request pkg
  unfolding compose_package
  compose_package-IsRequested config block snapshots params ttl label name request composed next e =
      let (snapshot, _, e1, _) =
        effect-eq-ok (lift (snapshot_of L A snapshots request.contract)) _ e in
      let (runtime, _, e2, _) =
        effect-eq-ok (lift (A.runtime_state snapshot.contract_state)) _ e1 in
      let (state, _, e3, _) = effect-eq-ok (lift (A.ledger_state snapshot.contract_state)) _ e2 in
      let (key, _, e4, _) =
        effect-eq-ok
          (lift (verifier_key_for L A state request.contract request.emission.entry_point)) _ e3 in
      let (location, _, e5, _) =
        effect-eq-ok
          (lift (
            config.key_location (record {
              address = request.contract;
              entry_point = request.emission.entry_point;
              verifier_key = key;
            })))
          _ e4 in
      let (traces, _, e6, _) =
        effect-eq-ok (execute_parts L A config block request name runtime label 0 request.parts) _
          e5 in
      let (added, _, e7, _) =
        effect-eq-ok
          (lift (
            add_guaranteed_intent L A composed.built (pre_calls L A state location traces) params
              ttl config.max_assembly_attempts composed.seed))
          _ e6 in
      (
        _,
        ap (λ c. c.packages) (sym (ok_injective e7)),
        record {
          network = refl;
          contract = refl;
          entry_point = refl;
          encoded = refl;
          parts = refl;
        },
      )
