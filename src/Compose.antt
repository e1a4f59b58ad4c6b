-- ===== src/Compose.antt =====
-- src/publisher/compose.ts: compose a transaction that holds one or several packages.
pub mod Config
pub mod Runtime
pub mod Intents
pub mod Loop
pub mod Built
use compact_multi_part_event.Prelude.{
  ℕ, ◌+◌, ◌*◌, Bool, true, false, not, ◌&&◌, Option, none, some, List, [], ◌∷◌, Text, Bytes, text,
  nat_eq, leb, length, if◌then◌else◌, ℕ_eq, lookup, Dictionary, Error, range_error, plain_error,
  package_check, Result, ok, throw, guard,
}
use compact_multi_part_event.Prelude
use compact_multi_part_event.Compose.Config.{
  max_packages, PublisherConfig, ResolvedConfig, resolve_publisher_config,
}
use compact_multi_part_event.Compose.Loop.{
  Query, latest_block, Composed, request_label, preflight, read_snapshots, compose_package,
}
use compact_multi_part_event.Compose.Runtime.{
  Assembly, ContractSnapshot, StateSource, PackageRequest,
}
use compact_multi_part_event.Dates.{Date, new_date}
use compact_multi_part_event.Effects.{Effect, pure, lift, call, ◌>>=◌, ◌>>◌}
use compact_multi_part_event.Finalize.{PinnedBlock, BuiltTransaction}
use compact_multi_part_event.Guard.{ExpectedPackage, assert_transaction_packages}
use compact_multi_part_event.Ledger.{Action, contract_call, other_action, Intent, Ledger}
use compact_multi_part_event.Packages.{max_safe_integer}

module _ (L : Ledger) (A : Assembly L) where
  open L use {Transcript, Tx, intents, Params}
  open A use {Seed}

  unfoldable pub compose_packages :
      ResolvedConfig
      → PinnedBlock
      → Dictionary Text (ContractSnapshot L)
      → Params
      → Date
      → ℕ
      → ℕ
      → List (Bytes × PackageRequest L A)
      → Composed L A
      → Effect (Query L A) (Composed L A)
  compose_packages config block snapshots params ttl count index [] composed = pure composed
  compose_packages config block snapshots params ttl count index ((name, request) ∷ requests)
        composed =
      do
        next ←
            compose_package L A config block snapshots params ttl
              (request_label count index (text "part")) name request composed
        compose_packages config block snapshots params ttl count (index + 1) requests next

  abbrev pub lost_transcript : Error
  lost_transcript =
      package_check (text "after assembly") (text "a call lost its guaranteed transcript")

  -- The callback of `actions.map`.
  unfoldable pub frozen_action : Action Transcript → Result Transcript
  frozen_action other_action = throw lost_transcript
  frozen_action (contract_call call) = elim call.guaranteed_transcript [
    | none ↦ throw lost_transcript
    | some transcript ↦ ok transcript
  ]

  unfoldable pub frozen_actions : List (Action Transcript) → Result (List Transcript)
  frozen_actions [] = ok []
  frozen_actions (action ∷ actions) =
      Prelude.◌>>=◌ (frozen_action action)
        λ first. Prelude.◌>>=◌ (frozen_actions actions) λ rest. ok (first ∷ rest)

  abbrev pub actions_at : Tx → ℕ → List (Action Transcript)
  actions_at tx segment = elim (lookup segment (intents tx)) [
    | none ↦ []
    | some intent ↦ intent.actions
  ]

  -- The callback of `packages.map`, for each package.
  unfoldable pub frozen_transcripts : Tx → List ExpectedPackage → Result (List (List Transcript))
  frozen_transcripts tx [] = ok []
  frozen_transcripts tx (pkg ∷ packages) =
      Prelude.◌>>=◌ (frozen_actions (actions_at tx pkg.segment))
        λ first. Prelude.◌>>=◌ (frozen_transcripts tx packages) λ rest. ok (first ∷ rest)

  -- The parameters of the first contract's snapshot.
  unfoldable pub first_params : Dictionary Text (ContractSnapshot L) → Result Params
  first_params [] = throw (plain_error (text "no contract state"))
  first_params ((contract, snapshot) ∷ snapshots) = ok snapshot.ledger_parameters

  unfoldable pub check_block : PinnedBlock → Result (Unit {0})
  check_block block =
      Prelude.◌>>◌
        (guard (not (nat_eq (length block.hash) 0)) (plain_error (text "latest block has no hash")))
        (guard (leb block.timestamp_seconds max_safe_integer && leb 1 block.timestamp_seconds)
          (range_error (text "block time must be a positive integer number of seconds")))

  -- The checks after the loop, and the transaction that is returned.
  unfoldable pub built_of : Composed L A → PinnedBlock → Params → Date → Result (BuiltTransaction L)
  built_of composed block params ttl =
      Prelude.◌>>◌
        (assert_transaction_packages L composed.built composed.packages (text "after assembly")
          none)
        (Prelude.◌>>=◌ (frozen_transcripts composed.built composed.packages) λ frozen. ok (record {
          built = composed.built;
          packages = composed.packages;
          frozen_transcripts = frozen;
          block = block;
          ledger_parameters = params;
          ttl = ttl;
          assembly_attempts = composed.attempts;
        }))

  -- What is composed first: a transaction without intents.
  abbrev pub nothing_composed : Text → Seed → Composed L A
  nothing_composed network seed =
      let started = A.empty_transaction network seed in
      record { built = started.0; packages = []; attempts = []; seed = started.1 }

  unfoldable pub build_packages_transaction :
      StateSource L
      → PublisherConfig
      → List (PackageRequest L A)
      → Seed
      → Effect (Query L A) (BuiltTransaction L)
  build_packages_transaction source config requests seed = do
    resolved ← lift (resolve_publisher_config A.sha256 config)
    lift (
        guard (leb 1 (length requests) && leb (length requests) max_packages)
          (range_error (text "a transaction holds 1..16 packages")))
    named ← lift (preflight L A resolved.max_parts (length requests) 0 requests)
    block ← call latest_block source.latest_block
    lift (check_block block)
    snapshots ← read_snapshots L A source block.hash requests []
    params ← lift (first_params snapshots)
    let ttl = new_date ((block.timestamp_seconds + resolved.ttl_seconds) * 1000)
    composed ←
        compose_packages resolved block snapshots params ttl (length requests) 0 named
          (nothing_composed resolved.network seed)
    lift (built_of composed block params ttl)

  unfoldable pub build_package_transaction :
      StateSource L
      → PublisherConfig
      → PackageRequest L A
      → Seed
      → Effect (Query L A) (BuiltTransaction L)
  build_package_transaction source config request seed =
      build_packages_transaction source config (request ∷ []) seed
