-- ===== src/Verification/Records.antt =====
-- src/cli/verify.ts: what is verified, where its public data comes from, and the report. A source's
-- functions await calls of its own environment.
use compact_multi_part_event.Prelude.{
  ℕ, Bool, Option, List, Text, Bytes, Dictionary, leb, if◌then◌else◌,
}
use compact_multi_part_event.Event.{Name}
use compact_multi_part_event.Packages.{Package, PartEvent, ReaderLimits}
use compact_multi_part_event.Process.{Process}
use compact_multi_part_event.Verification.Levels.{Check}

pub record VerifyTarget : Type 0 where
  pub network : Text
  pub contract : Text
  pub name : Name
  pub entry_point : Text

pub record BlockRef : Type 0 where
  pub hash : Text
  pub height : ℕ

pub record SourceTransaction : Type 0 where
  pub hash : Text
  pub raw : Bytes
  pub status : Text
  pub block : Option BlockRef

pub record SourceEvents : Type 0 where
  pub events : List PartEvent
  pub issues : Dictionary Text (List Text)
  pub blocks : Dictionary Text BlockRef
  pub count : ℕ

pub record VerifySource : Type 1 where
  pub State : Type 0
  pub Call : Type 0
  pub description : Text
  pub events :
      (contract : Text) → (transaction_hash : Option Text) → Process State Call SourceEvents
  pub transaction : (hash : Text) → Process State Call (Option SourceTransaction)
  pub contract_state : (contract : Text) → Option BlockRef → Process State Call (Option Bytes)
  pub node_holds : Option ((block_hash : Text) → Bytes → Process State Call (Option ℕ))

pub record VerifyRequest : Type 0 where
  pub target : VerifyTarget
  pub level : ℕ
  pub transaction_hash : Option Text
  pub segment : Option ℕ
  pub expected_verifier_key : Option Bytes
  pub cross_check_node : Bool
  pub limits : Option ReaderLimits

pub record PackageReport : Type 0 where
  pub transaction_hash : Text
  pub segment : ℕ
  pub block : Option BlockRef
  pub status : Option Text
  pub parts : ℕ
  pub payload_bytes : ℕ
  pub payload_sha256 : Option Text
  pub payload_hex : Option Text
  pub level : ℕ
  pub checks : List Check

pub data Mode : Type 0 where
  one_transaction listing : Mode

pub record VerifyReport : Type 0 where
  pub source : Text
  pub mode : Mode
  pub network : Text
  pub contract : Text
  pub name : Text
  pub name_hex : Text
  pub entry_point : Text
  pub requested_level : ℕ
  pub level : ℕ
  pub not_found : Bool
  pub transaction_hash : Option Text
  pub segment : Option ℕ
  pub events : ℕ
  pub other_events : ℕ
  pub expected_verifier_key_sha256 : Option Text
  pub packages : List PackageReport
  pub notes : List Text

unfoldable pub verify_exit_status : VerifyReport → ℕ
verify_exit_status report =
    if report.not_found then 3 else if leb report.requested_level report.level then 0 else 1

pub record Entry : Type 0 where
  pub transaction_hash : Text
  pub segment : ℕ
  pub from_events : Option Package
  pub raw_only : Option Package

-- With the type of the deserialized transactions.
pub record TransactionFacts (Tx : Type 0) : Type 0 where
  pub transaction : Option SourceTransaction
  pub decoded : Option Tx
  pub checks : List Check
