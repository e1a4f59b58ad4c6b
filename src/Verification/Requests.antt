-- ===== src/Verification/Requests.antt =====
-- src/cli/verify.ts: the request's validation, and the choices that `verifyPackages` makes between
-- what is there and what is not.
use compact_multi_part_event.Prelude.{
  ℕ, compare, Ordering, Bool, true, false, not, ◌&&◌, Option, none, some, List, [], ◌∷◌, ◌++◌, map,
  Text, Bytes, text, decimal, leb, ltb, if◌then◌else◌, text_eq, Dictionary, or_else, range_error,
  Result, ok, throw, guard,
}
use compact_multi_part_event.Bytes.{compare_code_units}
use compact_multi_part_event.Event.{event_name}
use compact_multi_part_event.Packages.{Package, is_address, max_safe_integer}
use compact_multi_part_event.Transaction.{is_empty, is_accepted, includes}
use compact_multi_part_event.Verification.Records.{
  BlockRef, SourceTransaction, VerifyRequest, PackageReport, Mode, one_transaction, listing, Entry,
}

-- The checks of the segment.
unfoldable pub check_segment : Option ℕ → Option Text → Result (Unit {0})
check_segment none hash = ok tt
check_segment (some segment) none = throw (range_error (text "a segment needs a transaction"))
check_segment (some segment) (some hash) =
    guard (leb 1 segment && leb segment 65535) (range_error (text "segment must be 1..65535"))

abbrev pub is_some {ℓ} : {A : Type ℓ} → Option A → Bool
is_some none = false
is_some (some a) = true

abbrev pub mode_of : Option Text → Mode
mode_of none = listing
mode_of (some hash) = one_transaction

-- `<`, where a missing block is `Number.MAX_SAFE_INTEGER`.
abbrev pub height_or_last : Option BlockRef → ℕ
height_or_last none = max_safe_integer
height_or_last (some block) = block.height

unfoldable pub compare_reports : PackageReport → PackageReport → Ordering
compare_reports left right =
    or_else (compare (height_or_last left.block) (height_or_last right.block)) (
      or_else (compare_code_units left.transaction_hash right.transaction_hash)
        (compare left.segment right.segment))

-- `reduce` to the lowest level.
unfoldable pub lowest_level : ℕ → List PackageReport → ℕ
lowest_level lowest [] = lowest
lowest_level lowest (pkg ∷ packages) =
    lowest_level (if ltb pkg.level lowest then pkg.level else lowest) packages

-- `[...new Set(hashes)]`.
unfoldable pub distinct : List Text → List Text → List Text
distinct seen [] = []
distinct seen (hash ∷ hashes) =
    if includes seen hash then distinct seen hashes else hash ∷ distinct (hash ∷ seen) hashes

abbrev pub or_listed : Option Text → Dictionary Text Entry → List Text
or_listed none entries = distinct [] (map (λ entry. entry.1.transaction_hash) entries)
or_listed (some hash) entries = hash ∷ []

-- Where nothing was found.
unfoldable pub scope_text : VerifyRequest → ℕ → Text
scope_text request count = elim request.transaction_hash [
  | none ↦ text "among the contract's " ++ decimal count ++ text " Misc events"
  | some hash ↦ text "in transaction " ++ hash ++ (elim request.segment [
    | none ↦ []
    | some segment ↦ text " at segment " ++ decimal segment
  ])
]

abbrev pub issues_of : Option (List Text) → List Text
issues_of none = []
issues_of (some issues) = issues

-- `a ?? b`.
abbrev pub or_block : Option BlockRef → Option BlockRef → Option BlockRef
or_block none b = b
or_block (some a) b = some a

abbrev pub block_of : Option SourceTransaction → Option BlockRef
block_of none = none
block_of (some tx) = tx.block

abbrev pub status_of : Option SourceTransaction → Option Text
status_of none = none
status_of (some tx) = some tx.status

abbrev pub state_key : Option BlockRef → Text
state_key none = []
state_key (some block) = block.hash

-- The payload of an accepted package.
abbrev pub accepted_payload : Option Package → Option Bytes
accepted_payload none = none
accepted_payload (some pkg) = if is_accepted pkg.status then pkg.payload else none

abbrev pub map_payload : (Bytes → Text) → Option Bytes → Option Text
map_payload f none = none
map_payload f (some payload) = some (f payload)

unfoldable pub validate_request : VerifyRequest → Result Bytes
validate_request request =
    elim (guard (leb 1 request.level && leb request.level 3)
      (range_error (text "level must be 1, 2 or 3"))) [
        | throw e ↦ throw e
        | ok _ ↦
            elim (guard (is_address request.target.contract)
              (range_error (text "contract must be 64 lowercase hex characters"))) [
                | throw e ↦ throw e
                | ok _ ↦
                    elim (guard (not (is_empty request.target.entry_point))
                      (range_error (text "the entry point must not be empty"))) [
                        | throw e ↦ throw e
                        | ok _ ↦ elim (event_name request.target.name) [
                          | throw e ↦ throw e
                          | ok name ↦
                              elim (check_segment request.segment request.transaction_hash) [
                                | throw e ↦ throw e
                                | ok _ ↦
                                    if leb 3 request.level
                                      && not (is_some request.expected_verifier_key)
                                    then throw (
                                        range_error
                                          (text "Level 3 needs the expected verifier key"))
                                    else ok name
                              ]
                        ]
                      ]
              ]
      ]
