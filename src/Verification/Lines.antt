-- ===== src/Verification/Lines.antt =====
-- src/cli/verify.ts: the lines of a report. The characters beyond ASCII are their code units.
use compact_multi_part_event.Prelude.{
  ℕ, zero, suc, Option, none, some, List, [], ◌∷◌, ◌++◌, map, Text, text, decimal, length,
  if◌then◌else◌,
}
use compact_multi_part_event.Verification.Levels.{Check}
use compact_multi_part_event.Verification.Records.{BlockRef, PackageReport, VerifyReport}

-- `LEVEL_MEANING[level] ?? ""`.
unfoldable pub level_meaning : ℕ → Text
level_meaning zero = text "nothing verified"
level_meaning (suc zero) =
    text "the package: every event named N of one intent, in emission order, merged"
level_meaning (suc (suc zero)) =
    text "and its placement: guaranteed-only calls of the emitting circuit in one intent "
    ++ text "of an included transaction"
level_meaning (suc (suc (suc zero))) =
    text "and the code: the deployed emitting circuit's verifier key is the committed one"
level_meaning (suc (suc (suc (suc n)))) = []

unfoldable pub check_line : Check → Text
check_line check =
    text "  L"
    ++ decimal check.level
    ++ text " "
    ++ (if check.passed then text "OK  " else text "FAIL")
    ++ text " "
    ++ check.message

abbrev pub block_text : Option BlockRef → Text
block_text none = []
block_text (some block) = text ", block " ++ decimal block.height

unfoldable pub package_lines : PackageReport → List Text
package_lines pkg =
    (text "package     transaction "
        ++ pkg.transaction_hash
        ++ text ", segment "
        ++ decimal pkg.segment
        ++ block_text pkg.block)
      ∷ map check_line pkg.checks
    ++ (text "  verified to level " ++ decimal pkg.level) ∷ []

unfoldable pub packages_lines : List PackageReport → List Text
packages_lines [] = []
packages_lines (pkg ∷ packages) = package_lines pkg ++ packages_lines packages

abbrev pub transaction_lines : Option Text → List Text
transaction_lines none = []
transaction_lines (some hash) = (text "transaction " ++ hash) ∷ []

abbrev pub key_lines : Text → Option Text → List Text
key_lines entry_point none = []
key_lines entry_point (some digest) =
    (text "expected " ++ entry_point ++ text " verifier key SHA-256 " ++ digest) ∷ []

unfoldable pub result_line : VerifyReport → Text
result_line report =
    text "result      "
    ++ decimal (length report.packages)
    ++ text " package(s); verified to level "
    ++ decimal report.level
    ++ text " of "
    ++ decimal report.requested_level
    ++ text " "
    ++ (8212 ∷ [])
    ++ text " "
    ++ level_meaning report.level

unfoldable pub report_lines : VerifyReport → List Text
report_lines report =
    ((text "source      " ++ report.source)
      ∷ (text "contract    " ++ report.contract ++ text " (network " ++ report.network ++ text ")")
      ∷ (text "event name  " ++ report.name ++ text "; emitting circuit " ++ report.entry_point)
      ∷ [])
    ++ transaction_lines report.transaction_hash
    ++ key_lines report.entry_point report.expected_verifier_key_sha256
    ++ packages_lines report.packages
    ++ map (λ note. if report.not_found then text "not found: " ++ note else note) report.notes
    ++ result_line report ∷ []
