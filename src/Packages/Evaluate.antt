-- ===== src/Packages/Evaluate.antt =====
-- src/reader/packages.ts: a group's package, from its deliveries.
use compact_multi_part_event.Prelude.{
  ℕ, ◌+◌, ◌-◌, ◌*◌, compare, Option, none, some, List, [], ◌∷◌, ◌++◌, map, Text, Bytes, text,
  decimal, if◌then◌else◌, ◌==◌, text_eq, ℕ_eq, length, drop, Dictionary, lookup, store, sort,
}
use compact_multi_part_event.Bytes.{bytes_equal, compare_code_units}
use compact_multi_part_event.Event.{name_length, event_length, event_name_text, overwrite, zeros}
use compact_multi_part_event.Packages.Types.{accepted, rejected, Package, Delivery, Group}

-- `set.add(issue)`.
unfoldable pub add_issue : Text → List Text → List Text
add_issue issue [] = issue ∷ []
add_issue issue (i ∷ issues) = if i == issue then i ∷ issues else i ∷ add_issue issue issues

pub record Survey : Type 0 where
  pub issues : List Text
  pub by_position : Dictionary ℕ Bytes

unfoldable pub malformed_issue : ℕ → Option Text → Text
malformed_issue position malformed =
    text "position "
    ++ decimal position
    ++ text ": "
    ++ elim malformed [ none ↦ text "malformed" | some message ↦ message ]

unfoldable pub conflict_issue : ℕ → Text
conflict_issue position =
    text "position " ++ decimal position ++ text " was delivered with two contents"

abbrev pub note : Text → Survey → Survey
note issue s = record s { issues = add_issue issue s.issues }

-- A delivery whose value has been restored.
unfoldable pub survey_value : ℕ → Bytes → Survey → Survey
survey_value position value s = elim (lookup position s.by_position) [
  | none ↦ record s { by_position = store position value s.by_position }
  | some seen ↦ if bytes_equal seen value then s else note (conflict_issue position) s
]

-- The loop body of `evaluate`.
unfoldable pub survey_delivery : Delivery → Survey → Survey
survey_delivery delivery s = elim delivery.malformed [
  | some message ↦ note (malformed_issue delivery.position (some message)) s
  | none ↦ elim delivery.value [
    | none ↦ note (malformed_issue delivery.position none) s
    | some value ↦ survey_value delivery.position value s
  ]
]

unfoldable pub survey : List Delivery → Survey → Survey
survey [] s = s
survey (delivery ∷ deliveries) s = survey deliveries (survey_delivery delivery s)

abbrev pub no_survey : Survey
no_survey = record { issues = []; by_position = [] }

abbrev pub value_or_zeros : Option Bytes → Bytes
value_or_zeros none = zeros event_length
value_or_zeros (some value) = value

unfoldable pub part_at : Dictionary ℕ Bytes → ℕ → Bytes
part_at by_position position = drop name_length (value_or_zeros (lookup position by_position))

-- `parts.forEach((part, index) => payload.set(part, index * part.byteLength))`.
unfoldable pub fill_payload : Bytes → ℕ → List Bytes → Bytes
fill_payload payload index [] = payload
fill_payload payload index (part ∷ parts) =
    fill_payload (overwrite payload (index * length part) part) (index + 1) parts

unfoldable pub merge_parts : List Bytes → Bytes
merge_parts parts = fill_payload (zeros (length parts * (event_length - name_length))) 0 parts

-- The package of a group whose deliveries have been surveyed.
unfoldable pub package_of : Group → Survey → Package
package_of group s =
    let positions = sort compare (map (λ entry. entry.0) s.by_position) in
    let parts = map (part_at s.by_position) positions in
    elim s.issues [
      | [] ↦ record {
        scope = group.scope;
        name_text = event_name_text group.scope.name;
        status = accepted;
        positions = positions;
        parts = parts;
        payload = some (merge_parts parts);
        deliveries = length group.deliveries;
        issues = [];
      }
      | issue ∷ issues ↦ record {
        scope = group.scope;
        name_text = event_name_text group.scope.name;
        status = rejected;
        positions = positions;
        parts = parts;
        payload = none;
        deliveries = length group.deliveries;
        issues = sort compare_code_units (issue ∷ issues);
      }
    ]

unfoldable pub evaluate : Group → Package
evaluate group = package_of group (survey group.deliveries no_survey)
