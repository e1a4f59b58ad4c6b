-- ===== src/Packages.antt =====
-- src/reader/packages.ts: the packages of the configured (contract, N) pairs, from events.
mod Types
mod Groups
mod Evaluate
pub mod Keys
pub mod Payload
pub mod Survey
pub mod Positions
pub mod Accepted
pub mod Redelivery
pub mod Stores
pub mod Grouping
pub mod Output
unfoldable pub use Types.*
unfoldable pub use Groups.*
unfoldable pub use Evaluate.*
use compact_multi_part_event.Prelude.{
  ℕ, zero, suc, ◌+◌, compare, Ordering, Bool, true, false, ◌&&◌, ◌||◌, not, Option, none, some,
  List, [], ◌∷◌, ◌++◌, map, Text, Bytes, text, decimal, ltb, leb, nat_eq, if◌then◌else◌, ◌==◌,
  text_eq, ℕ_eq, length, take, every, find, lookup, store, Dictionary, sort, or_else, Error,
  range_error, Result, ok, throw, guard, ◌>>=◌, ◌>>◌,
}
use compact_multi_part_event.Bytes.{bytes_equal, bytes_to_hex, compare_code_units}
use compact_multi_part_event.Event.{name_length, event_name, restore_event_value, overwrite, zeros}

abbrev pub Names : Type 0
Names = Dictionary Text (List Bytes)

abbrev pub candidates_or_empty : Option (List Bytes) → List Bytes
candidates_or_empty none = []
candidates_or_empty (some list) = list

unfoldable pub address_error : Text → Error
address_error contract =
    range_error (text "opt-in contract '" ++ contract ++ text "' is not 64 lowercase hex")

-- The loop over `options.optIns`.
unfoldable pub collect_names : List OptIn → Names → Result Names
collect_names [] names = ok names
collect_names (opt_in ∷ opt_ins) names = do
  guard (is_address opt_in.contract) (address_error opt_in.contract)
  name ← event_name opt_in.name
  let list = candidates_or_empty (lookup opt_in.contract names)
  collect_names opt_ins (store opt_in.contract (list ++ name ∷ []) names)

pub record Reading : Type 0 where
  pub groups : Dictionary Text Group
  pub ignored : ℕ

-- `restoreEventValue` in its `try`: what is pushed on the group's deliveries.
unfoldable pub delivery_of : PartEvent → Result Delivery
delivery_of event = elim (restore_event_value event.value) [
  | ok value ↦ ok (record { position = event.position; value = some value; malformed = none })
  | throw (range_error message) ↦
      ok (record { position = event.position; value = none; malformed = some message })
  | throw e ↦ throw e
]

unfoldable pub name_of : List Bytes → Bytes → Option Bytes
name_of candidates value =
    let head = overwrite (zeros name_length) 0 (take name_length value) in
    find (λ candidate. bytes_equal candidate head) candidates

-- The names that the event's contract and network admit.
unfoldable pub candidates_for : Names → Option Text → PartEvent → List Bytes
candidates_for names network event = elim network [
  | none ↦ candidates_or_empty (lookup event.contract names)
  | some n ↦ if event.network == n then candidates_or_empty (lookup event.contract names) else []
]

-- The group of the key, or a new one if `maxPackages` admits it.
unfoldable pub group_for : ℕ → Dictionary Text Group → PartEvent → Bytes → Result Group
group_for max_packages groups event name = elim (lookup (group_key (scope_of event name)) groups) [
  | some group ↦ ok group
  | none ↦ do
    guard (ltb (length groups) max_packages)
        (range_error (text "package count exceeds maxPackages " ++ decimal max_packages))
    ok (record { scope = scope_of event name; deliveries = [] })
]

unfoldable pub deliver : ℕ → PartEvent → Bytes → Reading → Result Reading
deliver max_packages event name reading = do
  group ← group_for max_packages reading.groups event name
  delivery ← delivery_of event
  ok (record reading {
    groups =
        store (group_key (scope_of event name))
          (record group { deliveries = group.deliveries ++ delivery ∷ [] }) reading.groups;
  })

-- The callback of `events.forEach`.
unfoldable pub read_event : Names → Option Text → ℕ → ℕ → PartEvent → Reading → Result Reading
read_event names network max_packages index event reading = do
  check_event event index
  elim (name_of (candidates_for names network event) event.value) [
    | none ↦ ok (record reading { ignored = reading.ignored + 1 })
    | some name ↦ deliver max_packages event name reading
  ]

unfoldable pub read_events : Names → Option Text → ℕ → ℕ → List PartEvent → Reading → Result Reading
read_events names network max_packages index [] reading = ok reading
read_events names network max_packages index (event ∷ events) reading = do
  reading' ← read_event names network max_packages index event reading
  read_events names network max_packages (index + 1) events reading'

-- The comparator of the groups.
unfoldable pub compare_groups : Group → Group → Ordering
compare_groups left right = or_else (compare_code_units left.scope.network right.scope.network) (
    or_else (compare_code_units left.scope.contract right.scope.contract) (
      or_else (compare_code_units (bytes_to_hex left.scope.name) (bytes_to_hex right.scope.name)) (
        or_else (compare_code_units left.scope.transaction_hash right.scope.transaction_hash)
          (compare left.scope.segment right.scope.segment))))

abbrev pub limits_or_default : Option ReaderLimits → ReaderLimits
limits_or_default none = default_reader_limits
limits_or_default (some limits) = limits

unfoldable pub count_error : ℕ → ℕ → Error
count_error n max_events =
    range_error
      (text "event count " ++ decimal n ++ text " exceeds maxEvents " ++ decimal max_events)

abbrev pub no_groups : Reading
no_groups = record { groups = []; ignored = 0 }

-- The checks of the options and of the number of events; the limits and the names.
unfoldable pub prepare : ℕ → ReadOptions → Result (ReaderLimits × Names)
prepare count options = do
  let limits = limits_or_default options.limits
  validate_reader_limits limits
  guard (not (nat_eq (length options.opt_ins) 0))
      (range_error (text "configure at least one (contract, N)"))
  names ← collect_names options.opt_ins []
  guard (leb count limits.max_events) (count_error count limits.max_events)
  ok (limits, names)

unfoldable pub read_packages : List PartEvent → ReadOptions → Result ReadOutput
read_packages events options = do
  (limits, names) ← prepare (length events) options
  reading ← read_events names options.network limits.max_packages 0 events no_groups
  ok (record {
    packages = map evaluate (sort compare_groups (map (λ entry. entry.1) reading.groups));
    ignored = reading.ignored;
  })
