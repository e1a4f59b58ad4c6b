-- ===== src/Packages/Types.antt =====
-- src/reader/packages.ts: the records of the reader's input and output, and their validation.
-- Segments, positions and limits are natural numbers.
use compact_multi_part_event.Prelude.{
  ℕ, Bool, ◌&&◌, ◌||◌, not, Option, List, ◌++◌, Text, Bytes, text, decimal, leb, ltb, nat_eq,
  length, every, Error, range_error, Result, guard, ◌>>◌,
}
use compact_multi_part_event.Event.{Name}

pub record OptIn : Type 0 where
  pub contract : Text
  pub name : Name

pub record PartEvent : Type 0 where
  pub network : Text
  pub contract : Text
  pub transaction_hash : Text
  pub segment : ℕ
  pub position : ℕ
  pub value : Bytes

pub record ReaderLimits : Type 0 where
  pub max_events : ℕ
  pub max_packages : ℕ

abbrev pub default_reader_limits : ReaderLimits
default_reader_limits = record { max_events = 4096; max_packages = 1024 }

pub record ReadOptions : Type 0 where
  pub opt_ins : List OptIn
  pub network : Option Text
  pub limits : Option ReaderLimits

pub data Status : Type 0 where
  accepted rejected : Status

-- What identifies a package.
pub record Scope : Type 0 where
  pub network : Text
  pub contract : Text
  pub name : Bytes
  pub transaction_hash : Text
  pub segment : ℕ

pub record Package : Type 0 where
  pub scope : Scope
  pub name_text : Text
  pub status : Status
  pub positions : List ℕ
  pub parts : List Bytes
  pub payload : Option Bytes
  pub deliveries : ℕ
  pub issues : List Text

pub record ReadOutput : Type 0 where
  pub packages : List Package
  pub ignored : ℕ

pub record Delivery : Type 0 where
  pub position : ℕ
  pub value : Option Bytes
  pub malformed : Option Text

pub record Group : Type 0 where
  pub scope : Scope
  pub deliveries : List Delivery

-- `/^[0-9a-f]{64}$/`.
abbrev pub is_lower_hex : ℕ → Bool
is_lower_hex c = (leb 48 c && leb c 57) || (leb 97 c && leb c 102)

unfoldable pub is_address : Text → Bool
is_address s = nat_eq (length s) 64 && every is_lower_hex s

-- `Number.MAX_SAFE_INTEGER`.
abbrev pub max_safe_integer : ℕ
max_safe_integer = 9007199254740991

unfoldable pub limit_error : Text → Error
limit_error key = range_error (key ++ text " must be a positive safe integer")

abbrev pub is_limit : ℕ → Bool
is_limit value = leb value max_safe_integer && not (ltb value 1)

unfoldable pub validate_reader_limits : ReaderLimits → Result (Unit {0})
validate_reader_limits limits = do
  guard (is_limit limits.max_events) (limit_error (text "maxEvents"))
  guard (is_limit limits.max_packages) (limit_error (text "maxPackages"))

unfoldable pub where_text : ℕ → Text
where_text index = text "event " ++ decimal index

unfoldable pub segment_error : ℕ → ℕ → Error
segment_error index segment =
    range_error
      (where_text index ++ text ": segment " ++ decimal segment ++ text " is not in 1..65535")

unfoldable pub check_event : PartEvent → ℕ → Result (Unit {0})
check_event event index = do
  guard (not (nat_eq (length event.network) 0 || nat_eq (length event.transaction_hash) 0))
      (range_error (where_text index ++ text ": empty network or transaction hash"))
  guard (not (ltb event.segment 1 || ltb 65535 event.segment)) (segment_error index event.segment)
  guard (leb event.position max_safe_integer)
      (range_error (where_text index ++ text ": position must be a non-negative safe integer"))
