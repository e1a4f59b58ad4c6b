-- ===== src/Guard/Calls.antt =====
-- The calls of a package's intent under the checks of src/publisher/guard.ts.
use compact_multi_part_event.Prelude.{
  ℕ, ◌+◌, ◌≡◌, refl, ap, ◌∙◌, true, not, Option, none, some, List, [], ◌∷◌, ◌++◌, Text, Bytes, ℕ_eq,
  text_eq, ◌==◌, length, list_eq_iff, ok, guard-eq-ok, guard_last, throw_ne_ok, >>=-eq-ok, arith,
}
use compact_multi_part_event.Bytes.Order.{bytes_equal_iff}
use compact_multi_part_event.Event.{name_length}
use compact_multi_part_event.Event.Widths.{event_value_full}
use compact_multi_part_event.Guard.{
  ExpectedPackage, only_value, emits_part, logged_value, unchanged, check_transcript, check_call,
  check_action, check_actions, frozen_head, frozen_rest,
}
use compact_multi_part_event.Guard.Spec.{IsEmission, AreEmissions}
use compact_multi_part_event.Ledger.{ContractCall, Action, contract_call, other_action, Ledger}
use compact_multi_part_event.Parts.{part_length}
use compact_multi_part_event.Transaction.{
  decoded, malformed, misc_event_type_code, entry_point_text, decode_misc_value, LoggedEvent,
  logged_events, is_present, Decoded,
}

-- The only event's value.
record IsOnly (events : List LoggedEvent) (value : Bytes) : Type 0 where
  event : LoggedEvent
  single : events ≡ event ∷ []
  misc : event.type_code ≡ misc_event_type_code
  decodes : decode_misc_value event.content ≡ decoded value

only_value-eq-ok :
    (stage : Text) (index : ℕ) (events : List LoggedEvent) (value : Bytes)
    → only_value stage index events ≡ ok value
    → IsOnly events value
unfolding only_value
only_value-eq-ok stage index [] value e = cc
only_value-eq-ok stage index (event ∷ event' ∷ events) value e = cc
only_value-eq-ok stage index (event ∷ []) value e = record {
  event = event;
  single = refl;
  misc = ground arith;
  decodes = ground arith;
}

emits_part-eq-ok :
    (name : Bytes) (part : Option Bytes) (value : Bytes)
    → length name ≡ name_length
    → emits_part name part value ≡ ok true
    → (p : Bytes) × (part ≡ some p) × (length p ≡ part_length) × (value ≡ name ++ p)
unfolding emits_part
emits_part-eq-ok name none value w e = absurd (cc)
emits_part-eq-ok name (some p) value w e =
    let width : length p ≡ part_length = ground arith in
    let full = event_value_full name p w width in
    (p, refl, width, ground (arith, full, bytes_equal_iff value (name ++ p)))

module _ (L : Ledger) where
  open L use {Transcript, program, Tx, intents, fallible_offers}

  -- A transcript that passes: what it logs.
  record IsPassing (expected : ExpectedPackage) (part : Option Bytes)
      (reference : Option (Option Transcript)) (transcript : Transcript) : Type 0 where
    event : LoggedEvent
    logs : logged_events (program transcript) ≡ decoded (event ∷ [])
    misc : event.type_code ≡ misc_event_type_code
    payload : Bytes
    is_payload : part ≡ some payload
    width : length payload ≡ part_length
    value : decode_misc_value event.content ≡ decoded (expected.name ++ payload)
    kept : unchanged L reference transcript ≡ true

  logged_value-IsOnly :
      (stage : Text) (index : ℕ) (transcript : Transcript) (value : Bytes)
      → logged_value L stage index transcript ≡ ok value
      → (events : List LoggedEvent) × (logged_events (program transcript) ≡ decoded events)
        × IsOnly events value
  unfolding logged_value
  logged_value-IsOnly stage index transcript value e =
      cases (logged_events (program transcript)) refl
    where
      cases :
          (r : Decoded (List LoggedEvent))
          → logged_events (program transcript) ≡ r
          → (events : List LoggedEvent) × (logged_events (program transcript) ≡ decoded events)
            × IsOnly events value
      cases (malformed m) h = absurd (ground arith)
      cases (decoded events) h =
          (events, h, only_value-eq-ok stage index events value (rw (h, logged_value) at e))

  check_transcript-IsPassing :
      (stage : Text) (expected : ExpectedPackage) (index : ℕ) (part : Option Bytes)
      (reference : Option (Option Transcript)) (transcript : Transcript)
      → length expected.name ≡ name_length
      → check_transcript L stage expected index part reference transcript ≡ ok tt
      → IsPassing expected part reference transcript
  unfolding check_transcript
  check_transcript-IsPassing stage expected index part reference transcript w e =
      let (value, logged, e1) = >>=-eq-ok (logged_value L stage index transcript) _ e in
      let (emitted, is_emitted, e2) = >>=-eq-ok (emits_part expected.name part value) _ e1 in
      let (e3, e4) = guard-eq-ok emitted _ _ e2 in
      let kept = guard_last (unchanged L reference transcript) _ e4 in
      let (events, logs, only) = logged_value-IsOnly stage index transcript value logged in
      let (payload, is_payload, width, same) =
        emits_part-eq-ok expected.name part value w (is_emitted ∙ ap ok e3) in
      record {
        event = only.event;
        logs = logs ∙ ap decoded only.single;
        misc = only.misc;
        payload = payload;
        is_payload = is_payload;
        width = width;
        value = only.decodes ∙ ap decoded same;
        kept = kept;
      }

  module _ (stage : Text) (expected : ExpectedPackage)
      (w : length expected.name ≡ name_length) where
    check_call-IsEmission :
        (index : ℕ) (part : Bytes) (reference : Option (Option Transcript))
        (call : ContractCall Transcript)
        → check_call L stage expected index (some part) reference call ≡ ok tt
        → IsEmission L expected part reference (contract_call call)
    unfolding check_call
    check_call-IsEmission index part reference call e =
        let (address, e1) = guard-eq-ok (call.address == expected.contract) _ _ e in
        let (circuit, e2) =
          guard-eq-ok (entry_point_text call.entry_point == expected.entry_point) _ _ e1 in
        let (no_fallible, e3) = guard-eq-ok (not (is_present call.fallible_transcript)) _ _ e2 in
        cases address circuit no_fallible call.guaranteed_transcript refl e
      where
        absent : (o : Option Transcript) → not (is_present o) ≡ true → o ≡ none
        absent none n = refl
        absent (some t) n = cc

        cases :
            (call.address == expected.contract) ≡ true
            → (entry_point_text call.entry_point == expected.entry_point) ≡ true
            → not (is_present call.fallible_transcript) ≡ true
            → (t : Option Transcript) → call.guaranteed_transcript ≡ t
            → check_call L stage expected index (some part) reference call ≡ ok tt
            → IsEmission L expected part reference (contract_call call)
        cases a c n none h e' = absurd (throw_ne_ok _ tt (rw (a, c, n, h) at e'))
        cases a c n (some transcript) h e' =
            let p =
              check_transcript-IsPassing stage expected index (some part) reference transcript w
                (rw (a, c, n, h) at e') in
            let same : p.payload ≡ part = cc (p.is_payload) in
            record {
              call = call;
              is_call = refl;
              address = (list_eq_iff call.address expected.contract).0 a;
              circuit = (list_eq_iff (entry_point_text call.entry_point) expected.entry_point).0 c;
              no_fallible = absent call.fallible_transcript n;
              transcript = transcript;
              guaranteed = h;
              event = p.event;
              logs = p.logs;
              misc = p.misc;
              width = rw same at p.width;
              value = rw same at p.value;
              kept = p.kept;
            }

    check_action-IsEmission :
        (index : ℕ) (part : Bytes) (reference : Option (Option Transcript))
        (action : Action Transcript)
        → check_action L stage expected index (some part) reference action ≡ ok tt
        → IsEmission L expected part reference action
    unfolding check_action
    check_action-IsEmission index part reference other_action e = absurd (throw_ne_ok _ tt e)
    check_action-IsEmission index part reference (contract_call call) e =
        check_call-IsEmission index part reference call e

    pub check_actions-AreEmissions :
        (index : ℕ) (parts : List Bytes) (frozen : Option (List Transcript))
        (actions : List (Action Transcript))
        → length actions ≡ length parts
        → check_actions L stage expected index parts frozen actions ≡ ok tt
        → AreEmissions L expected parts frozen actions
    unfolding check_actions
    check_actions-AreEmissions index [] frozen [] l e = tt
    check_actions-AreEmissions index [] frozen (action ∷ actions) l e = absurd (omega arith)
    check_actions-AreEmissions index (part ∷ parts) frozen [] l e = absurd (omega arith)
    check_actions-AreEmissions index (part ∷ parts) frozen (action ∷ actions) l e =
        let (_, here, later) =
          >>=-eq-ok (check_action L stage expected index (some part) (frozen_head L frozen) action)
            _ e in
        (
          check_action-IsEmission index part (frozen_head L frozen) action here,
          check_actions-AreEmissions (index + 1) parts (frozen_rest L frozen) actions (omega arith)
              later,
        )
