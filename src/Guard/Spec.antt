-- ===== src/Guard/Spec.antt =====
-- What a package's intent should hold, whatever the checks of src/publisher/guard.ts do.
use compact_multi_part_event.Prelude.{
  ◌≤◌, ◌≡◌, true, false, Option, none, some, List, [], ◌∷◌, ◌++◌, Bytes, lookup, ℕ_eq, length,
}
use compact_multi_part_event.Event.{name_length}
use compact_multi_part_event.Guard.{
  ExpectedPackage, unchanged, frozen_head, frozen_rest, has_segment,
}
use compact_multi_part_event.Ledger.{ContractCall, Action, contract_call, Intent, Ledger}
use compact_multi_part_event.Parts.{part_length}
use compact_multi_part_event.Transaction.{
  decoded, misc_event_type_code, entry_point_text, decode_misc_value, LoggedEvent, logged_events,
}

module _ (L : Ledger) where
  open L use {Transcript, program, Tx, intents, fallible_offers}

  -- A call of the expected circuit that is guaranteed-only and logs one `Misc` event: the name and
  -- this part.
  pub record IsEmission (expected : ExpectedPackage) (part : Bytes)
      (reference : Option (Option Transcript)) (action : Action Transcript) : Type 0 where
    pub call : ContractCall Transcript
    pub is_call : action ≡ contract_call call
    pub address : call.address ≡ expected.contract
    pub circuit : entry_point_text call.entry_point ≡ expected.entry_point
    pub no_fallible : call.fallible_transcript ≡ none
    pub transcript : Transcript
    pub guaranteed : call.guaranteed_transcript ≡ some transcript
    pub event : LoggedEvent
    pub logs : logged_events (program transcript) ≡ decoded (event ∷ [])
    pub misc : event.type_code ≡ misc_event_type_code
    pub width : length part ≡ part_length
    pub value : decode_misc_value event.content ≡ decoded (expected.name ++ part)
    pub kept : unchanged L reference transcript ≡ true

  -- One emission for each part, in order, and no other action.
  abbrev pub AreEmissions :
      ExpectedPackage → List Bytes → Option (List Transcript) → List (Action Transcript) → Type 0
  AreEmissions expected [] frozen [] = Unit
  AreEmissions expected [] frozen (action ∷ actions) = ⊥
  AreEmissions expected (part ∷ parts) frozen [] = ⊥
  AreEmissions expected (part ∷ parts) frozen (action ∷ actions) =
      IsEmission expected part (frozen_head L frozen) action
      × AreEmissions expected parts (frozen_rest L frozen) actions

  pub record IsPackageIntent (tx : Tx) (expected : ExpectedPackage)
      (frozen : Option (List Transcript)) : Type 0 where
    pub some_part : 1 ≤ length expected.parts
    pub name_width : length expected.name ≡ name_length
    pub physical : 1 ≤ expected.segment
    pub in_range : expected.segment ≤ 65535
    pub intent : Intent Transcript
    pub found : lookup expected.segment (intents tx) ≡ some intent
    pub emissions : AreEmissions expected expected.parts frozen intent.actions
    pub no_guaranteed_offer : intent.has_guaranteed_unshielded_offer ≡ false
    pub no_fallible_offer : intent.has_fallible_unshielded_offer ≡ false
    pub no_dust : intent.has_dust_actions ≡ false
    pub no_zswap : has_segment (fallible_offers tx) expected.segment ≡ false
