-- ===== src/Compose/Built/Frozen.antt =====
-- The frozen transcripts of a transaction built by src/publisher/compose.ts.
use compact_multi_part_event.Prelude.{
  ◌≡◌, refl, sym, ap, ◌∙◌, subst, none, some, List, [], ◌∷◌, lookup, inl, inr, Option-cases, ok,
  >>=-eq-ok, ok_injective, ℕ_eq,
}
use compact_multi_part_event.Compose.{actions_at, frozen_action, frozen_actions, frozen_transcripts}
use compact_multi_part_event.Compose.Runtime.{Assembly}
use compact_multi_part_event.Guard.{ExpectedPackage}
use compact_multi_part_event.Guard.Transactions.{AreIntents}
use compact_multi_part_event.Ledger.{
  Action, contract_call, other_action, ContractCall, Intent, Ledger,
}

module _ (L : Ledger) where
  open L use {Transcript, Tx, intents}

  -- The frozen transcripts of an intent are those of its calls, in order.
  abbrev pub AreTranscripts : List (Action Transcript) → List Transcript → Type 0
  AreTranscripts [] [] = Unit
  AreTranscripts (contract_call call ∷ actions) (transcript ∷ transcripts) =
      (call.guaranteed_transcript ≡ some transcript) × AreTranscripts actions transcripts
  AreTranscripts (other_action ∷ actions) (transcript ∷ transcripts) = ⊥
  AreTranscripts (action ∷ actions) [] = ⊥
  AreTranscripts [] (transcript ∷ transcripts) = ⊥

  abbrev pub IsFrozen : Tx → ExpectedPackage → List Transcript → Type 0
  IsFrozen tx pkg transcripts =
      (intent : Intent Transcript) × (lookup pkg.segment (intents tx) ≡ some intent)
      × AreTranscripts intent.actions transcripts

  -- One list of transcripts for each package, in order, of the intent at its segment.
  abbrev pub AreFrozen : Tx → List ExpectedPackage → List (List Transcript) → Type 0
  AreFrozen tx [] [] = Unit
  AreFrozen tx (pkg ∷ packages) (transcripts ∷ frozen) =
      IsFrozen tx pkg transcripts × AreFrozen tx packages frozen
  AreFrozen tx (pkg ∷ packages) [] = ⊥
  AreFrozen tx [] (transcripts ∷ frozen) = ⊥

module _ (L : Ledger) (A : Assembly L) where
  open L use {Transcript, Tx}

  frozen_action-eq-ok :
      (call : ContractCall Transcript) (transcript : Transcript)
      → frozen_action L A (contract_call call) ≡ ok transcript
      → call.guaranteed_transcript ≡ some transcript
  unfolding frozen_action
  frozen_action-eq-ok call transcript e = elim (Option-cases call.guaranteed_transcript) [
    | inl lost ↦ let clash = rw (frozen_action, lost) at e in cc
    | inr (held, is) ↦ is ∙ ap some (ok_injective (rw (frozen_action, is) at e))
  ]

  frozen_actions-AreTranscripts :
      (actions : List (Action Transcript)) (transcripts : List Transcript)
      → frozen_actions L A actions ≡ ok transcripts
      → AreTranscripts L actions transcripts
  unfolding frozen_actions frozen_action
  frozen_actions-AreTranscripts [] transcripts e = subst (AreTranscripts L []) (ok_injective e) tt
  frozen_actions-AreTranscripts (other_action ∷ actions) transcripts e = cc
  frozen_actions-AreTranscripts (contract_call call ∷ actions) transcripts e =
      let (first, e1, e2) = >>=-eq-ok (frozen_action L A (contract_call call)) _ e in
      let (rest, e3, e4) = >>=-eq-ok (frozen_actions L A actions) _ e2 in
      subst (AreTranscripts L (contract_call call ∷ actions)) (ok_injective e4)
        (frozen_action-eq-ok call first e1, frozen_actions-AreTranscripts actions rest e3)

  pub frozen_transcripts-AreFrozen :
      (tx : Tx) (packages : List ExpectedPackage) (frozen : List (List Transcript))
      → AreIntents L tx packages none
      → frozen_transcripts L A tx packages ≡ ok frozen
      → AreFrozen L tx packages frozen
  unfolding frozen_transcripts
  frozen_transcripts-AreFrozen tx [] frozen held e = subst (AreFrozen L tx []) (ok_injective e) tt
  frozen_transcripts-AreFrozen tx (pkg ∷ packages) frozen (is, held) e =
      let (first, e1, e2) = >>=-eq-ok (frozen_actions L A (actions_at L A tx pkg.segment)) _ e in
      let (rest, e3, e4) = >>=-eq-ok (frozen_transcripts L A tx packages) _ e2 in
      let at : actions_at L A tx pkg.segment ≡ is.intent.actions = rw (actions_at, is.found) refl in
      let here : frozen_actions L A is.intent.actions ≡ ok first =
        ap (frozen_actions L A) (sym at) ∙ e1 in
      subst (AreFrozen L tx (pkg ∷ packages)) (ok_injective e4) (
        (is.intent, is.found, frozen_actions-AreTranscripts is.intent.actions first here),
        frozen_transcripts-AreFrozen tx packages rest held e3,
      )
