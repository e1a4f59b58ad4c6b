-- ===== src/Packages/Grouping.antt =====
-- The groups that the loop of `readPackages` in src/reader/packages.ts collects.
use compact_multi_part_event.Prelude.{
  ℕ, ◌+◌, ◌≤◌, ◌<◌, ◌≡◌, sym, ap, ◌∙◌, subst, Option, none, some, List, [], ◌∷◌, ◌++◌, append_assoc,
  append-nil, Text, Bytes, ltb, ◌==◌, text_eq, length, length-append, Dictionary, lookup, store,
  lookup-store, ok, guard-eq-ok, >>=-eq-ok, ok_injective, Bool-cases, Option-cases, inl, inr,
  none_ne_some, arith,
}
use compact_multi_part_event.Packages.{
  PartEvent, Group, Names, Reading, scope_of, group_key, delivery_of, name_of, candidates_for,
  group_for, deliver, check_event, read_event, read_events,
}
use compact_multi_part_event.Packages.Stores.{
  delivered, delivery_of-delivered, deliveries_or_none, AreGroups, store-AreGroups, lookup-key,
  count_deliveries, count_deliveries-store, store_bounded, snoc_ne_nil, added_under,
  deliveries_under,
}

-- What the loop keeps: sound groups, no more than are admitted.
pub record IsKept (most : ℕ) (reading : Reading) : Type 0 where
  pub groups : AreGroups reading.groups
  pub bounded : length reading.groups ≤ most

module _ (names : Names) (network : Option Text) (most : ℕ) where
  -- What one event does to a reading.
  record IsRead (event : PartEvent) (before after : Reading) : Type 0 where
    kept : IsKept most before → IsKept most after
    deliveries :
        (k : Text)
        → deliveries_or_none (lookup k after.groups)
          ≡ deliveries_or_none (lookup k before.groups) ++ added_under names network k event
    counted :
        after.ignored + count_deliveries after.groups
        ≡ before.ignored + count_deliveries before.groups + 1

  group_for-eq-ok :
      (groups : Dictionary Text Group) (event : PartEvent) (name : Bytes) (group : Group)
      → group_for most groups event name ≡ ok group
      → AreGroups groups
      → (group_key group.scope ≡ group_key (scope_of event name))
        × (group.deliveries ≡ deliveries_or_none (lookup (group_key (scope_of event name)) groups))
        × (lookup (group_key (scope_of event name)) groups ≡ none → length groups < most)
  unfolding group_for
  group_for-eq-ok groups event name group e h =
      elim (Option-cases (lookup (group_key (scope_of event name)) groups)) [
        | inr (found, there) ↦
            let same : found ≡ group = ok_injective (rw (group_for, there) at e) in
            (
              ap (λ g. group_key g.scope) (sym same)
                  ∙ lookup-key (group_key (scope_of event name)) groups found there h,
              rw there (ap (λ g. g.deliveries) (sym same)),
              λ missing. absurd (none_ne_some (sym missing ∙ there)),
            )
        | inl missing ↦
            let (room, made) =
              guard-eq-ok (ltb (length groups) most) _ _ (rw (group_for, missing) at e) in
            let same : (record { scope = scope_of event name; deliveries = [] }) ≡ group =
              ok_injective made in
            (
              ap (λ g. group_key g.scope) (sym same),
              rw missing (ap (λ g. g.deliveries) (sym same)),
              λ _. ground arith,
            )
      ]

  deliver-IsRead :
      (event : PartEvent) (name : Bytes) (before after : Reading)
      → name_of (candidates_for names network event) event.value ≡ some name
      → AreGroups before.groups
      → deliver most event name before ≡ ok after
      → IsRead event before after
  unfolding deliver
  deliver-IsRead event name before after named h e =
      let key = group_key (scope_of event name) in
      let (group, e1, e2) = >>=-eq-ok (group_for most before.groups event name) _ e in
      let (delivery, e3, e4) = >>=-eq-ok (delivery_of event) _ e2 in
      let same : delivered event ≡ delivery =
        ok_injective (sym (delivery_of-delivered event) ∙ e3) in
      let (keyed, old, fresh) = group_for-eq-ok before.groups event name group e1 h in
      let group' : Group = record group { deliveries = group.deliveries ++ delivery ∷ [] } in
      let stored : store key group' before.groups ≡ after.groups =
        ap (λ r. r.groups) (ok_injective e4) in
      let ignored : before.ignored ≡ after.ignored = ap (λ r. r.ignored) (ok_injective e4) in
      record {
        kept = λ k. record {
          groups = subst AreGroups stored (
              store-AreGroups key group' before.groups keyed (snoc_ne_nil group.deliveries delivery)
                k.groups);
          bounded =
              subst (λ gs. length gs ≤ most) stored
                (store_bounded key group' before.groups most k.bounded fresh);
        };
        deliveries = λ k. elim (Bool-cases (key == k)) [
          | inl here ↦
              let at : key ≡ k = (text_eq.beq_iff key k).0 here in
              rw (← stored, lookup-store key k group' before.groups, added_under, named, here)
                (ap (λ ds. ds ++ delivery ∷ [])
                    (old ∙ ap (λ j. deliveries_or_none (lookup j before.groups)) at)
                  ∙ ap (λ d. deliveries_or_none (lookup k before.groups) ++ d ∷ []) (sym same))
          | inr there ↦
              rw (← stored, lookup-store key k group' before.groups, added_under, named, there)
                (sym (append-nil (deliveries_or_none (lookup k before.groups))))
        ];
        counted = omega (
          arith,
          count_deliveries-store key group' before.groups,
          length-append group.deliveries (delivery ∷ []),
          ap length old,
          ap count_deliveries stored,
          ignored,
        );
      }

  read_event-IsRead :
      (index : ℕ) (event : PartEvent) (before after : Reading)
      → AreGroups before.groups
      → read_event names network most index event before ≡ ok after
      → IsRead event before after
  unfolding read_event
  read_event-IsRead index event before after h e =
      let (_, e1, e2) = >>=-eq-ok (check_event event index) _ e in
      elim (Option-cases (name_of (candidates_for names network event) event.value)) [
        | inr (name, named) ↦ deliver-IsRead event name before after named h (rw named at e2)
        | inl other ↦
            let same : record before { ignored = before.ignored + 1 } ≡ after =
              ok_injective (rw other at e2) in
            let kept : before.groups ≡ after.groups = ap (λ r. r.groups) same in
            let more : before.ignored + 1 ≡ after.ignored = ap (λ r. r.ignored) same in
            record {
              kept = λ k. record {
                groups = subst AreGroups kept k.groups;
                bounded = subst (λ gs. length gs ≤ most) kept k.bounded;
              };
              deliveries = λ k.
                  rw (← kept, added_under, other)
                    (sym (append-nil (deliveries_or_none (lookup k before.groups))));
              counted = omega (arith, ap count_deliveries kept);
            }
      ]

  -- What the whole loop does to a reading.
  pub record IsGrouped (events : List PartEvent) (before after : Reading) : Type 0 where
    pub kept : IsKept most after
    pub deliveries :
        (k : Text)
        → deliveries_or_none (lookup k after.groups)
          ≡ deliveries_or_none (lookup k before.groups) ++ deliveries_under names network k events
    pub counted :
        after.ignored + count_deliveries after.groups
        ≡ before.ignored + count_deliveries before.groups + length events

  pub read_events-IsGrouped :
      (index : ℕ) (events : List PartEvent) (before after : Reading)
      → IsKept most before
      → read_events names network most index events before ≡ ok after
      → IsGrouped events before after
  unfolding read_events
  read_events-IsGrouped index [] before after k e =
      subst (λ r. IsGrouped [] before r) (ok_injective e)
        (record {
          kept = k;
          deliveries = λ key. sym (append-nil (deliveries_or_none (lookup key before.groups)));
          counted = omega arith;
        })
  read_events-IsGrouped index (event ∷ events) before after k e =
      let (middle, e1, e2) = >>=-eq-ok (read_event names network most index event before) _ e in
      let step = read_event-IsRead index event before middle k.groups e1 in
      let rest = read_events-IsGrouped (index + 1) events middle after (step.kept k) e2 in
      record {
        kept = rest.kept;
        deliveries = λ key.
            rest.deliveries key
            ∙ ap (λ ds. ds ++ deliveries_under names network key events) (step.deliveries key)
            ∙ append_assoc (deliveries_or_none (lookup key before.groups))
                (added_under names network key event) (deliveries_under names network key events);
        counted = omega (arith, rest.counted, step.counted);
      }
