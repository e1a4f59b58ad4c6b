-- ===== src/Packages/Stores.antt =====
-- The map of groups of `readPackages` in src/reader/packages.ts, when a delivery is stored in it.
use compact_multi_part_event.Prelude.{
  ℕ, ◌+◌, ◌-◌, ◌≤◌, ◌<◌, ◌≡◌, ◌≢◌, refl, sym, ap, ◌∙◌, true, false, Option, none, some, List, [],
  ◌∷◌, ◌++◌, Text, leb, if◌then◌else◌, ◌==◌, text_eq, length, Dictionary, lookup, store, All,
  range_error, ok, throw, Bool-cases, Option-cases, inl, inr, some_injective, arith,
}
use compact_multi_part_event.Event.{event_length, zeros, too_long, restore_event_value}
use compact_multi_part_event.Event.Widths.{overwrite-zeros}
use compact_multi_part_event.Packages.{
  PartEvent, Delivery, Group, Names, scope_of, group_key, delivery_of, name_of, candidates_for,
}

true_ne_false : ¬ (true ≡ false)
true_ne_false h = cc

-- The delivery of an event: its value, padded with zeros, or why it is malformed.
abbrev pub delivered : PartEvent → Delivery
delivered event =
    if leb (length event.value) event_length
    then record {
      position = event.position;
      value = some (event.value ++ zeros (event_length - length event.value));
      malformed = none;
    }
    else record {
      position = event.position;
      value = none;
      malformed = some (too_long (length event.value));
    }

pub delivery_of-delivered : (event : PartEvent) → delivery_of event ≡ ok (delivered event)
unfolding delivery_of restore_event_value
delivery_of-delivered event = elim (Bool-cases (leb (length event.value) event_length)) [
  | inl fits ↦
      let padded = overwrite-zeros event_length event.value (ground arith) in
      let restored : restore_event_value event.value
          ≡ ok (event.value ++ zeros (event_length - length event.value)) =
        rw (fits, restore_event_value) (ap ok padded) in
      rw (restored, delivery_of, fits) refl
  | inr long ↦
      let refused : restore_event_value event.value
          ≡ throw (range_error (too_long (length event.value))) =
        rw (long, restore_event_value) refl in
      rw (refused, delivery_of, long) refl
]

-- The deliveries of a group that may be missing.
abbrev pub deliveries_or_none : Option Group → List Delivery
deliveries_or_none none = []
deliveries_or_none (some group) = group.deliveries

-- A group stands under the key of its scope, has a delivery, and is the only one with its key.
abbrev pub AreGroups : Dictionary Text Group → Type 0
AreGroups [] = Unit
AreGroups ((k, g) ∷ groups) =
    (group_key g.scope ≡ k)
    × (g.deliveries ≢ [])
    × All (λ (entry : Text × Group). entry.0 ≢ k) groups
    × AreGroups groups

All-store :
    (P : Text → Type 0) (k : Text) (g : Group) (groups : Dictionary Text Group)
    → P k
    → All (λ (entry : Text × Group). P entry.0) groups
    → All (λ (entry : Text × Group). P entry.0) (store k g groups)
All-store P k g [] p h = (p, tt)
All-store P k g ((j, w) ∷ groups) p (q, h) = elim (Bool-cases (j == k)) [
  | inl same ↦ rw same (q, h)
  | inr other ↦ rw other (q, All-store P k g groups p h)
]

pub store-AreGroups :
    (k : Text) (g : Group) (groups : Dictionary Text Group)
    → group_key g.scope ≡ k
    → g.deliveries ≢ []
    → AreGroups groups
    → AreGroups (store k g groups)
store-AreGroups k g [] key some_delivery h = (key, some_delivery, tt, tt)
store-AreGroups k g ((j, w) ∷ groups) key some_delivery (at, d, apart, h) =
    elim (Bool-cases (j == k)) [
      | inl same ↦ rw same (key ∙ sym ((text_eq.beq_iff j k).0 same), some_delivery, apart, h)
      | inr other ↦ rw other (
        at,
        d,
        All-store (λ i. i ≢ j) k g groups
            (λ e. absurd (true_ne_false (sym ((text_eq.beq_iff j k).1 (sym e)) ∙ other))) apart,
        store-AreGroups k g groups key some_delivery h,
      )
    ]

pub lookup-key :
    (k : Text) (groups : Dictionary Text Group) (g : Group)
    → lookup k groups ≡ some g
    → AreGroups groups
    → group_key g.scope ≡ k
lookup-key k [] g e h = cc
lookup-key k ((j, w) ∷ groups) g e (at, d, apart, h) = elim (Bool-cases (j == k)) [
  | inl same ↦
      let found : w ≡ g = some_injective (rw (lookup, same) at e) in
      ap (λ g. group_key g.scope) (sym found) ∙ at ∙ (text_eq.beq_iff j k).0 same
  | inr other ↦ lookup-key k groups g (rw (lookup, other) at e) h
]

-- The number of deliveries in all groups.
abbrev pub count_deliveries : Dictionary Text Group → ℕ
count_deliveries [] = 0
count_deliveries ((k, g) ∷ groups) = length g.deliveries + count_deliveries groups

pub count_deliveries-store :
    (k : Text) (g : Group) (groups : Dictionary Text Group)
    → count_deliveries (store k g groups) + length (deliveries_or_none (lookup k groups))
      ≡ count_deliveries groups + length g.deliveries
count_deliveries-store k g [] = omega arith
count_deliveries-store k g ((j, w) ∷ groups) = ground (arith, count_deliveries-store k g groups)

length-store :
    (k : Text) (g : Group) (groups : Dictionary Text Group)
    → length (store k g groups)
      ≡ (elim (lookup k groups) as (λ _. ℕ) [ none ↦ length groups + 1 | some _ ↦ length groups ])
length-store k g [] = omega arith
length-store k g ((j, w) ∷ groups) = ground (arith, length-store k g groups)

pub store_bounded :
    (k : Text) (g : Group) (groups : Dictionary Text Group) (most : ℕ)
    → length groups ≤ most
    → (lookup k groups ≡ none → length groups < most)
    → length (store k g groups) ≤ most
store_bounded k g groups most h fresh = elim (Option-cases (lookup k groups)) [
  | inl missing ↦
      let more = fresh missing in
      let count : length (store k g groups) ≡ length groups + 1 =
        length-store k g groups ∙ rw missing refl in
      omega arith
  | inr (w, there) ↦
      let count : length (store k g groups) ≡ length groups =
        length-store k g groups ∙ rw there refl in
      omega arith
]

pub snoc_ne_nil : (ds : List Delivery) (d : Delivery) → ds ++ d ∷ [] ≢ []
snoc_ne_nil [] d e = cc
snoc_ne_nil (c ∷ ds) d e = cc

-- The deliveries that an event adds under a key: one, if the event is named and has this key.
abbrev pub added_under : Names → Option Text → Text → PartEvent → List Delivery
added_under names network k event =
    elim (name_of (candidates_for names network event) event.value) [
      | none ↦ []
      | some name ↦ if group_key (scope_of event name) == k then delivered event ∷ [] else []
    ]

-- The deliveries of the events with a key, in the order of the events.
abbrev pub deliveries_under : Names → Option Text → Text → List PartEvent → List Delivery
deliveries_under names network k [] = []
deliveries_under names network k (event ∷ events) =
    added_under names network k event ++ deliveries_under names network k events
