-- ===== src/Packages/Output.antt =====
-- The groups and the packages that `readPackages` of src/reader/packages.ts returns.
use compact_multi_part_event.Prelude.{
  ℕ, suc, ◌+◌, ◌≤◌, ◌≡◌, ◌≢◌, refl, sym, ap, ◌∙◌, subst, true, false, Ordering, List, [], ◌∷◌, ◌++◌,
  append-nil, map, Text, if◌then◌else◌, ◌==◌, text_eq, length, length-map, Dictionary, lookup,
  insert, sort, IsOrdered, is_gt, sort-IsOrdered, IsLawful, compare-IsLawful, or_else-IsLawful,
  on-IsLawful, All, ok, >>=-eq-ok, ok_injective, Bool-cases, inl, inr, some, arith,
}
use compact_multi_part_event.Bytes.{bytes_to_hex}
use compact_multi_part_event.Bytes.Order.{compare_code_units-IsLawful}
use compact_multi_part_event.Packages.{
  Package, accepted, merge_parts, PartEvent, ReaderLimits, ReadOptions, ReadOutput, Delivery, Group,
  Names, group_key, evaluate, compare_groups, prepare, read_events, no_groups, read_packages,
}
use compact_multi_part_event.Packages.Accepted.{evaluate-merged}
use compact_multi_part_event.Packages.Positions.{Member}
use compact_multi_part_event.Packages.Grouping.{read_events-IsGrouped}
use compact_multi_part_event.Packages.Stores.{
  deliveries_or_none, AreGroups, count_deliveries, deliveries_under,
}

-- The deliveries of the groups with a key.
abbrev pub deliveries_with : Text → List Group → List Delivery
deliveries_with k [] = []
deliveries_with k (g ∷ groups) =
    if group_key g.scope == k
    then g.deliveries ++ deliveries_with k groups
    else deliveries_with k groups

abbrev pub IsApartFrom : Group → Group → Type 0
IsApartFrom g other = group_key other.scope ≢ group_key g.scope

-- Each group has a delivery, and no two have one key.
abbrev pub AreSeparate : List Group → Type 0
AreSeparate [] = Unit
AreSeparate (g ∷ groups) = (g.deliveries ≢ []) × All (IsApartFrom g) groups × AreSeparate groups

-- The number of deliveries in all groups.
abbrev pub total : List Group → ℕ
total [] = 0
total (g ∷ groups) = length g.deliveries + total groups

pub compare_groups-IsLawful : IsLawful compare_groups
unfolding compare_groups
compare_groups-IsLawful =
    or_else-IsLawful _ _ (on-IsLawful (λ (g : Group). g.scope.network) compare_code_units-IsLawful)
      (or_else-IsLawful _ _
        (on-IsLawful (λ (g : Group). g.scope.contract) compare_code_units-IsLawful)
        (or_else-IsLawful _ _
          (on-IsLawful (λ (g : Group). bytes_to_hex g.scope.name) compare_code_units-IsLawful)
          (or_else-IsLawful _ _
            (on-IsLawful (λ (g : Group). g.scope.transaction_hash) compare_code_units-IsLawful)
            (on-IsLawful (λ (g : Group). g.scope.segment) compare-IsLawful))))

module _ (order : Group → Group → Ordering) where
  All-insert :
      (P : Group → Type 0) (g : Group) (groups : List Group)
      → P g
      → All P groups
      → All P (insert order g groups)
  unfolding insert
  All-insert P g [] p h = (p, tt)
  All-insert P g (x ∷ groups) p (q, h) = ground (arith, All-insert P g groups p h)

  deliveries_with-insert :
      (k : Text) (g : Group) (groups : List Group)
      → All (IsApartFrom g) groups
      → deliveries_with k (insert order g groups) ≡ deliveries_with k (g ∷ groups)
  unfolding insert
  deliveries_with-insert k g [] h = refl
  deliveries_with-insert k g (x ∷ groups) (apart, h) = ground (
    arith,
    deliveries_with-insert k g groups h,
    text_eq.beq_iff (group_key g.scope) k,
    text_eq.beq_iff (group_key x.scope) k,
  )

  total-insert :
      (g : Group) (groups : List Group) → total (insert order g groups) ≡ total (g ∷ groups)
  unfolding insert
  total-insert g [] = refl
  total-insert g (x ∷ groups) = ground (arith, total-insert g groups)

  length-insert :
      (g : Group) (groups : List Group) → length (insert order g groups) ≡ length (g ∷ groups)
  unfolding insert
  length-insert g [] = refl
  length-insert g (x ∷ groups) = ground (arith, length-insert g groups)

  AreSeparate-insert :
      (g : Group) (groups : List Group)
      → g.deliveries ≢ []
      → All (IsApartFrom g) groups
      → AreSeparate groups
      → AreSeparate (insert order g groups)
  unfolding insert
  AreSeparate-insert g [] d apart h = (d, tt, tt)
  AreSeparate-insert g (x ∷ groups) d (here, apart) (e, others, h) =
      elim (Bool-cases (is_gt (order g x))) [
        | inl later ↦
            rw (later, insert)
              (
                e,
                All-insert (IsApartFrom x) g groups (λ same. here (sym same)) others,
                AreSeparate-insert g groups d apart h,
              )
        | inr first ↦ rw (first, insert) (d, (here, apart), (e, others, h))
      ]

  -- What a sorted list of groups keeps.
  record IsSorting (groups sorted : List Group) : Type 1 where
    separate : AreSeparate sorted
    deliveries : (k : Text) → deliveries_with k sorted ≡ deliveries_with k groups
    totals : total sorted ≡ total groups
    lengths : length sorted ≡ length groups
    kept : (P : Group → Type 0) → All P groups → All P sorted

  sort-IsSorting : (groups : List Group) → AreSeparate groups → IsSorting groups (sort order groups)
  unfolding sort
  sort-IsSorting [] h = record {
    separate = tt;
    deliveries = λ k. refl;
    totals = refl;
    lengths = refl;
    kept = λ P a. a;
  }
  sort-IsSorting (g ∷ groups) (d, apart, h) =
      let rest = sort-IsSorting groups h in
      let apart' = rest.kept (IsApartFrom g) apart in
      record {
        separate = AreSeparate-insert g (sort order groups) d apart' rest.separate;
        deliveries = λ k.
            deliveries_with-insert k g (sort order groups) apart'
            ∙ ap (λ ds. if group_key g.scope == k then g.deliveries ++ ds else ds)
                (rest.deliveries k);
        totals = total-insert g (sort order groups) ∙ ap (λ n. length g.deliveries + n) rest.totals;
        lengths = length-insert g (sort order groups) ∙ ap suc rest.lengths;
        kept = λ P (p, a). All-insert P g (sort order groups) p (rest.kept P a);
      }

-- The groups of the loop, without their keys.
abbrev pub values : Dictionary Text Group → List Group
values groups = map (λ entry. entry.1) groups

All-values :
    (k : Text) (groups : Dictionary Text Group) (g : Group)
    → group_key g.scope ≡ k
    → AreGroups groups
    → All (λ (entry : Text × Group). entry.0 ≢ k) groups
    → All (IsApartFrom g) (values groups)
All-values k [] g e h a = tt
All-values k ((j, w) ∷ groups) g e (at, d, apart, h) (ne, a) =
    ((λ same. ne (sym at ∙ same ∙ e)), All-values k groups g e h a)

values-AreSeparate :
    (groups : Dictionary Text Group) → AreGroups groups → AreSeparate (values groups)
values-AreSeparate [] h = tt
values-AreSeparate ((j, w) ∷ groups) (at, d, apart, h) =
    (d, All-values j groups w at h apart, values-AreSeparate groups h)

no_deliveries :
    (k : Text) (groups : Dictionary Text Group)
    → AreGroups groups
    → All (λ (entry : Text × Group). entry.0 ≢ k) groups
    → deliveries_with k (values groups) ≡ []
no_deliveries k [] h a = refl
no_deliveries k ((j, w) ∷ groups) (at, d, apart, h) (ne, a) =
    ground (arith, no_deliveries k groups h a, text_eq.beq_iff (group_key w.scope) k, ne, at)

deliveries_with-values :
    (k : Text) (groups : Dictionary Text Group)
    → AreGroups groups
    → deliveries_with k (values groups) ≡ deliveries_or_none (lookup k groups)
deliveries_with-values k [] h = refl
deliveries_with-values k ((j, w) ∷ groups) (at, d, apart, h) = elim (Bool-cases (j == k)) [
  | inl here ↦
      let same : j ≡ k = (text_eq.beq_iff j k).0 here in
      let keyed : (group_key w.scope == k) ≡ true = (text_eq.beq_iff _ k).1 (at ∙ same) in
      rw (here, keyed)
        (ap (λ ds. w.deliveries ++ ds)
            (no_deliveries k groups h
              (subst (λ i. All (λ (entry : Text × Group). entry.0 ≢ i) groups) same apart))
          ∙ append-nil w.deliveries)
  | inr there ↦
      let keyed : (group_key w.scope == k) ≡ false = rw at there in
      rw (there, keyed) (deliveries_with-values k groups h)
]

total-values : (groups : Dictionary Text Group) → total (values groups) ≡ count_deliveries groups
total-values [] = refl
total-values ((j, w) ∷ groups) = ap (λ n. length w.deliveries + n) (total-values groups)

-- What a reading promises: its packages come from groups of the accepted names' events.
pub record IsReadOutput (events : List PartEvent) (options : ReadOptions) (out : ReadOutput)
    : Type 0 where
  pub limits : ReaderLimits
  pub names : Names
  pub prepared : prepare (length events) options ≡ ok (limits, names)
  pub groups : List Group
  pub packages : out.packages ≡ map evaluate groups
  pub ordered : IsOrdered compare_groups groups
  pub separate : AreSeparate groups
  pub deliveries :
      (k : Text) → deliveries_with k groups ≡ deliveries_under names options.network k events
  pub bounded : length groups ≤ limits.max_packages
  pub conserved : out.ignored + total groups ≡ length events

-- If a list of events is read, then the packages are the evaluations of groups in the order of
-- their scopes, one group for each key and at most the limit; a group holds the deliveries of the
-- events with its key, in order; and every event is delivered once or counted as ignored.
pub read_packages-IsReadOutput :
    (events : List PartEvent) (options : ReadOptions) (out : ReadOutput)
    → read_packages events options ≡ ok out
    → IsReadOutput events options out
unfolding read_packages
read_packages-IsReadOutput events options out e =
    let ((limits, names), e1, e2) = >>=-eq-ok (prepare (length events) options) _ e in
    let (reading, e3, e4) =
      >>=-eq-ok (read_events names options.network limits.max_packages 0 events no_groups) _ e2 in
    let same = ok_injective e4 in
    let grouped =
      read_events-IsGrouped names options.network limits.max_packages 0 events no_groups reading
        (record { groups = tt; bounded = omega arith }) e3 in
    let k = grouped.kept in
    let sorting =
      sort-IsSorting compare_groups (values reading.groups)
        (values-AreSeparate reading.groups k.groups) in
    record {
      limits = limits;
      names = names;
      prepared = e1;
      groups = sort compare_groups (values reading.groups);
      packages = ap (λ o. o.packages) (sym same);
      ordered = sort-IsOrdered compare_groups-IsLawful (values reading.groups);
      separate = sorting.separate;
      deliveries = λ key.
          sorting.deliveries key
          ∙ deliveries_with-values key reading.groups k.groups
          ∙ grouped.deliveries key;
      bounded = omega (
        arith,
        sorting.lengths,
        length-map reading.groups (λ (entry : Text × Group). entry.1),
        k.bounded,
      );
      conserved = omega (
        arith,
        sorting.totals,
        total-values reading.groups,
        grouped.counted,
        ap (λ (o : ReadOutput). o.ignored) same,
      );
    }

map-merged :
    (groups : List Group) (pkg : Package)
    → Member pkg (map evaluate groups)
    → pkg.status ≡ accepted
    → pkg.payload ≡ some (merge_parts pkg.parts)
map-merged (g ∷ groups) pkg (inl here) e =
    subst (λ q. q.payload ≡ some (merge_parts q.parts)) here
      (evaluate-merged g (ap (λ q. q.status) here ∙ e))
map-merged (g ∷ groups) pkg (inr later) e = map-merged groups pkg later e
map-merged [] pkg m e = absurd m

-- The payload of each accepted package of a reading is that of its parts.
pub read_packages-merged :
    (events : List PartEvent) (options : ReadOptions) (out : ReadOutput) (pkg : Package)
    → read_packages events options ≡ ok out
    → Member pkg out.packages
    → pkg.status ≡ accepted
    → pkg.payload ≡ some (merge_parts pkg.parts)
read_packages-merged events options out pkg e m =
    let output = read_packages-IsReadOutput events options out e in
    map-merged output.groups pkg (subst (Member pkg) output.packages m)
