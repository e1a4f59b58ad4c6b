-- ===== src/Packages/Groups.antt =====
-- src/reader/packages.ts: the key under which a package's events are grouped.
use compact_multi_part_event.Prelude.{[], ◌∷◌, Text, Bytes}
use compact_multi_part_event.Bytes.{bytes_to_hex}
use compact_multi_part_event.Json.{stringify}
use compact_multi_part_event.Packages.Types.{Scope, PartEvent}

abbrev pub scope_of : PartEvent → Bytes → Scope
scope_of event name = record {
  network = event.network;
  contract = event.contract;
  name = name;
  transaction_hash = event.transaction_hash;
  segment = event.segment;
}

unfoldable pub group_key : Scope → Text
group_key group =
    b'['
    ∷ stringify
        (group.network ∷ group.contract ∷ bytes_to_hex group.name ∷ group.transaction_hash ∷ [])
        group.segment
