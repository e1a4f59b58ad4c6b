-- ===== src/Packages/Keys.antt =====
-- The group key and the scopes it stands for: src/reader/packages.ts.
use compact_multi_part_event.Prelude.{◌≡◌, refl, ap, ◌↔◌, [], ◌∷◌, All, arith}
use compact_multi_part_event.Bytes.{bytes_to_hex}
use compact_multi_part_event.Bytes.Hex.{IsByte, bytes_to_hex-injective, bytes_to_hex-IsUnit}
use compact_multi_part_event.Json.Laws.{IsUnit, stringify-injective}
use compact_multi_part_event.Packages.Types.{Scope}
use compact_multi_part_event.Packages.Groups.{group_key}

-- The strings are code units and the name is bytes, as their JavaScript types make sure.
pub record IsScope (s : Scope) : Type 0 where
  pub network_units : All IsUnit s.network
  pub contract_units : All IsUnit s.contract
  pub name_bytes : All IsByte s.name
  pub hash_units : All IsUnit s.transaction_hash

-- Two events get the same group key exactly if they agree in network, contract, name, transaction
-- hash and segment.
pub group_key_iff : (s t : Scope) → IsScope s → IsScope t → (group_key s ≡ group_key t) ↔ (s ≡ t)
unfolding group_key
group_key_iff s t hs ht = (
  λ e.
      let (texts, segments) =
        stringify-injective (s.network ∷ s.contract ∷ bytes_to_hex s.name ∷ s.transaction_hash ∷ [])
          (t.network ∷ t.contract ∷ bytes_to_hex t.name ∷ t.transaction_hash ∷ []) s.segment
          t.segment refl
          (
            hs.network_units,
            (hs.contract_units, (bytes_to_hex-IsUnit s.name hs.name_bytes, (hs.hash_units, tt))),
          )
          (
            ht.network_units,
            (ht.contract_units, (bytes_to_hex-IsUnit t.name ht.name_bytes, (ht.hash_units, tt))),
          )
          (cc) in
      let names : s.name ≡ t.name =
        bytes_to_hex-injective s.name t.name hs.name_bytes ht.name_bytes (cc) in
      ground arith,
  λ e. ap group_key e,
)
