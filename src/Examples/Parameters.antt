-- ===== src/Examples/Parameters.antt =====
-- A dict with a `source_port` given by its number.
use siphon_smpp.Common.{
  ◌^◌, ◌≤◌, ◌<◌, ◌⊎◌, some, List, [], ◌∷◌, ◌≡◌, ◌↔◌, refl, map, length, ok, err, arith,
}
use siphon_smpp.Tlv.{
  Bytes, Tlv, PyValue, py_int, pos, int_width, value_to_bytes, tag_from_py, value_too_wide,
  tlvs_from_py, tlvs_to_py,
}
use siphon_smpp.Tlv.Keys.{IsDistinct, Converts, tlvs_from_py_exact, tlvs_round_trip}
use siphon_smpp.Tlv.Encoding.{from_be, value_to_bytes-int}
use siphon_smpp.Examples.Fixtures.{table}

abbrev dict : List (PyValue × PyValue)
dict = (py_int (pos 0x020A), py_int (pos 2775)) ∷ []

abbrev port : Tlv
port = record { tag = 0x020A; value = 10 ∷ 215 ∷ [] }

port_converted : tlvs_from_py table (some dict) ≡ ok (port ∷ [])
unfolding tlvs_from_py tag_from_py value_to_bytes
port_converted = refl

tlvs_from_py_exact_example :
    (tlvs_from_py table (some dict) ≡ ok (port ∷ []))
    ↔ (Converts table dict (port ∷ []) × IsDistinct (port ∷ []))
tlvs_from_py_exact_example = tlvs_from_py_exact table dict (port ∷ [])

tlvs_round_trip_example :
    Converts table dict (port ∷ [])
    × (tlvs_to_py (port ∷ []) ≡ map (λ t. (t.tag, t.value)) (port ∷ []))
tlvs_round_trip_example = tlvs_round_trip table dict (port ∷ []) port_converted

port_width : int_width table 0x020A ≡ some 2
unfolding int_width
port_width = refl

value_to_bytes-int_example :
    ((2775 < 256 ^ 2)
      × (bs : Bytes) × (value_to_bytes table 0x020A (py_int (pos 2775)) ≡ ok bs)
      × (length bs ≡ 2)
      × (from_be 0 bs ≡ 2775))
    ⊎ ((256 ^ 2 ≤ 2775)
        × (value_to_bytes table 0x020A (py_int (pos 2775)) ≡ err (value_too_wide 0x020A 2775 2)))
value_to_bytes-int_example = value_to_bytes-int table 0x020A 2 2775 port_width (omega arith)
