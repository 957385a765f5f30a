-- ===== src/Tlv.antt =====
-- Optional parameters (TLVs) between scripts and the codec: src/tlv.rs. A `str` is the list of its
-- code points, `bytes` a list of bytes.
pub mod Encoding
pub mod Keys
use mathlib.Core.List.{reverse}
use siphon_smpp.Common.{
  ℕ, zero, suc, ◌+◌, ◌-◌, ◌*◌, ◌/◌, ◌%◌, ◌^◌, Bool, true, false, ◌&&◌, ◌||◌, Option, none, some,
  List, [], ◌∷◌, ◌++◌, map, ◌==◌, leb, ltb, if◌then◌else◌, find, any, drop, bytes_eq, option_map,
  ok_or, String, Result, ok, err, ◌>>=◌,
}

abbrev pub Bytes : Type 0
Bytes = List ℕ

-- The code points of a `str`.
abbrev pub Text : Type 0
Text = List ℕ

-- The tags of the codec that the crate names.
pub data TlvTag : Type 0 where
  dest_addr_subunit dest_network_type dest_bearer_type dest_telematics_id : TlvTag
  source_addr_subunit source_network_type source_bearer_type source_telematics_id : TlvTag
  qos_time_to_live payload_type ms_msg_wait_facilities privacy_indicator : TlvTag
  user_message_reference user_response_code source_port destination_port sar_msg_ref_num : TlvTag
  language_indicator sar_total_segments sar_segment_seqnum sc_interface_version : TlvTag
  callback_num_pres_ind number_of_messages dpf_result set_dpf ms_availability_status : TlvTag
  delivery_failure_reason more_messages_to_send message_state_tlv ussd_service_op : TlvTag
  display_time sms_signal ms_validity its_reply_type message_payload : TlvTag

pub record Tlv : Type 0 where
  pub tag : ℕ
  pub value : Bytes

-- What the crate uses of the codec's tables: the number of a tag, and `TlvTag::ALL`, the names of the
-- specification with their tags.
pub record TlvTable : Type 0 where
  pub number : TlvTag → ℕ
  pub all : List (Text × ℕ)

abbrev pub int_widths : List (TlvTag × ℕ)
int_widths =
    (dest_addr_subunit, 1)
    ∷ (dest_network_type, 1)
    ∷ (dest_bearer_type, 1)
    ∷ (dest_telematics_id, 2)
    ∷ (source_addr_subunit, 1)
    ∷ (source_network_type, 1)
    ∷ (source_bearer_type, 1)
    ∷ (source_telematics_id, 1)
    ∷ (qos_time_to_live, 4)
    ∷ (payload_type, 1)
    ∷ (ms_msg_wait_facilities, 1)
    ∷ (privacy_indicator, 1)
    ∷ (user_message_reference, 2)
    ∷ (user_response_code, 1)
    ∷ (source_port, 2)
    ∷ (destination_port, 2)
    ∷ (sar_msg_ref_num, 2)
    ∷ (language_indicator, 1)
    ∷ (sar_total_segments, 1)
    ∷ (sar_segment_seqnum, 1)
    ∷ (sc_interface_version, 1)
    ∷ (callback_num_pres_ind, 1)
    ∷ (number_of_messages, 1)
    ∷ (dpf_result, 1)
    ∷ (set_dpf, 1)
    ∷ (ms_availability_status, 1)
    ∷ (delivery_failure_reason, 1)
    ∷ (more_messages_to_send, 1)
    ∷ (message_state_tlv, 1)
    ∷ (ussd_service_op, 1)
    ∷ (display_time, 1)
    ∷ (sms_signal, 2)
    ∷ (ms_validity, 1)
    ∷ (its_reply_type, 1)
    ∷ []

-- A Python value as a script hands it over; an `int` is unbounded, `negsuc n` is -(n + 1).
pub data PyInt : Type 0 where
  pos : ℕ → PyInt
  negsuc : ℕ → PyInt

pub data PyValue : Type 0 where
  py_bytes : Bytes → PyValue
  py_bytearray : Bytes → PyValue
  py_str : Text → PyValue
  py_int : PyInt → PyValue
  py_bool : Bool → PyValue
  py_other : String → PyValue

-- The Python exceptions, with the values that their messages name.
pub data TlvError : Type 0 where
  unknown_name : Text → TlvError
  key_overflow : TlvError
  tag_out_of_range : PyInt → TlvError
  bad_key_type : TlvError
  negative_value : ℕ → TlvError
  not_integer_typed : ℕ → TlvError
  value_too_wide : ℕ → ℕ → ℕ → TlvError
  bad_value_type : ℕ → TlvError
  given_twice : ℕ → TlvError

-- `char::is_whitespace`: the Unicode property White_Space.
unfoldable pub is_whitespace : ℕ → Bool
is_whitespace c =
    (leb 9 c && leb c 13)
    || c == 0x20
    || c == 0x85
    || c == 0xA0
    || c == 0x1680
    || (leb 0x2000 c && leb c 0x200A)
    || c == 0x2028
    || c == 0x2029
    || c == 0x202F
    || c == 0x205F
    || c == 0x3000

unfoldable pub trim_start : Text → Text
trim_start [] = []
trim_start (c ∷ s) = let rest = trim_start s in if is_whitespace c then rest else c ∷ s

unfoldable pub trim : Text → Text
unfolding trim_start is_whitespace
trim s = reverse (trim_start (reverse (trim_start s)))

unfoldable pub upper_char : ℕ → ℕ
upper_char c = if leb b'a' c && leb c b'z' then c - 32 else c

unfoldable pub to_ascii_uppercase : Text → Text
unfolding upper_char
to_ascii_uppercase s = map upper_char s

abbrev pub strip_prefix : Text → Text → Option Text
strip_prefix [] s = some s
strip_prefix (p ∷ ps) [] = none
strip_prefix (p ∷ ps) (c ∷ s) = let rest = strip_prefix ps s in if p == c then rest else none

-- "TLV_"
abbrev pub tlv_prefix : Text
tlv_prefix = b'T' ∷ b'L' ∷ b'V' ∷ b'_' ∷ []

abbrev or_same : Text → Option Text → Text
or_same s none = s
or_same s (some t) = t

-- The bytes of a `str` in UTF-8.
unfoldable pub utf8_char : ℕ → Bytes
utf8_char c =
    if ltb c 0x80
    then c ∷ []
    else if ltb c 0x800
    then (0xC0 + c / 64) ∷ (0x80 + c % 64) ∷ []
    else if ltb c 0x10000
    then (0xE0 + c / 4096) ∷ (0x80 + c / 64 % 64) ∷ (0x80 + c % 64) ∷ []
    else (0xF0 + c / 262144) ∷ (0x80 + c / 4096 % 64) ∷ (0x80 + c / 64 % 64) ∷ (0x80 + c % 64) ∷ []

unfoldable pub as_bytes : Text → Bytes
unfolding utf8_char
as_bytes [] = []
as_bytes (c ∷ s) = utf8_char c ++ as_bytes s

-- `u64::to_be_bytes` of the low `k` bytes.
unfoldable pub be_bytes : ℕ → ℕ → Bytes
be_bytes zero n = []
be_bytes (suc k) n = (n / 256 ^ k % 256) ∷ be_bytes k n

-- `key.extract::<i64>()`, then `u16::try_from`.
unfoldable pub tag_from_int : PyInt → Result TlvError ℕ
tag_from_int (pos n) =
    if leb (2 ^ 63) n
    then err key_overflow
    else if ltb n 65536
    then ok n
    else err (tag_out_of_range (pos n))
tag_from_int (negsuc n) =
    if leb (2 ^ 63) n then err key_overflow else err (tag_out_of_range (negsuc n))

-- `value.extract::<u64>()`.
abbrev extract_u64 : ℕ → PyInt → Result TlvError ℕ
extract_u64 tag (pos n) = if ltb n (2 ^ 64) then ok n else err (negative_value tag)
extract_u64 tag (negsuc n) = err (negative_value tag)

abbrev max_value : ℕ → ℕ
max_value width = if leb 8 width then 2 ^ 64 - 1 else 2 ^ (width * 8) - 1

module _ (table : TlvTable) where
  open table use {number, all}

  unfoldable pub int_width : ℕ → Option ℕ
  int_width tag = option_map (λ entry. entry.1) (find (λ entry. number entry.0 == tag) int_widths)

  unfoldable pub tag_from_name : Text → Option ℕ
  unfolding trim to_ascii_uppercase
  tag_from_name name =
      let wanted = to_ascii_uppercase (trim name) in
      let wanted = or_same wanted (strip_prefix tlv_prefix wanted) in
      option_map (λ entry. entry.1) (find (λ entry. bytes_eq entry.0 wanted) all)

  unfoldable pub name_for_tag : ℕ → Option Text
  name_for_tag tag = option_map (λ entry. entry.0) (find (λ entry. entry.1 == tag) all)

  unfoldable pub tag_from_py : PyValue → Result TlvError ℕ
  unfolding tag_from_int tag_from_name
  tag_from_py (py_str name) = ok_or (tag_from_name name) (unknown_name name)
  tag_from_py (py_int n) = tag_from_int n
  tag_from_py (py_bool b) = tag_from_int (pos (if b then 1 else 0))
  tag_from_py (py_bytes b) = err bad_key_type
  tag_from_py (py_bytearray b) = err bad_key_type
  tag_from_py (py_other name) = err bad_key_type

  unfoldable pub int_to_bytes : ℕ → PyInt → Result TlvError Bytes
  unfolding int_width be_bytes
  int_to_bytes tag value = do
    raw ← extract_u64 tag value
    width ← ok_or (int_width tag) (not_integer_typed tag)
    if ltb (max_value width) raw
        then err (value_too_wide tag raw width)
        else ok (drop (8 - width) (be_bytes 8 raw))

  unfoldable pub value_to_bytes : ℕ → PyValue → Result TlvError Bytes
  unfolding as_bytes int_to_bytes
  value_to_bytes tag (py_bytes b) = ok b
  value_to_bytes tag (py_bytearray b) = ok b
  value_to_bytes tag (py_str s) = ok (as_bytes s ++ 0x00 ∷ [])
  value_to_bytes tag (py_int n) = int_to_bytes tag n
  value_to_bytes tag (py_bool b) = int_to_bytes tag (pos (if b then 1 else 0))
  value_to_bytes tag (py_other name) = err (bad_value_type tag)

  -- The loop of `tlvs_from_py`, over the dict's items in order.
  unfoldable pub tlvs_from_items : List Tlv → List (PyValue × PyValue) → Result TlvError (List Tlv)
  tlvs_from_items out [] = ok out
  tlvs_from_items out ((key, value) ∷ items) = do
    tag ← tag_from_py key
    if any (λ t. t.tag == tag) out
        then err (given_twice tag)
        else value_to_bytes tag value >>= λ v.
            tlvs_from_items (out ++ record { tag = tag; value = v } ∷ []) items

  unfoldable pub tlvs_from_py : Option (List (PyValue × PyValue)) → Result TlvError (List Tlv)
  unfolding tlvs_from_items
  tlvs_from_py none = ok []
  tlvs_from_py (some dict) = tlvs_from_items [] dict

-- `{tag: bytes}`; a dict keeps the last value set under a key, in the place of the first.
unfoldable pub set_item : ℕ → Bytes → List (ℕ × Bytes) → List (ℕ × Bytes)
set_item k v [] = (k, v) ∷ []
set_item k v ((j, w) ∷ d) = if j == k then (k, v) ∷ d else (j, w) ∷ set_item k v d

unfoldable pub fill_items : List Tlv → List (ℕ × Bytes) → List (ℕ × Bytes)
unfolding set_item
fill_items [] d = d
fill_items (t ∷ ts) d = fill_items ts (set_item t.tag t.value d)

unfoldable pub tlvs_to_py : List Tlv → List (ℕ × Bytes)
unfolding fill_items
tlvs_to_py ts = fill_items ts []
