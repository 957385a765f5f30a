-- ===== src/Pdu/Receipt.antt =====
-- Delivery receipts: src/pyclasses.rs `Receipt`, `Pdu::receipt`. A body is read as its code points,
-- and a position counts code points; the keys are ASCII, so they cut the same texts out.
pub mod Needles
mod Sorting
pub mod Slices
pub mod Presence
use siphon_smpp.Common.{
  ℕ, ◌+◌, ◌-◌, ◌≡◌, ◌↔◌, ◌⊎◌, suc, Bool, false, not, ◌&&◌, ◌||◌, Option, none, some, List, [], ◌∷◌,
  ◌++◌, map, any, take, drop, length, leb, ltb, ◌==◌, is_some, is_empty, or_else, option_map,
  if◌then◌else◌, Result, ok, err, ◌>>=◌, arith,
}
use siphon_smpp.Tlv.{Bytes, Text, trim, strip_prefix}
use siphon_smpp.Pdu.{Pdu, TlvList, is_dlr, body}

pub data Field : Type 0 where
  submit_date done_date dlvrd stat text sub err_code id : Field

pub record Receipt : Type 0 where
  pub id : Option Text
  pub sub : Option Text
  pub dlvrd : Option Text
  pub submit_date : Option Text
  pub done_date : Option Text
  pub stat : Option Text
  pub err_code : Option Text
  pub text : Option Text
  pub raw : Text

-- `..Default::default()`.
abbrev pub empty : Text → Receipt
empty raw = record {
  id = none;
  sub = none;
  dlvrd = none;
  submit_date = none;
  done_date = none;
  stat = none;
  err_code = none;
  text = none;
  raw = raw;
}

-- `KEYS`, each with the colon that its needle ends in.
abbrev pub keys : List (Text × Field)
keys =
    (
      b's' ∷ b'u' ∷ b'b' ∷ b'm' ∷ b'i' ∷ b't' ∷ b' ' ∷ b'd' ∷ b'a' ∷ b't' ∷ b'e' ∷ b':' ∷ [],
      submit_date,
    )
    ∷ (b'd' ∷ b'o' ∷ b'n' ∷ b'e' ∷ b' ' ∷ b'd' ∷ b'a' ∷ b't' ∷ b'e' ∷ b':' ∷ [], done_date)
    ∷ (b'd' ∷ b'l' ∷ b'v' ∷ b'r' ∷ b'd' ∷ b':' ∷ [], dlvrd)
    ∷ (b's' ∷ b't' ∷ b'a' ∷ b't' ∷ b':' ∷ [], stat)
    ∷ (b't' ∷ b'e' ∷ b'x' ∷ b't' ∷ b':' ∷ [], text)
    ∷ (b's' ∷ b'u' ∷ b'b' ∷ b':' ∷ [], sub)
    ∷ (b'e' ∷ b'r' ∷ b'r' ∷ b':' ∷ [], err_code)
    ∷ (b'i' ∷ b'd' ∷ b':' ∷ [], id)
    ∷ []

unfoldable pub message_state_name : ℕ → Option Text
message_state_name state =
    if state == 1
    then some (b'E' ∷ b'N' ∷ b'R' ∷ b'O' ∷ b'U' ∷ b'T' ∷ b'E' ∷ [])
    else if state == 2
    then some (b'D' ∷ b'E' ∷ b'L' ∷ b'I' ∷ b'V' ∷ b'R' ∷ b'D' ∷ [])
    else if state == 3
    then some (b'E' ∷ b'X' ∷ b'P' ∷ b'I' ∷ b'R' ∷ b'E' ∷ b'D' ∷ [])
    else if state == 4
    then some (b'D' ∷ b'E' ∷ b'L' ∷ b'E' ∷ b'T' ∷ b'E' ∷ b'D' ∷ [])
    else if state == 5
    then some (b'U' ∷ b'N' ∷ b'D' ∷ b'E' ∷ b'L' ∷ b'I' ∷ b'V' ∷ [])
    else if state == 6
    then some (b'A' ∷ b'C' ∷ b'C' ∷ b'E' ∷ b'P' ∷ b'T' ∷ b'D' ∷ [])
    else if state == 7
    then some (b'U' ∷ b'N' ∷ b'K' ∷ b'N' ∷ b'O' ∷ b'W' ∷ b'N' ∷ [])
    else if state == 8
    then some (b'R' ∷ b'E' ∷ b'J' ∷ b'E' ∷ b'C' ∷ b'T' ∷ b'D' ∷ [])
    else none

abbrev lower_char : ℕ → ℕ
lower_char c = if leb b'A' c && leb c b'Z' then c + 32 else c

unfoldable pub to_ascii_lowercase : Text → Text
to_ascii_lowercase s = map lower_char s

-- `str::find`: the first position at which the needle stands.
unfoldable pub find_text : Text → Text → Option ℕ
find_text needle [] = if is_empty needle then some 0 else none
find_text needle (c ∷ hay) =
    let rest = find_text needle hay in
    if is_some (strip_prefix needle (c ∷ hay)) then some 0 else option_map suc rest

pub record Hit : Type 0 where
  pub pos : ℕ
  pub key_len : ℕ
  pub field : Field

unfoldable pub is_claimed : ℕ → List Hit → Bool
is_claimed pos hits = any (λ h. leb h.pos pos && ltb pos (h.pos + h.key_len)) hits

abbrev add_hit : Text × Field → Option ℕ → List Hit → List Hit
add_hit (needle, field) none hits = hits
add_hit (needle, field) (some pos) hits =
    if is_claimed pos hits
    then hits
    else hits ++ record { pos = pos; key_len = length needle; field = field } ∷ []

unfoldable pub find_hits : List (Text × Field) → Text → List Hit → List Hit
unfolding find_text is_claimed
find_hits [] hay hits = hits
find_hits ((needle, field) ∷ rest) hay hits =
    find_hits rest hay (add_hit (needle, field) (find_text needle hay) hits)

-- `sort_by_key`, which is stable.
unfoldable pub insert_hit : Hit → List Hit → List Hit
insert_hit h [] = h ∷ []
insert_hit h (g ∷ gs) =
    let rest = insert_hit h gs in if ltb h.pos g.pos then h ∷ g ∷ gs else g ∷ rest

unfoldable pub sort_hits : List Hit → List Hit → List Hit
unfolding insert_hit
sort_hits [] sorted = sorted
sort_hits (h ∷ hs) sorted = sort_hits hs (insert_hit h sorted)

-- `raw[start..end]` panics when the range runs backwards or past the end.
pub data Panic : Type 0 where
  slice_out_of_range : ℕ → ℕ → Panic

unfoldable pub slice : Text → ℕ → ℕ → Result Panic Text
slice raw from to =
    if leb from to && leb to (length raw)
    then ok (take (to - from) (drop from raw))
    else err (slice_out_of_range from to)

unfoldable pub set : Field → Text → Receipt → Receipt
set id v r = record r { id = some v }
set sub v r = record r { sub = some v }
set dlvrd v r = record r { dlvrd = some v }
set submit_date v r = record r { submit_date = some v }
set done_date v r = record r { done_date = some v }
set stat v r = record r { stat = some v }
set err_code v r = record r { err_code = some v }
set text v r = record r { text = some v }

abbrev end_of : Text → List Hit → ℕ
end_of raw [] = length raw
end_of raw (h ∷ hs) = h.pos

unfoldable pub fill : Text → List Hit → Receipt → Result Panic Receipt
unfolding slice set
fill raw [] out = ok out
fill raw (h ∷ hs) out = do
  value ← slice raw (h.pos + h.key_len) (end_of raw hs)
  fill raw hs (set h.field (trim value) out)

abbrev parse_hits : Text → List Hit → Result Panic (Option Receipt)
parse_hits raw [] = ok none
parse_hits raw (h ∷ hs) = fill raw (sort_hits (h ∷ hs) []) (empty raw) >>= λ r. ok (some r)

unfoldable pub parse : Text → Result Panic (Option Receipt)
unfolding find_hits to_ascii_lowercase fill sort_hits
parse raw = parse_hits raw (find_hits keys (to_ascii_lowercase raw) [])

-- The dict of `pdu.receipt`: the fields, and the code of the `message_state` parameter.
pub record ReceiptDict : Type 0 where
  pub receipt : Receipt
  pub message_state : Option ℕ

abbrev named_state : Option ℕ → Option Text
named_state none = none
named_state (some state) = message_state_name state

abbrev from_parameters : Text → Option Text → Option ℕ → Option Receipt
from_parameters raw tlv_id tlv_state =
    if is_some tlv_id || is_some tlv_state then some (empty raw) else none

abbrev filled : Option Text → Option ℕ → Receipt → ReceiptDict
filled tlv_id tlv_state r = record {
  receipt = record r { id = or_else r.id tlv_id; stat = or_else r.stat (named_state tlv_state) };
  message_state = tlv_state;
}

module _ (from_utf8_lossy : Bytes → Text) (lookups : TlvList) where
  unfoldable pub receipt : Pdu → Result Panic (Option ReceiptDict)
  unfolding parse message_state_name is_dlr body
  receipt p =
      let raw = from_utf8_lossy (body lookups p) in
      let tlv_id = lookups.receipted_message_id p.tlvs in
      let tlv_state = lookups.message_state p.tlvs in
      if not (is_dlr p)
      then ok none
      else parse raw >>= λ parsed. ok (
          option_map (filled tlv_id tlv_state)
            (or_else parsed (from_parameters raw tlv_id tlv_state)))
