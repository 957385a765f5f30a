-- ===== src/Examples/Receipts.antt =====
-- A delivery receipt with an id and a state.
use siphon_smpp.Common.{Option, false, none, some, [], ◌∷◌, ◌≡◌, ◌⊎◌, ◌↔◌, refl, ok}
use siphon_smpp.Tlv.{Text, trim}
use siphon_smpp.Pdu.{Pdu, from_deliver, body, is_dlr}
use siphon_smpp.Pdu.Receipt.{Receipt, parse, receipt, empty}
use siphon_smpp.Pdu.Receipt.Presence.{NoKey, receipt-none}
use siphon_smpp.Pdu.Receipt.Slices.{parse_returns}
use siphon_smpp.Examples.Fixtures.{lookups, delivery}

-- "ID:42 stat:DELIVRD"
abbrev receipt_text : Text
receipt_text =
    b'I' ∷ b'D' ∷ b':' ∷ b'4' ∷ b'2' ∷ b' ' ∷ b's' ∷ b't' ∷ b'a' ∷ b't' ∷ b':' ∷ b'D' ∷ b'E' ∷ b'L'
    ∷ b'I' ∷ b'V' ∷ b'R' ∷ b'D' ∷ []

abbrev parsed : Receipt
parsed = record (empty receipt_text) {
  id = some (b'4' ∷ b'2' ∷ []);
  stat = some (b'D' ∷ b'E' ∷ b'L' ∷ b'I' ∷ b'V' ∷ b'R' ∷ b'D' ∷ []);
}

abbrev receipt_pdu : Pdu
receipt_pdu = from_deliver (record delivery { short_message = receipt_text })

parse_exact_text : parse (body lookups receipt_pdu) ≡ ok (some parsed)
unfolding parse body from_deliver trim
parse_exact_text = refl

receipt-none_example : (receipt (λ bytes. bytes) lookups receipt_pdu ≡ ok none) ↔ (
    (is_dlr receipt_pdu ≡ false)
    ⊎ (NoKey (body lookups receipt_pdu)
        × (lookups.receipted_message_id receipt_pdu.tlvs ≡ none)
        × (lookups.message_state receipt_pdu.tlvs ≡ none)))
receipt-none_example = receipt-none (λ bytes. bytes) lookups receipt_pdu

parse_returns_example : (r : Option Receipt) × (parse receipt_text ≡ ok r)
parse_returns_example = parse_returns receipt_text
