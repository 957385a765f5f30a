-- ===== src/Sends/Bodies.antt =====
-- The body of a `data_sm` from the sending helper to the receiving handler: src/sends.rs
-- `build_data_sm`, src/pyclasses.rs `Pdu::from_data`, `body`.
use siphon_smpp.Common.{
  ℕ, ◌≡◌, refl, arith, Bool, true, Bool-cases, inl, inr, none, some, List, [], ◌∷◌, ◌++◌, ◌==◌,
  ==_iff, find, option_map, ok, err,
}
use siphon_smpp.Tlv.{Bytes, Tlv, TlvTable, message_payload}
use siphon_smpp.Pdu.{TlvList, DataSm, from_data, body}
use siphon_smpp.Sends.{two_bodies, fold_message_payload, build_data_sm}

find-append :
    (p : Tlv → Bool) (ts : List Tlv) (t : Tlv)
    → find p ts ≡ none
    → p t ≡ true
    → find p (ts ++ t ∷ []) ≡ some t
find-append p [] t h q = ground arith
find-append p (t' ∷ ts) t h q = elim (Bool-cases (p t')) [
  | inl e ↦ ground arith
  | inr e ↦ ground (arith, find-append p ts t (ground arith) q)
]

module _ (table : TlvTable) (lookups : TlvList)
    (reads_first : (ts : List Tlv)
      → lookups.message_payload ts
        ≡ option_map (λ t. t.value) (find (λ t. t.tag == table.number message_payload) ts)) where
  -- When the optional parameters carry no `message_payload` and the lookup of it gives the first one, a
  -- `data_sm` can be built from any body, and the handler that gets it reads that body.
  pub build_data_sm-body :
      (fields : DataSm) (short_message : Bytes) (tlvs : List Tlv)
      → find (λ t. t.tag == table.number message_payload) tlvs ≡ none
      → (pdu : DataSm) × (build_data_sm table lookups fields short_message tlvs ≡ ok pdu)
        × (body lookups (from_data pdu) ≡ short_message)
  unfolding build_data_sm fold_message_payload body from_data
  build_data_sm-body fields [] tlvs h =
      (record fields { tlvs = tlvs }, refl, ground (arith, reads_first tlvs))
  build_data_sm-body fields (b ∷ bs) tlvs h =
      let payload : Tlv = record { tag = table.number message_payload; value = b ∷ bs } in
      let found : find (λ (u : Tlv). u.tag == table.number message_payload) (tlvs ++ payload ∷ [])
          ≡ some payload =
        find-append (λ t. t.tag == table.number message_payload) tlvs payload h
          ((==_iff (table.number message_payload) (table.number message_payload)).1 refl) in
      (
        record fields { tlvs = tlvs ++ payload ∷ [] },
        ground (arith, reads_first tlvs),
        ground (arith, reads_first (tlvs ++ payload ∷ []), found),
      )

  -- A body given beside a `message_payload` parameter is refused.
  pub build_data_sm-two_bodies :
      (fields : DataSm) (b : ℕ) (bs : Bytes) (tlvs : List Tlv) (t : Tlv)
      → find (λ t. t.tag == table.number message_payload) tlvs ≡ some t
      → build_data_sm table lookups fields (b ∷ bs) tlvs ≡ err (two_bodies "data_sm")
  unfolding build_data_sm fold_message_payload
  build_data_sm-two_bodies fields b bs tlvs t h = ground (arith, reads_first tlvs)
