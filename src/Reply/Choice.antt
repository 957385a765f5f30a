-- ===== src/Reply/Choice.antt =====
-- What a script can put into a reply: src/pyclasses.rs `Pdu::reply`, `Bind::reject`.
use siphon_smpp.Common.{
  String, Bool, true, false, not, ◌&&◌, Option, List, [], ◌∷◌, ◌≡◌, ◌⊎◌, ◌↔◌, inl, inr, refl, sym,
  ap, ◌∙◌, is_empty, if◌then◌else◌, str_eq, Result, ok, err, ◌>>=◌, arith, Bool-cases,
}
use siphon_smpp.Status.{StatusError, SmppError, debug_name, parse_smpp_status}
use siphon_smpp.Status.Names.{parse_exact}
use siphon_smpp.Tlv.{TlvError, Tlv, TlvTable, PyValue, tlvs_from_py}
use siphon_smpp.Pdu.{Pdu}
use siphon_smpp.Reply.{
  with_status, status_or, tlvs_or, tlvs_not_supported, ReplyError, reply, Bind, reject,
}

-- The steps of a reply that was made.
made :
    (parsed : Result StatusError SmppError) (converted : Result TlvError (List Tlv))
    (refuses : List Tlv → Bool) (x : ReplyError) (id : Option String) (e : SmppError)
    (tlvs : List Tlv)
    → (status_or parsed >>= λ cs.
        tlvs_or converted >>= λ ts. if refuses ts then err x else ok (with_status cs id ts))
      ≡ ok (with_status e id tlvs)
    → (parsed ≡ ok e) × (converted ≡ ok tlvs) × (refuses tlvs ≡ false)
made (err n) converted refuses x id e tlvs h = cc
made (ok cs) (err n) refuses x id e tlvs h = cc
made (ok cs) (ok ts) refuses x id e tlvs h = elim (Bool-cases (refuses ts)) [
  | inl r ↦ let h' = rw r at h in cc
  | inr a ↦ let h' = rw a at h in let same : ts ≡ tlvs = cc in (cc, cc, sym (ap refuses same) ∙ a)
]

allowed_cases :
    (tlvs : List Tlv) (same : Bool)
    → ((not (is_empty tlvs) && not same) ≡ false)
    → (tlvs ≡ []) ⊎ (same ≡ true)
allowed_cases [] same h = inl refl
allowed_cases (t ∷ ts) true h = inr refl
allowed_cases (t ∷ ts) false h = cc

module _ (table : TlvTable) where
  -- A reply can be made exactly from the name of a status and a dict that converts, and it keeps both;
  -- optional parameters are refused on a reply to any PDU but a `data_sm`.
  pub reply_exact :
      (pdu : Pdu) (status : String) (id : Option String) (dict : Option (List (PyValue × PyValue)))
      (e : SmppError) (tlvs : List Tlv)
      → (reply table pdu status id dict ≡ ok (with_status e id tlvs)) ↔ (
          (status ≡ debug_name e)
          × (tlvs_from_py table dict ≡ ok tlvs)
          × ((tlvs ≡ []) ⊎ (str_eq pdu.command "data_sm" ≡ true)))
  unfolding reply
  reply_exact pdu status id dict e tlvs = (
    λ h.
        let (parsed, converted, allowed) =
          made (parse_smpp_status status) (tlvs_from_py table dict)
            (λ ts. not (is_empty ts) && not (str_eq pdu.command "data_sm"))
            (tlvs_not_supported pdu.command) id e tlvs h in
        (
          (parse_exact status e).0 parsed,
          converted,
          allowed_cases tlvs (str_eq pdu.command "data_sm") allowed,
        ),
    λ h.
        let named = (parse_exact status e).1 h.0 in
        let allowed : (not (is_empty tlvs) && not (str_eq pdu.command "data_sm")) ≡ false =
          elim h.2 [ inl n ↦ ground arith | inr same ↦ ground arith ] in
        rw (named, h.1, allowed),
  )

-- A bind can be rejected exactly with the name of a status, and the result keeps it and the reason.
pub reject_exact :
    (b : Bind) (status reason : String) (e : SmppError)
    → (reject b status reason ≡ ok (record { accepted = false; status = e; reason = reason }))
      ↔ (status ≡ debug_name e)
unfolding reject
reject_exact b status reason e =
    (λ h. (parse_exact status e).0 (ground arith), λ h. ground (arith, (parse_exact status e).1 h))
