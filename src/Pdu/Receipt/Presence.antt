-- ===== src/Pdu/Receipt/Presence.antt =====
-- When a PDU has a receipt: src/pyclasses.rs `Receipt::parse`, `Pdu::receipt`.
use siphon_smpp.Common.{
  ℕ, ◌≡◌, ◌≢◌, ◌↔◌, ◌⊎◌, inl, inr, refl, sym, ap, ◌∙◌, subst, false, Option, none, some, List, [],
  ◌∷◌, ◌++◌, String, code_points, All, Result, ok, arith, Bool-cases, Option-cases,
}
use siphon_smpp.Tlv.{Bytes, Text, strip_prefix}
use siphon_smpp.Pdu.{Pdu, TlvList, is_dlr, body}
use siphon_smpp.Pdu.Receipt.{
  Field, Receipt, Hit, keys, to_ascii_lowercase, find_text, is_claimed, find_hits, parse,
  parse_hits, receipt, Panic,
}
use siphon_smpp.Pdu.Receipt.Slices.{parse_returns}

-- The text stands in the other.
abbrev pub Stands : Text → Text → Type 0
Stands needle hay = (before : Text) × (after : Text) × (hay ≡ before ++ (needle ++ after))

strip_prefix_whole :
    (needle s after : Text) → strip_prefix needle s ≡ some after → s ≡ needle ++ after
strip_prefix_whole [] s after h = cc
strip_prefix_whole (p ∷ needle) [] after h = cc
strip_prefix_whole (p ∷ needle) (c ∷ s) after h =
    let ih = strip_prefix_whole needle s after in ground (arith, ih)

strip_prefix_append : (needle after : Text) → strip_prefix needle (needle ++ after) ≡ some after
strip_prefix_append [] after = refl
strip_prefix_append (p ∷ needle) after =
    let ih = strip_prefix_append needle after in ground (arith, ih)

find_text-Stands :
    (needle hay : Text) (pos : ℕ) → find_text needle hay ≡ some pos → Stands needle hay
unfolding find_text
find_text-Stands [] [] pos h = ([], [], refl)
find_text-Stands (c ∷ needle) [] pos h = cc
find_text-Stands needle (c ∷ hay) pos h = elim (Option-cases (strip_prefix needle (c ∷ hay))) [
  | inl miss ↦ elim (Option-cases (find_text needle hay)) [
    | inl missing ↦ absurd (ground arith)
    | inr (q, found) ↦
        let (before, after, whole) = find_text-Stands needle hay q found in
        (c ∷ before, after, ap (◌∷◌ c) whole)
  ]
  | inr (after, here) ↦ ([], after, strip_prefix_whole needle (c ∷ hay) after here)
]

Stands-find_text :
    (needle before after : Text) → find_text needle (before ++ (needle ++ after)) ≢ none
unfolding find_text
Stands-find_text [] [] [] h = cc
Stands-find_text [] [] (c ∷ after) h = cc
Stands-find_text (p ∷ needle) [] after h =
    let e = strip_prefix_append (p ∷ needle) after in ground arith
Stands-find_text needle (c ∷ before) after h =
    let ih = Stands-find_text needle before after in
    elim (Option-cases (find_text needle (before ++ (needle ++ after)))) [
      | inl missing ↦ ih missing
      | inr (q, found) ↦ ground arith
    ]

find_text-none : (needle hay : Text) → (find_text needle hay ≡ none) ↔ (¬ Stands needle hay)
find_text-none needle hay = (
  λ missing (before, after, whole).
      Stands-find_text needle before after (subst (λ s. find_text needle s ≡ none) whole missing),
  λ nowhere. elim (Option-cases (find_text needle hay)) [
    | inl missing ↦ missing
    | inr (pos, found) ↦ absurd (nowhere (find_text-Stands needle hay pos found))
  ],
)

find_hits_kept :
    (ks : List (Text × Field)) (hay : Text) (h : Hit) (hs : List Hit)
    → find_hits ks hay (h ∷ hs) ≢ []
unfolding find_hits
find_hits_kept [] hay h hs e = cc
find_hits_kept ((needle, field) ∷ ks) hay h hs e = elim (Option-cases (find_text needle hay)) [
  | inl missing ↦ find_hits_kept ks hay h hs (rw missing at e)
  | inr (pos, found) ↦ elim (Bool-cases (is_claimed pos (h ∷ hs))) [
    | inl claimed ↦ find_hits_kept ks hay h hs (rw (found, claimed) at e)
    | inr free ↦ find_hits_kept ks hay h _ (rw (found, free) at e)
  ]
]

find_hits-none :
    (ks : List (Text × Field)) (hay : Text)
    → (find_hits ks hay [] ≡ []) ↔ All (λ k. ¬ Stands k.0 hay) ks
unfolding find_hits is_claimed
find_hits-none [] hay = (λ e. tt, λ a. refl)
find_hits-none ((needle, field) ∷ ks) hay =
    let (from, to) = find_text-none needle hay in
    let rest = find_hits-none ks hay in
    (
      λ e. elim (Option-cases (find_text needle hay)) [
        | inl missing ↦ (from missing, rest.0 (rw missing at e))
        | inr (pos, found) ↦ absurd (find_hits_kept ks hay _ [] (rw found at e))
      ],
      λ a. rw (to a.0) (rest.1 a.1),
    )

-- The spellings of the keys of a receipt, each with its colon.
abbrev pub spellings : List String
spellings =
    "submit date:" ∷ "done date:" ∷ "dlvrd:" ∷ "stat:" ∷ "text:" ∷ "sub:" ∷ "err:" ∷ "id:" ∷ []

-- None of the keys stands in the text, in upper or lower case.
abbrev pub NoKey : Text → Type 0
NoKey raw = All (λ key. ¬ Stands (code_points key) (to_ascii_lowercase raw)) spellings

parse-none : (raw : Text) → (parse raw ≡ ok none) ↔ NoKey raw
unfolding parse
parse-none raw =
    let (from, to) = find_hits-none keys (to_ascii_lowercase raw) in
    (λ e. from (no_hits (find_hits keys (to_ascii_lowercase raw) []) e), λ a. rw (to a) refl)
  where
    no_hits : (hits : List Hit) → parse_hits raw hits ≡ ok none → hits ≡ []
    no_hits [] e = refl
    no_hits (h ∷ hs) e = ground arith

ok_eq : {a b : Option Receipt} → ◌≡◌ {A = Result Panic (Option Receipt)} (ok a) (ok b) → a ≡ b
ok_eq h = cc

module _ (from_utf8_lossy : Bytes → Text) (lookups : TlvList) where
  -- The same in terms of the parser, whose result is `parsed`.
  receipt-parsed :
      (p : Pdu) (parsed : Option Receipt)
      → parse (from_utf8_lossy (body lookups p)) ≡ ok parsed
      → (receipt from_utf8_lossy lookups p ≡ ok none) ↔ (
          (is_dlr p ≡ false)
          ⊎ ((parsed ≡ none)
              × (lookups.receipted_message_id p.tlvs ≡ none)
              × (lookups.message_state p.tlvs ≡ none)))
  unfolding receipt
  receipt-parsed p parsed h = (λ e. ground arith, λ e. ground arith)

  -- A PDU has no receipt exactly when it is no delivery receipt, or none of the eight keys of a receipt
  -- stands in its body, in upper or lower case, and neither of the two parameters is there.
  pub receipt-none :
      (p : Pdu)
      → (receipt from_utf8_lossy lookups p ≡ ok none) ↔ (
          (is_dlr p ≡ false)
          ⊎ (NoKey (from_utf8_lossy (body lookups p))
              × (lookups.receipted_message_id p.tlvs ≡ none)
              × (lookups.message_state p.tlvs ≡ none)))
  receipt-none p =
      let raw = from_utf8_lossy (body lookups p) in
      let (parsed, read) = parse_returns raw in
      let (from, to) = parse-none raw in
      let (there, back) = receipt-parsed p parsed read in
      (
        λ e. elim (there e) [
          | inl other ↦ inl other
          | inr (nothing, no_id, no_state) ↦ inr (from (read ∙ ap ok nothing), no_id, no_state)
        ],
        λ h. elim h [
          | inl other ↦ back (inl other)
          | inr (no_key, no_id, no_state) ↦
              back (inr (ok_eq (sym read ∙ to no_key), no_id, no_state))
        ],
      )
