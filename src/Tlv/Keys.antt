-- ===== src/Tlv/Keys.antt =====
-- A script's dict of optional parameters becomes a list without repeated tags: src/tlv.rs
-- `tlvs_from_py`, `tlvs_to_py`.
use siphon_smpp.Common.{
  ℕ, ◌≡◌, ◌≢◌, ◌↔◌, inl, inr, refl, sym, ◌∙◌, subst, false, some, List, [], ◌∷◌, ◌++◌, map, ◌==◌,
  any, All, Result, ok, err, arith, Bool-cases, and_then_steps,
}
use mathlib.Core.List.{append_assoc, append-nil, map-append}
use siphon_smpp.Tlv.{
  Bytes, Tlv, TlvTable, TlvError, PyValue, tag_from_py, value_to_bytes, tlvs_from_items,
  tlvs_from_py, set_item, fill_items, tlvs_to_py,
}

abbrev Absent : ℕ → List Tlv → Type 0
Absent tag = All (λ t. t.tag ≢ tag)

abbrev pub IsDistinct : List Tlv → Type 0
IsDistinct [] = Unit {0}
IsDistinct (t ∷ ts) = Absent t.tag ts × IsDistinct ts

any-Absent : (tag : ℕ) (ts : List Tlv) → any (λ t. t.tag == tag) ts ≡ false → Absent tag ts
any-Absent tag [] h = tt
any-Absent tag (t ∷ ts) h = ground (arith, any-Absent tag ts)

Absent-any : (tag : ℕ) (ts : List Tlv) → Absent tag ts → any (λ t. t.tag == tag) ts ≡ false
Absent-any tag [] h = refl
Absent-any tag (t ∷ ts) h = ground (arith, h.0, Absent-any tag ts h.1)

Absent-snoc :
    (tag : ℕ) (ts : List Tlv) (t : Tlv) → Absent tag ts → t.tag ≢ tag → Absent tag (ts ++ t ∷ [])
Absent-snoc tag [] t h k = (k, tt)
Absent-snoc tag (x ∷ ts) t h k = (h.0, Absent-snoc tag ts t h.1 k)

IsDistinct-snoc :
    (ts : List Tlv) (t : Tlv) → IsDistinct ts → Absent t.tag ts → IsDistinct (ts ++ t ∷ [])
IsDistinct-snoc [] t d a = (tt, tt)
IsDistinct-snoc (x ∷ ts) t d a =
    (Absent-snoc x.tag ts t d.0 (λ e. a.0 (sym e)), IsDistinct-snoc ts t d.1 a.1)

-- The other way: what stands before a new entry in a distinct list does not have its tag.
Absent-before :
    (ts : List Tlv) (t : Tlv) (rest : List Tlv) → IsDistinct (ts ++ t ∷ rest) → Absent t.tag ts
Absent-before [] t rest d = tt
Absent-before (x ∷ ts) t rest d =
    ((λ e. head_ne ts t rest d.0 (sym e)), Absent-before ts t rest d.1)
  where
    head_ne :
        (ts : List Tlv) (t : Tlv) (rest : List Tlv) → Absent x.tag (ts ++ t ∷ rest) → t.tag ≢ x.tag
    head_ne [] t rest a = a.0
    head_ne (y ∷ ts) t rest a = head_ne ts t rest a.1

ok_eq : {a b : List Tlv} → ◌≡◌ {A = Result TlvError (List Tlv)} (ok a) (ok b) → a ≡ b
ok_eq h = cc

err_ne_ok {ℓ κ} : {E : Type ℓ} {A : Type κ} {e : E} {a : A} → err e ≡ ok a → ⊥
err_ne_ok h = cc

set_item-fresh :
    (k : ℕ) (v : Bytes) (d : List (ℕ × Bytes))
    → All (λ entry. entry.0 ≢ k) d
    → set_item k v d ≡ d ++ (k, v) ∷ []
unfolding set_item
set_item-fresh k v [] h = refl
set_item-fresh k v ((j, w) ∷ d) h = ground (arith, h.0, set_item-fresh k v d h.1)

abbrev entry_of : Tlv → ℕ × Bytes
entry_of t = (t.tag, t.value)

Absent-entries :
    (tag : ℕ) (ts : List Tlv) → Absent tag ts → All (λ entry. entry.0 ≢ tag) (map entry_of ts)
Absent-entries tag [] h = tt
Absent-entries tag (t ∷ ts) h = (h.0, Absent-entries tag ts h.1)

fill_items-IsDistinct :
    (done ts : List Tlv)
    → IsDistinct (done ++ ts)
    → fill_items ts (map entry_of done) ≡ map entry_of (done ++ ts)
unfolding fill_items
fill_items-IsDistinct done [] d = rw append-nil
fill_items-IsDistinct done (t ∷ ts) d =
    rw
      (set_item-fresh t.tag t.value (map entry_of done)
        (Absent-entries t.tag done (Absent-before done t ts d)))
      (subst (λ l. fill_items ts l ≡ map entry_of (done ++ t ∷ ts))
        (map-append entry_of done (t ∷ []))
        (subst (λ l. fill_items ts (map entry_of (done ++ t ∷ [])) ≡ map entry_of l)
          (append_assoc done (t ∷ []) ts)
          (fill_items-IsDistinct (done ++ t ∷ []) ts
            (subst IsDistinct (sym (append_assoc done (t ∷ []) ts)) d))))

-- A script reads a list without repeated tags as that list, tag by tag and in its order.
pub tlvs_to_py-IsDistinct :
    (ts : List Tlv) → IsDistinct ts → tlvs_to_py ts ≡ map (λ t. (t.tag, t.value)) ts
unfolding tlvs_to_py
tlvs_to_py-IsDistinct ts d = fill_items-IsDistinct [] ts d

module _ (table : TlvTable) where
  -- Item by item, in order: the key resolves to the tag and the value encodes to the bytes.
  abbrev pub Converts : List (PyValue × PyValue) → List Tlv → Type 0
  Converts [] [] = Unit {0}
  Converts [] (t ∷ ts) = ⊥
  Converts (item ∷ items) [] = ⊥
  Converts (item ∷ items) (t ∷ ts) =
      (tag_from_py table item.0 ≡ ok t.tag)
      × (value_to_bytes table t.tag item.1 ≡ ok t.value)
      × Converts items ts

  from_items_sound :
      (out : List Tlv) (items : List (PyValue × PyValue)) (tlvs : List Tlv)
      → IsDistinct out
      → tlvs_from_items table out items ≡ ok tlvs
      → (new : List Tlv) × (tlvs ≡ out ++ new) × Converts items new × IsDistinct tlvs
  unfolding tlvs_from_items
  from_items_sound out [] tlvs d h =
      ([], sym (append-nil out ∙ ok_eq h), tt, subst IsDistinct (ok_eq h) d)
  from_items_sound out ((key, value) ∷ items) tlvs d h =
      let (tag, ktag, rest) = and_then_steps (tag_from_py table key) _ h in
      elim (Bool-cases (any (λ t. t.tag == tag) out)) [
        | inl twice ↦ absurd (err_ne_ok (rw twice at rest))
        | inr fresh ↦
            let (v, kvalue, more) =
              and_then_steps (value_to_bytes table tag value) _ (rw fresh at rest) in
            let t : Tlv = record { tag = tag; value = v } in
            let (new, whole, converts, distinct) =
              from_items_sound (out ++ t ∷ []) items tlvs
                (IsDistinct-snoc out t d (any-Absent tag out fresh)) more in
            (t ∷ new, whole ∙ append_assoc out (t ∷ []) new, (ktag, kvalue, converts), distinct)
      ]

  from_items_complete :
      (out : List Tlv) (items : List (PyValue × PyValue)) (new : List Tlv)
      → Converts items new
      → IsDistinct (out ++ new)
      → tlvs_from_items table out items ≡ ok (out ++ new)
  unfolding tlvs_from_items
  from_items_complete out [] [] c d = rw append-nil
  from_items_complete out [] (t ∷ new) c d = absurd c
  from_items_complete out (item ∷ items) [] c d = absurd c
  from_items_complete out ((key, value) ∷ items) (t ∷ new) c d =
      rw (c.0, Absent-any t.tag out (Absent-before out t new d), c.1)
        (subst (λ l. tlvs_from_items table (out ++ t ∷ []) items ≡ ok l)
          (append_assoc out (t ∷ []) new)
          (from_items_complete (out ++ t ∷ []) items new c.2
            (subst IsDistinct (sym (append_assoc out (t ∷ []) new)) d)))

  -- A dict is accepted as a list of parameters exactly when the list is the dict's items in order, each
  -- key resolved and each value encoded for its tag, and no tag stands twice: two keys for one tag,
  -- such as a name and its number, are refused.
  pub tlvs_from_py_exact :
      (dict : List (PyValue × PyValue)) (tlvs : List Tlv)
      → (tlvs_from_py table (some dict) ≡ ok tlvs) ↔ (Converts dict tlvs × IsDistinct tlvs)
  unfolding tlvs_from_py
  tlvs_from_py_exact dict tlvs = (
    λ h.
        let (new, whole, converts, distinct) = from_items_sound [] dict tlvs tt h in
        (subst (Converts dict) (sym whole) converts, distinct),
    λ h. from_items_complete [] dict tlvs h.0 h.1,
  )

  -- What a script sets is what it reads back: the dict of an accepted list has one entry for each item,
  -- in order, under the tag that the item's key names.
  pub tlvs_round_trip :
      (dict : List (PyValue × PyValue)) (tlvs : List Tlv)
      → tlvs_from_py table (some dict) ≡ ok tlvs
      → Converts dict tlvs × (tlvs_to_py tlvs ≡ map (λ t. (t.tag, t.value)) tlvs)
  tlvs_round_trip dict tlvs h =
      let (converts, distinct) = (tlvs_from_py_exact dict tlvs).0 h in
      (converts, tlvs_to_py-IsDistinct tlvs distinct)
