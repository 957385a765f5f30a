-- ===== src/Pdu/Receipt/Slices.antt =====
-- The parser of receipts cuts its text within bounds: src/pyclasses.rs `Receipt::parse`.
use siphon_smpp.Common.{
  suc, ◌+◌, ◌≤◌, ◌<◌, ◌≡◌, inl, inr, refl, ap, subst, false, ◌&&◌, Option, none, some, List, [],
  ◌∷◌, ◌++◌, drop, length, leb, ltb, All, ok, arith, Bool-cases, Option-cases,
}
use siphon_smpp.Tlv.{Text}
use siphon_smpp.Pdu.Receipt.{
  Field, Receipt, keys, to_ascii_lowercase, find_text, Hit, is_claimed, find_hits, sort_hits,
  parse_hits, parse, empty,
}
use siphon_smpp.Pdu.Receipt.Needles.{
  starts-length, find_text-starts, length-drop, In, keys_nonempty,
}
use siphon_smpp.Pdu.Receipt.Sorting.{
  IsHit, Disjoint, hits-Disjoint, Apart, sort_hits-Chain, fill-Chain,
}

abbrev Free : Hit → List Hit → Type 0
Free h hits = All (λ g. (leb g.pos h.pos && ltb h.pos (g.pos + g.key_len)) ≡ false) hits

is_claimed-Free : (h : Hit) (hits : List Hit) → is_claimed h.pos hits ≡ false → Free h hits
unfolding is_claimed
is_claimed-Free h [] c = tt
is_claimed-Free h (g ∷ gs) c = (ground arith, is_claimed-Free h gs (ground arith))

All-append : (P : Hit → Type 0) (hs : List Hit) (h : Hit) → All P hs → P h → All P (hs ++ h ∷ [])
All-append P [] h a p = (p, tt)
All-append P (g ∷ gs) h a p = (a.0, All-append P gs h a.1 p)

hit_bounds :
    (hay : Text) (h : Hit) → IsHit hay h → (0 < h.key_len) × (h.pos + h.key_len ≤ length hay)
hit_bounds hay h (n, inn, l, st) =
    let full = starts-length n (drop h.pos hay) st in
    let left = length-drop h.pos hay in
    let some_ = keys_nonempty n inn in (omega arith, omega arith)

Apart-append :
    (hay : Text) (hits : List Hit) (h : Hit)
    → All (IsHit hay) hits
    → Apart (length hay) hits
    → IsHit hay h
    → Free h hits
    → Apart (length hay) (hits ++ h ∷ [])
Apart-append hay [] h a p i f = let (z, e) = hit_bounds hay h i in (z, e, tt, tt)
Apart-append hay (g ∷ gs) h (ig, a) (z, e, apart, p) i (f, fs) = (
  z,
  e,
  All-append (λ k. Disjoint k g × (0 < g.key_len)) gs h apart (hits-Disjoint hay h g i ig f, z),
  Apart-append hay gs h a p i fs,
)

abbrev AllIn : List (Text × Field) → Type 0
AllIn [] = Unit {0}
AllIn (entry ∷ rest) = In entry.0 keys × AllIn rest

find_hits-Apart :
    (ks : List (Text × Field)) (hay : Text) (hits : List Hit)
    → AllIn ks
    → All (IsHit hay) hits
    → Apart (length hay) hits
    → Apart (length hay) (find_hits ks hay hits)
unfolding find_hits
find_hits-Apart [] hay hits m a p = p
find_hits-Apart ((n, field) ∷ ks) hay hits (inn, m) a p = elim (Option-cases (find_text n hay)) [
  | inl missing ↦ rw missing (find_hits-Apart ks hay hits m a p)
  | inr (pos, found) ↦ elim (Bool-cases (is_claimed pos hits)) [
    | inl claimed ↦ rw (found, claimed) (find_hits-Apart ks hay hits m a p)
    | inr free ↦
        let h : Hit = record { pos = pos; key_len = length n; field = field } in
        let i : IsHit hay h = (n, inn, refl, find_text-starts n hay pos found) in
        rw (found, free)
          (find_hits-Apart ks hay (hits ++ h ∷ []) m (All-append (IsHit hay) hits h a i)
            (Apart-append hay hits h a p i (is_claimed-Free h hits free)))
  ]
]

length-lower : (raw : Text) → length (to_ascii_lowercase raw) ≡ length raw
unfolding to_ascii_lowercase
length-lower [] = refl
length-lower (c ∷ raw) = ap suc (length-lower raw)

nothing_sorted : (hs : List Hit) → All (λ h. All (λ g. Disjoint h g × (0 < g.key_len)) []) hs
nothing_sorted [] = tt
nothing_sorted (h ∷ hs) = (tt, nothing_sorted hs)

parse_hits-fits :
    (raw : Text) (hits : List Hit)
    → Apart (length raw) hits
    → (r : Option Receipt) × (parse_hits raw hits ≡ ok r)
parse_hits-fits raw [] p = (none, refl)
parse_hits-fits raw (h ∷ hs) p =
    let chain =
      sort_hits-Chain (length raw) (h ∷ hs) [] (omega arith) p (nothing_sorted (h ∷ hs)) in
    let (r, filled) = fill-Chain raw 0 (sort_hits (h ∷ hs) []) (empty raw) chain in
    (some r, rw filled)

keys_in : AllIn keys
keys_in = (
  inl refl,
  (
    inr (inl refl),
    (
      inr (inr (inl refl)),
      (
        inr (inr (inr (inl refl))),
        (
          inr (inr (inr (inr (inl refl)))),
          (
            inr (inr (inr (inr (inr (inl refl))))),
            (
              inr (inr (inr (inr (inr (inr (inl refl)))))),
              (inr (inr (inr (inr (inr (inr (inr (inl refl))))))), tt),
            ),
          ),
        ),
      ),
    ),
  ),
)

-- Whatever text it is given, the parser of receipts comes to an end without slicing out of range.
pub parse_returns : (raw : Text) → (r : Option Receipt) × (parse raw ≡ ok r)
unfolding parse
parse_returns raw = parse_hits-fits raw (find_hits keys (to_ascii_lowercase raw) []) (
    subst (λ n. Apart n (find_hits keys (to_ascii_lowercase raw) [])) (length-lower raw)
      (find_hits-Apart keys (to_ascii_lowercase raw) [] keys_in tt tt))
