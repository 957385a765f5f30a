-- ===== src/Pdu/Receipt/Sorting.antt =====
-- The hits of a receipt in the order of their positions: src/pyclasses.rs `Receipt::parse`.
use siphon_smpp.Common.{
  ℕ, ◌+◌, ◌-◌, ◌≤◌, ◌<◌, ◌≡◌, ◌⊎◌, inl, inr, refl, ap, ◌∙◌, subst, true, false, ◌&&◌, List, [], ◌∷◌,
  drop, length, leb, ltb, All, ok, arith, Bool-cases,
}
use siphon_smpp.Tlv.{Text}
use siphon_smpp.Pdu.Receipt.{Receipt, keys, Hit, insert_hit, sort_hits, slice, end_of, fill}
use siphon_smpp.Pdu.Receipt.Needles.{
  starts, agree, starts-agree, starts-drop, drop-drop, length-drop, tails_apart-drop, In,
  keys_apart,
}

-- A needle of a key that stands where the hit says.
abbrev pub IsHit : Text → Hit → Type 0
IsHit hay h = (n : Text) × In n keys × (h.key_len ≡ length n) × (starts n (drop h.pos hay) ≡ true)

abbrev pub Disjoint : Hit → Hit → Type 0
Disjoint a b = (a.pos + a.key_len ≤ b.pos) ⊎ (b.pos + b.key_len ≤ a.pos)

no_overlap :
    (hay : Text) (a b : Hit) → IsHit hay a → IsHit hay b → b.pos < a.pos → b.pos + b.key_len ≤ a.pos
no_overlap hay a b (n, inn, ln, sn) (k, ink, lk, sk) lt =
    elim (Bool-cases (leb (b.pos + b.key_len) a.pos)) [
      | inl fine ↦ ground arith
      | inr over ↦
          let i = a.pos - b.pos in
          let at : b.pos + i ≡ a.pos = omega arith in
          let inside : starts (drop i k) (drop a.pos hay) ≡ true =
            subst (λ s. starts (drop i k) s ≡ true)
              (drop-drop b.pos i hay ∙ ap (λ q. drop q hay) at)
              (starts-drop i k (drop b.pos hay) sk) in
          let agrees = starts-agree (drop i k) n (drop a.pos hay) inside sn in
          let step : drop (i - 1) (drop 1 k) ≡ drop i k =
            drop-drop 1 (i - 1) k ∙ ap (λ q. drop q k) (omega arith) in
          let apart =
            tails_apart-drop (drop 1 k) n (i - 1) (keys_apart k n ink inn)
              (let l = length-drop 1 k in ground (arith, l)) in
          let differs : agree (drop i k) n ≡ false = subst (λ s. agree s n ≡ false) step apart in cc
    ]

pub hits-Disjoint :
    (hay : Text) (a b : Hit)
    → IsHit hay a
    → IsHit hay b
    → (leb b.pos a.pos && ltb a.pos (b.pos + b.key_len)) ≡ false
    → Disjoint a b
hits-Disjoint hay a b ia ib free = elim (Bool-cases (leb b.pos a.pos)) [
  | inl le ↦ inr (ground arith)
  | inr gt ↦ inl (no_overlap hay b a ib ia (ground arith))
]

-- The hits of a list that starts at `from` follow each other and end within `n`.
abbrev Chain : ℕ → ℕ → List Hit → Type 0
Chain n from [] = from ≤ n
Chain n from (h ∷ hs) = (from ≤ h.pos) × Chain n (h.pos + h.key_len) hs

Chain-le : (n from : ℕ) (hs : List Hit) → Chain n from hs → from ≤ n
Chain-le n from [] c = c
Chain-le n from (h ∷ hs) c = let rest = Chain-le n (h.pos + h.key_len) hs c.1 in omega arith

insert_hit-Chain :
    (n from : ℕ) (h : Hit) (hs : List Hit)
    → Chain n from hs
    → from ≤ h.pos
    → h.pos + h.key_len ≤ n
    → 0 < h.key_len
    → All (λ g. Disjoint h g × (0 < g.key_len)) hs
    → Chain n from (insert_hit h hs)
unfolding insert_hit
insert_hit-Chain n from h [] c f e z d = (f, e)
insert_hit-Chain n from h (g ∷ gs) c f e z ((d, y), ds) = elim (Bool-cases (ltb h.pos g.pos)) [
  | inl lt ↦
      let before : h.pos + h.key_len ≤ g.pos = elim d [
        | inl l ↦ l
        | inr r ↦ absurd (ground arith)
      ] in
      rw lt (f, (before, c.1))
  | inr ge ↦
      let after : g.pos + g.key_len ≤ h.pos = elim d [
        | inl l ↦ absurd (ground arith)
        | inr r ↦ r
      ] in
      rw ge (c.0, insert_hit-Chain n (g.pos + g.key_len) h gs c.1 after e z ds)
]

insert_hit-All :
    (P : Hit → Type 0) (h : Hit) (hs : List Hit) → P h → All P hs → All P (insert_hit h hs)
unfolding insert_hit
insert_hit-All P h [] p a = (p, tt)
insert_hit-All P h (g ∷ gs) p a = elim (Bool-cases (ltb h.pos g.pos)) [
  | inl lt ↦ rw lt (p, a)
  | inr ge ↦ rw ge (a.0, insert_hit-All P h gs p a.1)
]

-- Hits that fit their text, each apart from those after it.
abbrev pub Apart : ℕ → List Hit → Type 0
Apart n [] = Unit {0}
Apart n (h ∷ hs) =
    (0 < h.key_len)
    × (h.pos + h.key_len ≤ n)
    × All (λ g. Disjoint g h × (0 < h.key_len)) hs
    × Apart n hs

pub sort_hits-Chain :
    (n : ℕ) (hs sorted : List Hit)
    → Chain n 0 sorted
    → Apart n hs
    → All (λ h. All (λ g. Disjoint h g × (0 < g.key_len)) sorted) hs
    → Chain n 0 (sort_hits hs sorted)
unfolding sort_hits
sort_hits-Chain n [] sorted c a d = c
sort_hits-Chain n (h ∷ hs) sorted c (z, e, apart, later) (d, ds) =
    sort_hits-Chain n hs (insert_hit h sorted) (insert_hit-Chain n 0 h sorted c (omega arith) e z d)
      later (spread hs apart ds)
  where
    spread :
        (rest : List Hit)
        → All (λ g. Disjoint g h × (0 < h.key_len)) rest
        → All (λ k. All (λ g. Disjoint k g × (0 < g.key_len)) sorted) rest
        → All (λ k. All (λ g. Disjoint k g × (0 < g.key_len)) (insert_hit h sorted)) rest
    spread [] a b = tt
    spread (k ∷ rest) (p, a) (q, b) =
        (insert_hit-All (λ g. Disjoint k g × (0 < g.key_len)) h sorted p q, spread rest a b)

end_of-Chain :
    (raw : Text) (from : ℕ) (hs : List Hit)
    → Chain (length raw) from hs
    → (from ≤ end_of raw hs) × (end_of raw hs ≤ length raw)
end_of-Chain raw from [] c = (c, omega arith)
end_of-Chain raw from (h ∷ hs) c =
    let l = Chain-le (length raw) (h.pos + h.key_len) hs c.1 in (c.0, omega arith)

pub fill-Chain :
    (raw : Text) (from : ℕ) (hs : List Hit) (out : Receipt)
    → Chain (length raw) from hs
    → (r : Receipt) × (fill raw hs out ≡ ok r)
unfolding fill slice
fill-Chain raw from [] out c = (out, refl)
fill-Chain raw from (h ∷ hs) out c =
    let (low, high) = end_of-Chain raw (h.pos + h.key_len) hs c.1 in
    let fits : (leb (h.pos + h.key_len) (end_of raw hs) && leb (end_of raw hs) (length raw))
        ≡ true =
      ground arith in
    rw fits (fill-Chain raw (h.pos + h.key_len) hs _ c.1)
