-- ===== src/Pdu/Receipt/Needles.antt =====
-- The keys of a receipt as texts that stand in another: src/pyclasses.rs `Receipt::parse`.
use siphon_smpp.Common.{
  ℕ, zero, suc, ◌+◌, ◌-◌, ◌≤◌, ◌<◌, ◌≡◌, ◌⊎◌, inl, inr, refl, sym, ap, ◌∙◌, subst, Bool, true,
  false, not, ◌&&◌, some, List, [], ◌∷◌, drop, length, ltb, ◌==◌, is_some, arith, Bool-cases,
  Option-cases,
}
use siphon_smpp.Tlv.{Text, strip_prefix}
use siphon_smpp.Pdu.Receipt.{Field, keys, find_text}

abbrev pub starts : Text → Text → Bool
starts needle s = is_some (strip_prefix needle s)

-- One of the two texts begins with the other.
abbrev pub agree : Text → Text → Bool
agree [] ys = true
agree (x ∷ xs) [] = true
agree (x ∷ xs) (y ∷ ys) = x == y && agree xs ys

pub starts-agree : (n k s : Text) → starts n s ≡ true → starts k s ≡ true → agree n k ≡ true
starts-agree [] k s p q = refl
starts-agree (x ∷ n) [] s p q = refl
starts-agree (x ∷ n) (y ∷ k) [] p q = cc
starts-agree (x ∷ n) (y ∷ k) (c ∷ s) p q =
    let rest = starts-agree n k s (ground arith) (ground arith) in ground (arith, rest)

pub starts-drop : (i : ℕ) (n s : Text) → starts n s ≡ true → starts (drop i n) (drop i s) ≡ true
starts-drop zero n s p = p
starts-drop (suc i) [] s p = refl
starts-drop (suc i) (x ∷ n) [] p = cc
starts-drop (suc i) (x ∷ n) (c ∷ s) p = starts-drop i n s (ground arith)

pub starts-length : (n s : Text) → starts n s ≡ true → length n ≤ length s
starts-length [] s p = omega arith
starts-length (x ∷ n) [] p = cc
starts-length (x ∷ n) (c ∷ s) p = let rest = starts-length n s (ground arith) in omega arith

pub find_text-starts :
    (n hay : Text) (p : ℕ) → find_text n hay ≡ some p → starts n (drop p hay) ≡ true
unfolding find_text
find_text-starts [] [] p h = refl
find_text-starts (x ∷ n) [] p h = cc
find_text-starts n (c ∷ hay) p h = elim (Bool-cases (starts n (c ∷ hay))) [
  | inl here ↦
      let at : 0 ≡ p = ground arith in subst (λ q. starts n (drop q (c ∷ hay)) ≡ true) at here
  | inr miss ↦ elim (Option-cases (find_text n hay)) [
    | inl none_ ↦ cc
    | inr (q, found) ↦
        let at : suc q ≡ p = ground arith in
        subst (λ r. starts n (drop r (c ∷ hay)) ≡ true) at (find_text-starts n hay q found)
  ]
]

drop_nil : (i : ℕ) → drop {A = ℕ} i [] ≡ []
drop_nil zero = refl
drop_nil (suc i) = refl

pub drop-drop : (p i : ℕ) (s : Text) → drop i (drop p s) ≡ drop (p + i) s
drop-drop zero i s = let at : i ≡ 0 + i = omega arith in ap (λ q. drop q s) at
drop-drop (suc p) i [] = drop_nil i ∙ sym (drop_nil (suc p + i))
drop-drop (suc p) i (c ∷ s) =
    let at : suc (p + i) ≡ suc p + i = omega arith in drop-drop p i s ∙ ap (λ q. drop q (c ∷ s)) at

pub length-drop : (p : ℕ) (s : Text) → length (drop p s) ≡ length s - p
length-drop zero s = omega arith
length-drop (suc p) [] = omega arith
length-drop (suc p) (c ∷ s) = let rest = length-drop p s in omega arith

abbrev pub tails_apart : Text → Text → Bool
tails_apart [] k = true
tails_apart (x ∷ xs) k = not (agree (x ∷ xs) k) && tails_apart xs k

pub tails_apart-drop :
    (m k : Text) (i : ℕ) → tails_apart m k ≡ true → i < length m → agree (drop i m) k ≡ false
tails_apart-drop [] k i t l = absurd (omega arith)
tails_apart-drop (x ∷ m) k zero t l = ground arith
tails_apart-drop (x ∷ m) k (suc i) t l = tails_apart-drop m k i (ground arith) (omega arith)

abbrev pub In : Text → List (Text × Field) → Type 0
In n [] = ⊥
In n (entry ∷ rest) = (n ≡ entry.0) ⊎ In n rest

abbrev every : (Text → Bool) → List (Text × Field) → Bool
every p [] = true
every p (entry ∷ rest) = p entry.0 && every p rest

every_lem :
    (p : Text → Bool) (ks : List (Text × Field)) (n : Text)
    → every p ks ≡ true
    → In n ks
    → p n ≡ true
every_lem p [] n e i = absurd i
every_lem p (k ∷ ks) n e (inl q) = ap p q ∙ ground arith
every_lem p (k ∷ ks) n e (inr i) = every_lem p ks n (ground arith) i

-- No key begins inside another.
pub keys_apart : (n k : Text) → In n keys → In k keys → tails_apart (drop 1 n) k ≡ true
keys_apart n k i j =
    every_lem (λ b. tails_apart (drop 1 n) b) keys k
      (every_lem (λ a. every (λ b. tails_apart (drop 1 a) b) keys) keys n refl i) j

pub keys_nonempty : (n : Text) → In n keys → 0 < length n
keys_nonempty n i = let h = every_lem (λ a. ltb 0 (length a)) keys n refl i in ground arith
