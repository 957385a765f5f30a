-- ===== src/Config/Maps.antt =====
-- `BTreeMap<String, A>` as the list of its entries by ascending key: `get` and `entry`.
use mathlib.Core.List.{head-eq_of_cons-eq, tail-eq_of_cons-eq}
use siphon_smpp.Common.{
  ◌≡◌, ◌↔◌, refl, ap, ◌∙◌, inl, inr, true, false, Option, none, some, List, [], ◌∷◌, find, bytes_eq,
  option_map, unwrap_or, is_some, if◌then◌else◌, All, arith, ==_iff, Bool-cases, Option-cases,
  if_cases,
}
use siphon_smpp.Tlv.{Text}
use siphon_smpp.Config.Texts.{text_lt}

abbrev pub Map : Type 0 → Type 0
Map A = List (Text × A)

module _ {A : Type 0} where
  abbrev pub get : Text → Map A → Option A
  get key m = option_map (λ e. e.1) (find (λ e. bytes_eq e.0 key) m)

  unfoldable pub update : Text → (A → A) → Map A → Map A
  update key f [] = []
  update key f ((k, v) ∷ m) =
      let rest = update key f m in if bytes_eq k key then (k, f v) ∷ m else (k, v) ∷ rest

  unfoldable pub insert_new : Text → A → Map A → Map A
  insert_new key value [] = (key, value) ∷ []
  insert_new key value ((k, v) ∷ m) =
      let rest = insert_new key value m in
      if text_lt key k then (key, value) ∷ (k, v) ∷ m else (k, v) ∷ rest

  -- `m.entry(key)` set to what `f` makes of the value there, or of `default` where there is none.
  unfoldable pub upsert : (default : A) → Text → (A → A) → Map A → Map A
  unfolding update insert_new
  upsert default key f m =
      if is_some (get key m) then update key f m else insert_new key (f default) m

pub bytes_eq_iff : (s t : Text) → (bytes_eq s t ≡ true) ↔ (s ≡ t)
bytes_eq_iff [] [] = (λ h. refl, λ e. refl)
bytes_eq_iff [] (d ∷ t) = (λ h. cc, λ e. cc)
bytes_eq_iff (c ∷ s) [] = (λ h. cc, λ e. cc)
bytes_eq_iff (c ∷ s) (d ∷ t) =
    let ih = bytes_eq_iff s t in
    let h = ==_iff c d in
    (
      λ e. grind arith,
      λ e.
          (let i = ih.1 (tail-eq_of_cons-eq e) in
            let j = h.1 (head-eq_of_cons-eq e) in rw (i, j) refl),
    )

text_lt_irrefl : (s : Text) → text_lt s s ≡ false
unfolding text_lt
text_lt_irrefl [] = refl
text_lt_irrefl (c ∷ s) = let ih = text_lt_irrefl s in ground arith

text_lt_trans : (s t u : Text) → text_lt s t ≡ true → text_lt t u ≡ true → text_lt s u ≡ true
unfolding text_lt
text_lt_trans s t [] h h' = cc
text_lt_trans s [] (e ∷ u) h h' = cc
text_lt_trans [] (d ∷ t) (e ∷ u) h h' = refl
text_lt_trans (c ∷ s) (d ∷ t) (e ∷ u) h h' = let ih = text_lt_trans s t u in ground arith

text_lt_total : (s t : Text) → text_lt s t ≡ false → bytes_eq t s ≡ false → text_lt t s ≡ true
unfolding text_lt
text_lt_total [] [] h h' = ground arith
text_lt_total [] (d ∷ t) h h' = ground arith
text_lt_total (c ∷ s) [] h h' = refl
text_lt_total (c ∷ s) (d ∷ t) h h' = let ih = text_lt_total s t in ground arith

pub bytes_eq_refl : (s : Text) → bytes_eq s s ≡ true
bytes_eq_refl s = (bytes_eq_iff s s).1 refl

below_ne : (j k : Text) → text_lt j k ≡ true → bytes_eq j k ≡ false
below_ne j k h = elim (Bool-cases (bytes_eq j k)) [
  | inl t ↦ let e = ap (text_lt j) ((bytes_eq_iff j k).0 t) in let i = text_lt_irrefl j in cc
  | inr f ↦ f
]

-- The keys ascend.
unfoldable pub IsSorted : {A : Type 0} → Map A → Type 0
IsSorted [] = Unit
IsSorted ((k, v) ∷ m) = All (λ e. text_lt k e.0 ≡ true) m × IsSorted m

module _ {A : Type 0} where
  get-update :
      (key : Text) (f : A → A) (m : Map A) → get key (update key f m) ≡ option_map f (get key m)
  unfolding update
  get-update key f [] = refl
  get-update key f ((k, v) ∷ m) = let ih = get-update key f m in ground arith

  get-insert_new :
      (key : Text) (x : A) (m : Map A) → get key m ≡ none → get key (insert_new key x m) ≡ some x
  unfolding insert_new
  get-insert_new key x [] h = let r = bytes_eq_refl key in ground arith
  get-insert_new key x ((k, v) ∷ m) h =
      let ih = get-insert_new key x m in let r = bytes_eq_refl key in ground arith

  get_other-update :
      (j key : Text) (f : A → A) (m : Map A)
      → bytes_eq key j ≡ false
      → get j (update key f m) ≡ get j m
  unfolding update
  get_other-update j key f [] h = refl
  get_other-update j key f ((k, v) ∷ m) h =
      let ih = get_other-update j key f m h in
      elim (Bool-cases (bytes_eq k key)) [
        | inl t ↦
            let ne : bytes_eq k j ≡ false = ap (λ x. bytes_eq x j) ((bytes_eq_iff k key).0 t) ∙ h in
            ground arith
        | inr n ↦ ground arith
      ]

  get_other-insert_new :
      (j key : Text) (x : A) (m : Map A)
      → bytes_eq key j ≡ false
      → get j (insert_new key x m) ≡ get j m
  unfolding insert_new
  get_other-insert_new j key x [] h = ground arith
  get_other-insert_new j key x ((k, v) ∷ m) h =
      let ih = get_other-insert_new j key x m h in ground arith

  pub get-upsert :
      (d : A) (key : Text) (f : A → A) (m : Map A)
      → get key (upsert d key f m) ≡ some (f (unwrap_or (get key m) d))
  unfolding upsert
  get-upsert d key f m = elim (Option-cases (get key m)) [
    | inl e ↦ rw e (get-insert_new key (f d) m e)
    | inr (x, e) ↦ rw e (get-update key f m ∙ ap (option_map f) e)
  ]

  pub get_other-upsert :
      (d : A) (j key : Text) (f : A → A) (m : Map A)
      → bytes_eq key j ≡ false
      → get j (upsert d key f m) ≡ get j m
  unfolding upsert
  get_other-upsert d j key f m h = elim (Option-cases (get key m)) [
    | inl e ↦ rw e (get_other-insert_new j key (f d) m h)
    | inr (x, e) ↦ rw e (get_other-update j key f m h)
  ]

  All-update :
      (P : Text → Type 0) (key : Text) (f : A → A) (m : Map A)
      → All (λ e. P e.0) m
      → All (λ e. P e.0) (update key f m)
  unfolding update
  All-update P key f [] a = a
  All-update P key f ((k, v) ∷ m) a =
      if_cases (All (λ e. P e.0)) (bytes_eq k key) (λ _. a) (λ _. (a.0, All-update P key f m a.1))

  All-insert_new :
      (P : Text → Type 0) (key : Text) (x : A) (m : Map A)
      → P key
      → All (λ e. P e.0) m
      → All (λ e. P e.0) (insert_new key x m)
  unfolding insert_new
  All-insert_new P key x [] h a = (h, a)
  All-insert_new P key x ((k, v) ∷ m) h a =
      if_cases (All (λ e. P e.0)) (text_lt key k) (λ _. (h, a))
        (λ _. (a.0, All-insert_new P key x m h a.1))

  update-IsSorted : (key : Text) (f : A → A) (m : Map A) → IsSorted m → IsSorted (update key f m)
  unfolding update IsSorted
  update-IsSorted key f [] h = h
  update-IsSorted key f ((k, v) ∷ m) h =
      if_cases IsSorted (bytes_eq k key) (λ _. h)
        (λ _. (All-update (λ j. text_lt k j ≡ true) key f m h.0, update-IsSorted key f m h.1))

  below-All :
      (j k : Text) (m : Map A)
      → text_lt j k ≡ true
      → All (λ e. text_lt k e.0 ≡ true) m
      → All (λ e. text_lt j e.0 ≡ true) m
  below-All j k [] h a = a
  below-All j k (e ∷ m) h a = (text_lt_trans j k e.0 h a.0, below-All j k m h a.1)

  insert_new-IsSorted :
      (key : Text) (x : A) (m : Map A)
      → get key m ≡ none
      → IsSorted m
      → IsSorted (insert_new key x m)
  unfolding insert_new IsSorted
  insert_new-IsSorted key x [] g h = (tt, tt)
  insert_new-IsSorted key x ((k, v) ∷ m) g h =
      let absent : (bytes_eq k key ≡ false) × (get key m ≡ none) = ground arith in
      if_cases IsSorted (text_lt key k) (λ l. ((l, below-All key k m l h.0), h))
        (λ l. (
          All-insert_new (λ j. text_lt k j ≡ true) key x m (text_lt_total key k l absent.0) h.0,
          insert_new-IsSorted key x m absent.1 h.1,
        ))

  pub upsert-IsSorted :
      (d : A) (key : Text) (f : A → A) (m : Map A) → IsSorted m → IsSorted (upsert d key f m)
  unfolding upsert
  upsert-IsSorted d key f m h = elim (Option-cases (get key m)) [
    | inl e ↦ rw e (insert_new-IsSorted key (f d) m e h)
    | inr (x, e) ↦ rw e (update-IsSorted key f m h)
  ]

  entries_behind :
      (k : Text) (v : A) (m n : Map A)
      → All (λ e. text_lt k e.0 ≡ true) n
      → All (λ e. get e.0 m ≡ some e.1) n
      → All (λ e. get e.0 ((k, v) ∷ m) ≡ some e.1) n
  entries_behind k v m [] a b = tt
  entries_behind k v m (e ∷ n) a b = (rw (below_ne k e.0 a.0) b.0, entries_behind k v m n a.1 b.1)

  -- Every entry of a sorted map is the one that its key finds.
  pub get_entries : (m : Map A) → IsSorted m → All (λ e. get e.0 m ≡ some e.1) m
  unfolding IsSorted
  get_entries [] h = tt
  get_entries ((k, v) ∷ m) h =
      (rw (bytes_eq_refl k) refl, entries_behind k v m m h.0 (get_entries m h.1))
