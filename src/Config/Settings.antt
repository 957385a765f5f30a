-- ===== src/Config/Settings.antt =====
-- What the variables of the environment set for each bind (Config/Environment.antt).
use siphon_smpp.Common.{
  ◌≡◌, refl, sym, ap, ◌∙◌, subst, inl, inr, Option, none, some, [], ◌∷◌, ◌&&◌, bytes_eq, or_else,
  unwrap_or, if◌then◌else◌, Bool-cases,
}
use siphon_smpp.Tlv.{Text}
use siphon_smpp.Config.Maps.{
  Map, get, upsert, IsSorted, get-upsert, get_other-upsert, upsert-IsSorted, bytes_eq_iff,
}
use siphon_smpp.Config.Expand.{Environment}
use siphon_smpp.Config.Environment.{Fields, bind_variable, enter, group}

abbrev value_under : (name f : Text) → Option (Text × Text) → Text → Option Text
value_under name f none value = none
value_under name f (some (n, g)) value =
    if bytes_eq n name && bytes_eq g f then some value else none

-- A field of a bind in the map of all.
abbrev pub field_of : (name f : Text) → Map Fields → Option Text
field_of name f by_name = get f (unwrap_or (get name by_name) [])

or_else_assoc : {A : Type 0} (a b c : Option A) → or_else (or_else a b) c ≡ or_else a (or_else b c)
or_else_assoc none b c = refl
or_else_assoc (some x) b c = refl

or_else-none : {A : Type 0} (a : Option A) → or_else a none ≡ a
or_else-none none = refl
or_else-none (some x) = refl

get_entered :
    (g f value : Text) (fields : Fields)
    → get f (upsert value g (λ _. value) fields)
      ≡ or_else (if bytes_eq g f then some value else none) (get f fields)
get_entered g f value fields = elim (Bool-cases (bytes_eq g f)) [
  | inl same ↦ rw same (
      subst (λ j. get j (upsert value g (λ _. value) fields) ≡ some value)
        ((bytes_eq_iff g f).0 same) (get-upsert value g (λ _. value) fields))
  | inr other ↦ rw other (get_other-upsert value f g (λ _. value) fields other)
]

module _ (unicode_lowercase : Text → Text) where
  -- The value of the last variable for this field of this bind.
  unfoldable pub setting : Environment → (name f : Text) → Option Text
  setting [] name f = none
  setting ((key, value) ∷ env) name f =
      let later = setting env name f in
      or_else later (value_under name f (bind_variable unicode_lowercase key) value)

  field_of-enter :
      (name f value : Text) (declared : Option (Text × Text)) (by_name : Map Fields)
      → field_of name f (enter unicode_lowercase declared value by_name)
        ≡ or_else (value_under name f declared value) (field_of name f by_name)
  field_of-enter name f value none by_name = refl
  field_of-enter name f value (some (n, g)) by_name = elim (Bool-cases (bytes_eq n name)) [
    | inl same ↦
        let e = (bytes_eq_iff n name).0 same in
        rw same (
          subst
            (λ j.
              field_of j f (upsert [] n (upsert value g (λ _. value)) by_name)
              ≡ or_else (if bytes_eq g f then some value else none) (field_of j f by_name))
            e
            (ap (λ o. get f (unwrap_or o []))
                (get-upsert [] n (upsert value g (λ _. value)) by_name)
              ∙ get_entered g f value (unwrap_or (get n by_name) [])))
    | inr other ↦ rw other (
        ap (λ o. get f (unwrap_or o []))
          (get_other-upsert [] name n (upsert value g (λ _. value)) by_name other))
  ]

  pub field_of-group :
      (env : Environment) (by_name : Map Fields) (name f : Text)
      → field_of name f (group unicode_lowercase env by_name)
        ≡ or_else (setting env name f) (field_of name f by_name)
  unfolding group setting
  field_of-group [] by_name name f = refl
  field_of-group ((key, value) ∷ env) by_name name f =
      let declared = bind_variable unicode_lowercase key in
      field_of-group env (enter unicode_lowercase declared value by_name) name f
      ∙ ap (or_else (setting env name f)) (field_of-enter name f value declared by_name)
      ∙ sym (
          or_else_assoc (setting env name f) (value_under name f declared value)
            (field_of name f by_name))

  enter-IsSorted :
      (declared : Option (Text × Text)) (value : Text) (by_name : Map Fields)
      → IsSorted by_name
      → IsSorted (enter unicode_lowercase declared value by_name)
  enter-IsSorted none value by_name h = h
  enter-IsSorted (some (name, f)) value by_name h =
      upsert-IsSorted [] name (upsert value f (λ _. value)) by_name h

  pub group-IsSorted :
      (env : Environment) (by_name : Map Fields)
      → IsSorted by_name
      → IsSorted (group unicode_lowercase env by_name)
  unfolding group
  group-IsSorted [] by_name h = h
  group-IsSorted ((key, value) ∷ env) by_name h =
      let declared = bind_variable unicode_lowercase key in
      group-IsSorted env (enter unicode_lowercase declared value by_name)
        (enter-IsSorted declared value by_name h)

  -- The field of a bind in the map is what the last variable for it sets.
  pub field_of-group_all :
      (env : Environment) (name f : Text)
      → field_of name f (group unicode_lowercase env []) ≡ setting env name f
  field_of-group_all env name f = field_of-group env [] name f ∙ or_else-none (setting env name f)
