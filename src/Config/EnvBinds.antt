-- ===== src/Config/EnvBinds.antt =====
-- The binds that the environment declares are those that its variables set (Config/Environment.antt).
use siphon_smpp.Common.{
  ◌≡◌, refl, sym, ap, ◌∙◌, subst, inl, inr, true, false, Option, none, some, List, [], ◌∷◌, any,
  bytes_eq, unwrap_or, String, code_points, Result, ok, ◌>>=◌, All, All-map, Bool-cases,
  and_then_steps,
}
use siphon_smpp.Tlv.{Text}
use siphon_smpp.Config.Types.{BindConfig, ConfigError}
use siphon_smpp.Config.Texts.{text_lt}
use siphon_smpp.Config.Maps.{Map, get, IsSorted, get_entries}
use siphon_smpp.Config.Expand.{Environment}
use siphon_smpp.Config.Environment.{
  Fields, nonempty, field, env_bind, push_bind, env_binds, group, binds_from_env,
}
use siphon_smpp.Config.Settings.{setting, field_of, field_of-group_all, group-IsSorted}
use siphon_smpp.Config.EnvFields.{HasSettings, env_bind-HasSettings}

-- What a round of the loop over the entries leaves.
data Pushed (o : Option Text) (bind : Text → Result ConfigError BindConfig)
    (rest : Result ConfigError (List BindConfig)) (binds : List BindConfig) : Type 0 where
  skipped : o ≡ none → rest ≡ ok binds → Pushed o bind rest binds
  pushed :
      (host : Text) (b : BindConfig) (out : List BindConfig)
      → o ≡ some host
      → bind host ≡ ok b
      → rest ≡ ok out
      → b ∷ out ≡ binds
      → Pushed o bind rest binds

push_bind-Pushed :
    (o : Option Text) (bind : Text → Result ConfigError BindConfig)
    (rest : Result ConfigError (List BindConfig)) (binds : List BindConfig)
    → push_bind o bind rest ≡ ok binds
    → Pushed o bind rest binds
push_bind-Pushed none bind rest binds h = skipped refl h
push_bind-Pushed (some host) bind rest binds h =
    let (b, hb, h') = and_then_steps (bind host) (λ b. rest >>= λ out. ok (b ∷ out)) h in
    let (out, ho, e) = and_then_steps rest (λ out. ok (b ∷ out)) h' in
    pushed host b out refl hb ho cc

-- The names ascend.
AllAbove : Text → List BindConfig → Type 0
AllAbove name binds = All (λ b. text_lt name b.name ≡ true) binds

unfoldable pub NamesAscend : List BindConfig → Type 0
unfolding AllAbove
NamesAscend [] = Unit
NamesAscend (b ∷ binds) = AllAbove b.name binds × NamesAscend binds

module _ (unicode_lowercase : Text → Text) where
  env_binds-Pushed :
      (name : Text) (fields : Fields) (by_name : Map Fields) (binds : List BindConfig)
      → env_binds unicode_lowercase ((name, fields) ∷ by_name) ≡ ok binds
      → Pushed
          (nonempty (field fields "HOST"))
          (env_bind unicode_lowercase name fields)
          (env_binds unicode_lowercase by_name)
          binds
  unfolding env_binds
  env_binds-Pushed name fields by_name binds h =
      push_bind-Pushed (nonempty (field fields "HOST")) (env_bind unicode_lowercase name fields)
        (env_binds unicode_lowercase by_name) binds h

  no_entries_left :
      (binds : List BindConfig) → env_binds unicode_lowercase [] ≡ ok binds → [] ≡ binds
  unfolding env_binds
  no_entries_left binds h = cc

  -- Each bind has the settings of its name, when each entry's fields are those of its key.
  env_binds-HasSettings :
      (at : Text → String → Option Text) (by_name : Map Fields) (binds : List BindConfig)
      → All (λ e. (f : String) → field e.1 f ≡ at e.0 f) by_name
      → env_binds unicode_lowercase by_name ≡ ok binds
      → All (λ b. HasSettings unicode_lowercase (at b.name) b) binds
  env_binds-HasSettings at [] binds a h =
      subst (All (λ b. HasSettings unicode_lowercase (at b.name) b)) (no_entries_left binds h) tt
  env_binds-HasSettings at ((name, fields) ∷ by_name) binds a h =
      let ih = env_binds-HasSettings at by_name in
      elim (env_binds-Pushed name fields by_name binds h) [
        | skipped e rest ↦ ih binds a.1 rest
        | pushed host b out e made rest whole ↦
            let (named, set) = env_bind-HasSettings unicode_lowercase name host fields b e made in
            subst (All (λ b. HasSettings unicode_lowercase (at b.name) b)) whole (
              subst (λ g. HasSettings unicode_lowercase g b) ((λ i f. a.0 f i) ∙ ap at (sym named))
                  set,
              ih out a.1 rest,
            )
      ]

  env_binds-Above :
      (name : Text) (by_name : Map Fields) (binds : List BindConfig)
      → All (λ e. text_lt name e.0 ≡ true) by_name
      → env_binds unicode_lowercase by_name ≡ ok binds
      → AllAbove name binds
  unfolding AllAbove
  env_binds-Above name [] binds a h = subst (AllAbove name) (no_entries_left binds h) tt
  env_binds-Above name ((n, fields) ∷ by_name) binds a h =
      let ih = env_binds-Above name by_name in
      elim (env_binds-Pushed n fields by_name binds h) [
        | skipped e rest ↦ ih binds a.1 rest
        | pushed host b out e made rest whole ↦
            let (named, set) = env_bind-HasSettings unicode_lowercase n host fields b e made in
            subst (AllAbove name) whole (ap (text_lt name) named ∙ a.0, ih out a.1 rest)
      ]

  env_binds-NamesAscend :
      (by_name : Map Fields) (binds : List BindConfig)
      → IsSorted by_name
      → env_binds unicode_lowercase by_name ≡ ok binds
      → NamesAscend binds
  unfolding NamesAscend IsSorted
  env_binds-NamesAscend [] binds s h = subst NamesAscend (no_entries_left binds h) tt
  env_binds-NamesAscend ((n, fields) ∷ by_name) binds s h =
      let ih = env_binds-NamesAscend by_name in
      elim (env_binds-Pushed n fields by_name binds h) [
        | skipped e rest ↦ ih binds s.1 rest
        | pushed host b out e made rest whole ↦
            let (named, set) = env_bind-HasSettings unicode_lowercase n host fields b e made in
            subst NamesAscend whole (
              subst (λ n. AllAbove n out) (sym named) (env_binds-Above n by_name out s.0 rest),
              ih out s.1 rest,
            )
      ]

  -- A name whose entry has a host is the name of a bind.
  env_binds-any :
      (name : Text) (by_name : Map Fields) (binds : List BindConfig) (host : Text)
      → nonempty (field_of name (code_points "HOST") by_name) ≡ some host
      → env_binds unicode_lowercase by_name ≡ ok binds
      → any (λ b. bytes_eq b.name name) binds ≡ true
  env_binds-any name [] binds host found h = cc
  env_binds-any name ((n, fields) ∷ by_name) binds host found h =
      let ih = env_binds-any name by_name in
      elim (env_binds-Pushed n fields by_name binds h) [
        | skipped e rest ↦ elim (Bool-cases (bytes_eq n name)) [
          | inl same ↦ let f = sym e ∙ of_entry same in cc
          | inr other ↦ ih binds host (of_rest other) rest
        ]
        | pushed host' b out e made rest whole ↦
            let (named, set) = env_bind-HasSettings unicode_lowercase n host' fields b e made in
            let here = ap (λ n. bytes_eq n name) named in
            subst (λ binds. any (λ b. bytes_eq b.name name) binds ≡ true) whole
              (elim (Bool-cases (bytes_eq n name)) [
                | inl same ↦ rw (here ∙ same) refl
                | inr other ↦ rw (here ∙ other) (ih out host (of_rest other) rest)
              ])
      ]
    where
      of_entry : bytes_eq n name ≡ true → nonempty (field fields "HOST") ≡ some host
      of_entry same = sym (rw same refl) ∙ found

      of_rest :
          bytes_eq n name ≡ false
          → nonempty (field_of name (code_points "HOST") by_name) ≡ some host
      of_rest other = sym (rw other refl) ∙ found

  pub setting-entries :
      (env : Environment)
      → All
          (λ e. (f : String) → field e.1 f ≡ setting unicode_lowercase env e.0 (code_points f))
          (group unicode_lowercase env [])
  unfolding IsSorted
  setting-entries env =
      let by_name = group unicode_lowercase env [] in
      All-map by_name
        (λ e found f.
          ap (λ o. get (code_points f) (unwrap_or o [])) (sym found)
          ∙ field_of-group_all unicode_lowercase env e.0 (code_points f))
        (get_entries by_name (group-IsSorted unicode_lowercase env [] tt))

  -- When the variables are read without an error, each bind has the settings that the last variables for
  -- its name give, with the defaults of those that are missing, its port and rate cut to 16 and 32 bits
  -- and TLS when TLS says so; the names ascend, so each has one bind; and a name whose HOST is set and not
  -- empty has a bind.
  pub binds_from_env_exact :
      (env : Environment) (binds : List BindConfig)
      → binds_from_env unicode_lowercase env ≡ ok binds
      → All
          (λ b.
            HasSettings unicode_lowercase
              (λ f. setting unicode_lowercase env b.name (code_points f))
              b)
          binds
        × NamesAscend binds
        × ((name host : Text)
            → nonempty (setting unicode_lowercase env name (code_points "HOST")) ≡ some host
            → any (λ b. bytes_eq b.name name) binds ≡ true)
  unfolding binds_from_env IsSorted
  binds_from_env_exact env binds h =
      let by_name = group unicode_lowercase env [] in
      (
        env_binds-HasSettings (λ n f. setting unicode_lowercase env n (code_points f)) by_name binds
            (setting-entries env) h,
        env_binds-NamesAscend by_name binds (group-IsSorted unicode_lowercase env [] tt) h,
        λ name host found.
            env_binds-any name by_name binds host
              (ap nonempty (field_of-group_all unicode_lowercase env name (code_points "HOST"))
                ∙ found)
              h,
      )
