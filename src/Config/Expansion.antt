-- ===== src/Config/Expansion.antt =====
-- What `expand_env_vars` makes of a text (Config/Expand.antt), told without the loop.
use mathlib.Core.List.{append_assoc}
use siphon_smpp.Common.{
  ℕ, zero, suc, ◌+◌, ◌<◌, ◌≡◌, refl, sym, ap, ◌∙◌, subst, inl, inr, none, some, [], ◌++◌, length,
  length-append, unwrap_or, arith, Option-cases,
}
use siphon_smpp.Tlv.{Text}
use siphon_smpp.Config.Texts.{split_once}
use siphon_smpp.Config.Splits.{Free, Splits, split_once-none, split_once-Splits}
use siphon_smpp.Config.Expand.{
  Environment, dollar_brace, close_brace, value_of, expand_loop, expand_env_vars,
}

-- `Expands s t`: a text without `${` stands for itself; the first `${` that no `}` follows stays; and
-- the first `${` that a `}` follows gives way, with all up to that `}`, to the value it refers to.
pub data Expands (env : Environment) : Text → Text → Type 0 where
  plain : (s : Text) → Free dollar_brace s → Expands env s s
  unclosed :
      (before after t : Text)
      → Free dollar_brace before
      → Free close_brace after
      → Expands env after t
      → Expands env (before ++ dollar_brace ++ after) (before ++ dollar_brace ++ t)
  reference :
      (before spec after t : Text)
      → Free dollar_brace before
      → Free close_brace spec
      → Expands env after t
      → Expands env
          (before ++ dollar_brace ++ (spec ++ close_brace ++ after))
          (before ++ value_of env spec ++ t)

append_assoc₄ : (a b c d : Text) → a ++ b ++ c ++ d ≡ a ++ (b ++ c ++ d)
append_assoc₄ a b c d =
    append_assoc (a ++ b) c d
    ∙ append_assoc a b (c ++ d)
    ∙ ap (λ t. a ++ t) (sym (append_assoc b c d))

-- What stands after the pattern is shorter than the text.
length-Splits :
    (pat s before after : Text)
    → Splits pat s (before, after)
    → length s ≡ length before + length pat + length after
unfolding Splits
length-Splits pat s before after (e, f) =
    ap length e
    ∙ length-append (before ++ pat) after
    ∙ ap (λ n. n + length after) (length-append before pat)

module _ (env : Environment) where
  -- What the loop gives from `out` and `rest`: `out` and what `rest` expands to.
  abbrev Done : ℕ → (out rest : Text) → Type 0
  Done fuel out rest =
      (t : Text) × (expand_loop env fuel out rest ≡ some (out ++ t)) × Expands env rest t

  unclosed-Done :
      (fuel : ℕ) (out rest before after : Text)
      → split_once dollar_brace rest ≡ some (before, after)
      → split_once close_brace after ≡ none
      → Done fuel (out ++ before ++ dollar_brace) after
      → Done (suc fuel) out rest
  unfolding expand_loop Splits
  unclosed-Done fuel out rest before after e e' (t, loop, expands) =
      let (split, free) = split_once-Splits dollar_brace rest refl (before, after) e in
      (
        before ++ dollar_brace ++ t,
        rw (e, expand_loop) (rw e' (loop ∙ ap some (append_assoc₄ out before dollar_brace t))),
        subst (λ s. Expands env s (before ++ dollar_brace ++ t)) (sym split)
            (unclosed before after t free (split_once-none close_brace after refl e') expands),
      )

  reference-Done :
      (fuel : ℕ) (out rest before after spec later : Text)
      → split_once dollar_brace rest ≡ some (before, after)
      → split_once close_brace after ≡ some (spec, later)
      → Done fuel (out ++ before ++ value_of env spec) later
      → Done (suc fuel) out rest
  unfolding expand_loop Splits
  reference-Done fuel out rest before after spec later e e' (t, loop, expands) =
      let (split, free) = split_once-Splits dollar_brace rest refl (before, after) e in
      let (split', free') = split_once-Splits close_brace after refl (spec, later) e' in
      let split₂ = split ∙ ap (λ s. before ++ dollar_brace ++ s) split' in
      (
        before ++ value_of env spec ++ t,
        rw (e, expand_loop)
            (rw e' (loop ∙ ap some (append_assoc₄ out before (value_of env spec) t))),
        subst (λ s. Expands env s (before ++ value_of env spec ++ t)) (sym split₂)
            (reference before spec later t free free' expands),
      )

  loop-Done : (fuel : ℕ) (out rest : Text) → length rest < fuel → Done fuel out rest
  unfolding expand_loop
  loop-Done zero out rest h = ground arith
  loop-Done (suc fuel) out rest h = elim (Option-cases (split_once dollar_brace rest)) [
    | inl e ↦
        (rest, rw (e, expand_loop) refl, plain rest (split_once-none dollar_brace rest refl e))
    | inr ((before, after), e) ↦
        let l =
          length-Splits dollar_brace rest before after
            (split_once-Splits dollar_brace rest refl (before, after) e) in
        elim (Option-cases (split_once close_brace after)) [
          | inl e' ↦
              unclosed-Done fuel out rest before after e e'
                (loop-Done fuel (out ++ before ++ dollar_brace) after (omega (arith, l, h)))
          | inr ((spec, later), e') ↦
              let l' =
                length-Splits close_brace after spec later
                  (split_once-Splits close_brace after refl (spec, later) e') in
              reference-Done fuel out rest before after spec later e e' (
                loop-Done fuel (out ++ before ++ value_of env spec) later (omega (arith, l, l', h)))
        ]
  ]

  -- The loop ends, and the text is expanded as the relation tells: every reference, and nothing else,
  -- gives way to its value.
  pub expand_env_vars-Expands :
      (input : Text)
      → (expand_loop env (suc (length input)) [] input ≡ some (expand_env_vars env input))
        × Expands env input (expand_env_vars env input)
  unfolding expand_env_vars
  expand_env_vars-Expands input =
      let (t, loop, expands) = loop-Done (suc (length input)) [] input (omega arith) in
      (
        loop ∙ ap (λ o. some (unwrap_or o [])) (sym loop),
        subst (λ o. Expands env input (unwrap_or o [])) (sym loop) expands,
      )
