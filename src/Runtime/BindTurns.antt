-- ===== src/Runtime/BindTurns.antt =====
-- How many requests are sent on a bind over a run: src/sends.rs `pace`, and the limiters of src/runtime.rs.
use siphon_smpp.Common.{
  ℕ, ◌≡◌, refl, ap, sym, ◌∙◌, subst, inl, inr, String, Bool, true, false, not, Option, none, some,
  List, [], ◌∷◌, ◌++◌, str_eq, eq_iff, find, retain, if◌then◌else◌, arith, Bool-cases, Option-cases,
  ok,
}
use siphon_smpp.RateLimiter.{Bucket, acquire, acquire_loop}
use siphon_smpp.RateLimiter.Ledger.{Spends, Spends-refl, acquire_loop-Spends}
use siphon_smpp.Runtime.{State, Script, Smsc, BindSession, record_metric}
use siphon_smpp.Runtime.Client.{BindListener, on_smsc_bound, on_smsc_unbound}
use siphon_smpp.Runtime.Effects.{Effect, kept, limited}
use siphon_smpp.Runtime.Takings.{InTime}
use siphon_smpp.Sends.{BindTarget, bind_handle, found_bind, put_bind_throttle, pace}

abbrev pub called : String → BindSession → Bool
called name b = str_eq b.name name

abbrev pub bind_throttle_of : Option BindSession → Option Bucket
bind_throttle_of none = none
bind_throttle_of (some b) = b.throttle

-- The limiter of the bind that a helper finds under this name.
abbrev pub bind_throttle : State → String → Option Bucket
bind_throttle s name = bind_throttle_of (find (called name) s.binds)

-- The bind that has this name is not the session that ends.
abbrev pub Outlives : String → Option BindSession → Type 0
Outlives id none = Unit {0}
Outlives id (some b) = str_eq b.smsc.session_id id ≡ false

find-append_found :
    {A : Type 0} (p : A → Bool) (xs ys : List A) (x : A)
    → find p xs ≡ some x
    → find p (xs ++ ys) ≡ some x
find-append_found p [] ys x h = cc
find-append_found p (y ∷ xs) ys x h = ground (arith, find-append_found p xs ys x)

find-retain_found :
    {A : Type 0} (p keep : A → Bool) (xs : List A) (x : A)
    → find p xs ≡ some x
    → keep x ≡ true
    → find p (retain keep xs) ≡ some x
find-retain_found p keep [] x h k = cc
find-retain_found p keep (y ∷ xs) x h k = ground (arith, find-retain_found p keep xs x)

put_bind_throttle-same :
    (name : String) (b b' : Bucket) (bs : List BindSession)
    → bind_throttle_of (find (called name) bs) ≡ some b
    → bind_throttle_of (find (called name) (put_bind_throttle name b' bs)) ≡ some b'
unfolding put_bind_throttle
put_bind_throttle-same name b b' [] h = cc
put_bind_throttle-same name b b' (e ∷ es) h = ground (arith, put_bind_throttle-same name b b' es)

put_bind_throttle-other :
    (name other : String) (b : Bucket) (bs : List BindSession)
    → str_eq other name ≡ false
    → find (called name) (put_bind_throttle other b bs) ≡ find (called name) bs
unfolding put_bind_throttle
put_bind_throttle-other name other b [] d = refl
put_bind_throttle-other name other b (e ∷ es) d =
    let clash : str_eq e.name other ≡ true → str_eq e.name name ≡ false =
      λ h. subst (λ i. str_eq i name ≡ false) (sym ((eq_iff e.name other).0 h)) d in
    ground (arith, put_bind_throttle-other name other b es d)

pub Effect-binds : (s s' : State) → Effect s s' → s'.binds ≡ s.binds
Effect-binds s s' (kept a) = a.binds
Effect-binds s s' (limited id b b' e taken a) = a.binds

throttle_found :
    (o : Option BindSession) (b : Bucket)
    → bind_throttle_of o ≡ some b
    → (e : BindSession) × (o ≡ some e) × (e.throttle ≡ some b)
throttle_found none b h = cc
throttle_found (some e) b h = (e, refl, h)

found_bind-throttle :
    (bind : String) (o : Option BindSession) (target : BindTarget)
    → found_bind bind o ≡ ok target
    → bind_throttle_of o ≡ target.throttle
found_bind-throttle bind none target h = cc
found_bind-throttle bind (some e) target h = ground arith

-- A turn on a bind without a limiter changes nothing; one on a bind with a limiter takes a token of it.
pace_free :
    (bind : String) (clock : List ℕ) (s s' : State)
    → pace bind none clock s ≡ some s'
    → s'.binds ≡ s.binds
unfolding pace
pace_free bind clock s s' h = ground arith

pace_limited :
    (bind : String) (b : Bucket) (clock : List ℕ) (s s' : State)
    → pace bind (some b) clock s ≡ some s'
    → (b' : Bucket) × (waited : Bool) × (acquire_loop clock false b ≡ some (b', waited))
      × (s'.binds ≡ put_bind_throttle bind b' s.binds)
unfolding pace acquire record_metric
pace_limited bind b clock s s' h = elim (Option-cases (acquire_loop clock false b)) [
  | inl e ↦ absurd (ground arith)
  | inr ((b', waited), e) ↦ (b', waited, e, ground arith)
]

module _ (name : String) where
  abbrev pub Held : State → State → Bucket → ℕ → Type 0
  Held s t b n = (b' : Bucket) × (bind_throttle t name ≡ some b') × Spends n b b'

  pub held :
      (s : State) (bs : List BindSession) (b : Bucket)
      → bs ≡ s.binds
      → bind_throttle s name ≡ some b
      → (b' : Bucket) × (bind_throttle_of (find (called name) bs) ≡ some b') × Spends 0 b b'
  held s bs b same has =
      (b, ap (λ bs. bind_throttle_of (find (called name) bs)) same ∙ has, Spends-refl b)

  module _ (listener : BindListener) (script : Script) (id : String) (s : State) (b : Bucket)
      (has : bind_throttle s name ≡ some b) where
    pub smsc_bound-Held :
        (smsc : Smsc) (now : ℕ) → Held s (on_smsc_bound listener script smsc id now s).0 b 0
    unfolding on_smsc_bound
    smsc_bound-Held smsc now =
        let (e, found, throttle) = throttle_found (find (called name) s.binds) b has in
        (
          b,
          ap bind_throttle_of (find-append_found (called name) s.binds _ e found) ∙ throttle,
          Spends-refl b,
        )

    pub smsc_unbound-Held :
        Outlives id (find (called name) s.binds)
        → Held s (on_smsc_unbound listener script id s).0 b 0
    unfolding on_smsc_unbound
    smsc_unbound-Held outlives =
        let (e, found, throttle) = throttle_found (find (called name) s.binds) b has in
        let stays : not (str_eq e.smsc.session_id id) ≡ true =
          ap not (subst (Outlives id) found outlives) in
        (
          b,
          ap bind_throttle_of (
                find-retain_found (called name) (λ t. not (str_eq t.smsc.session_id id)) s.binds e
                  found stays)
              ∙ throttle,
          Spends-refl b,
        )

  own_turn :
      (target : BindTarget) (clock : List ℕ) (s s' : State) (b : Bucket)
      → bind_handle s name ≡ ok target
      → pace name target.throttle clock s ≡ some s'
      → InTime clock (bind_throttle s name)
      → bind_throttle s name ≡ some b
      → Held s s' b 1
  unfolding bind_handle
  own_turn target clock s s' b found turn c has =
      let mine = sym (found_bind-throttle name (find (called name) s.binds) target found) ∙ has in
      let taken = subst (λ t. pace name t clock s ≡ some s') mine turn in
      let (b', waited, e, left) = pace_limited name b clock s s' taken in
      (
        b',
        ap (λ bs. bind_throttle_of (find (called name) bs)) left
            ∙ put_bind_throttle-same name b b' s.binds has,
        acquire_loop-Spends clock false waited b b' (subst (InTime clock) has c) e,
      )

  other_turn :
      (bind : String) (throttle : Option Bucket) (clock : List ℕ) (s s' : State) (b : Bucket)
      → str_eq bind name ≡ false
      → pace bind throttle clock s ≡ some s'
      → bind_throttle s name ≡ some b
      → Held s s' b 0
  other_turn bind none clock s s' b d turn has =
      held s s'.binds b (pace_free bind clock s s' turn) has
  other_turn bind (some own) clock s s' b d turn has =
      let (own', waited, e, left) = pace_limited bind own clock s s' turn in
      (
        b,
        ap (λ bs. bind_throttle_of (find (called name) bs)) left
            ∙ ap bind_throttle_of (put_bind_throttle-other name bind own' s.binds d)
            ∙ has,
        Spends-refl b,
      )

  pub turn-Held :
      (bind : String) (target : BindTarget) (clock : List ℕ) (s s' : State) (b : Bucket)
      → bind_handle s bind ≡ ok target
      → pace bind target.throttle clock s ≡ some s'
      → (str_eq bind name ≡ true → InTime clock (bind_throttle s name))
      → bind_throttle s name ≡ some b
      → Held s s' b (if str_eq bind name then 1 else 0)
  turn-Held bind target clock s s' b found turn c has = elim (Bool-cases (str_eq bind name)) [
    | inl h ↦
        let same = (eq_iff bind name).0 h in
        rw h (
          own_turn target clock s s' b (subst (λ i. bind_handle s i ≡ ok target) same found)
            (subst (λ i. pace i target.throttle clock s ≡ some s') same turn) (c h) has)
    | inr d ↦ rw d (other_turn bind target.throttle clock s s' b d turn has)
  ]
