-- ===== src/DeviceTwin/Deltas.antt =====
-- edge/pkg/devicetwin/dttype/types_helper.go: what BuildDeviceTwinDelta tells a device.
use envoyingresscontroller.Prelude.{
  true, ◌≡◌, ◌≢◌, ◌↔◌, refl, Option, none, some, [], ◌∷◌, Text, Map, lookup, is_nil, if◌then◌else◌,
  ◌==◌, eq_iff, arith, Option-cases, Bool-cases, inl, inr, ap, ◌∙◌, sym,
}
use envoyingresscontroller.DeviceTwin.{MsgTwin}
use envoyingresscontroller.DeviceTwin.Requests.{text_of, delta_of, is_live, build_delta}

-- No key stands twice, as in a Go map.
abbrev pub Unique {ℓ} : {V : Type ℓ} → Map V → Type ℓ
Unique [] = Unit
Unique ((k, v) ∷ m) = (lookup k m ≡ none) × Unique m

abbrev live_delta : MsgTwin → Option Text
live_delta t = if is_live t then delta_of t else none

abbrev delta_at : Option MsgTwin → Option Text
delta_at none = none
delta_at (some t) = live_delta t

lookup-build_delta :
    (k : Text) (twins : Map MsgTwin)
    → Unique twins
    → lookup k (build_delta twins) ≡ delta_at (lookup k twins)
unfolding lookup build_delta
lookup-build_delta k [] u = refl
lookup-build_delta k ((j, t) ∷ twins) u =
    ground (arith, eq_iff j k, lookup-build_delta k twins u.1, u.0)

abbrev choose : Text → Text → Option Text
choose wanted held = if wanted == held then none else if is_nil wanted then none else some wanted

choose-nil : (held : Text) → choose [] held ≡ none
choose-nil held = ground arith

choose-none : (wanted : Text) → choose wanted [] ≡ (if is_nil wanted then none else some wanted)
unfolding ◌==◌
choose-none [] = refl
choose-none (b ∷ t) = refl

delta_of-choose : (t : MsgTwin) → delta_of t ≡ choose (text_of t.expected) (text_of t.actual)
unfolding delta_of
delta_of-choose t = elim (Option-cases t.expected) [
  | inl e ↦ rw (e, delta_of) (sym (choose-nil (text_of t.actual)))
  | inr (v, e) ↦ elim (Option-cases t.actual) [
    | inl f ↦ rw (e, f, delta_of) (sym (choose-none (text_of (some v))))
    | inr (a, f) ↦ rw (e, f, delta_of) refl
  ]
]

choose-some : (w a v : Text) → choose w a ≡ some v → (w ≡ v) × (v ≢ []) × (a ≢ v)
choose-some w a v e =
    let p : w ≡ v = ground (arith, eq_iff w a) in
    (p, λ q. ground (arith, p, q), λ q. ground (arith, eq_iff w a, p, q))

nil_of : (w : Text) → is_nil w ≡ true → w ≡ []
nil_of [] e = refl
nil_of (b ∷ w) e = cc

some-choose : (w a v : Text) → w ≡ v → v ≢ [] → a ≢ v → choose w a ≡ some v
some-choose w a v p n d = elim (Bool-cases (w == a)) [
  | inl e ↦ absurd (d (sym ((eq_iff w a).0 e) ∙ p))
  | inr e ↦ elim (Bool-cases (is_nil w)) [
    | inl f ↦ absurd (n (sym p ∙ nil_of w f))
    | inr f ↦ rw (e, f) (ap some p)
  ]
]

-- In the delta of a device's twins, each under its own key, a key has a value exactly if a twin under the key is not deleted,
-- the value is its expected one and not empty, and its actual value, the empty text where it has none, is another.
pub build_delta-exact :
    (twins : Map MsgTwin) (key v : Text)
    → Unique twins
    → (lookup key (build_delta twins) ≡ some v) ↔ (
        (t : MsgTwin) × (lookup key twins ≡ some t)
        × (is_live t ≡ true)
        × (text_of t.expected ≡ v)
        × (v ≢ [])
        × (text_of t.actual ≢ v))
build_delta-exact twins key v u = (there, back)
  where
    at_key : lookup key (build_delta twins) ≡ delta_at (lookup key twins)
    at_key = lookup-build_delta key twins u

    there :
        lookup key (build_delta twins) ≡ some v
        → (t : MsgTwin) × (lookup key twins ≡ some t)
          × (is_live t ≡ true)
          × (text_of t.expected ≡ v)
          × (v ≢ [])
          × (text_of t.actual ≢ v)
    there e = elim (Option-cases (lookup key twins)) [
      | inl f ↦
          absurd (let no : none ≡ some v = ap delta_at (sym f) ∙ sym at_key ∙ e in ground arith)
      | inr (t, f) ↦
          let q : live_delta t ≡ some v = ap delta_at (sym f) ∙ sym at_key ∙ e in
          elim (Bool-cases (is_live t)) [
            | inr l ↦ absurd (ground (arith, q, l))
            | inl l ↦
                let (x, y, z) = choose-some (text_of t.expected) (text_of t.actual) v (
                  sym (delta_of-choose t) ∙ ap (λ b. if b then delta_of t else none) (sym l) ∙ q) in
                (t, f, l, x, y, z)
          ]
    ]

    back :
        (t : MsgTwin) × (lookup key twins ≡ some t)
          × (is_live t ≡ true)
          × (text_of t.expected ≡ v)
          × (v ≢ [])
          × (text_of t.actual ≢ v)
        → lookup key (build_delta twins) ≡ some v
    back (t, f, l, p, n, d) =
        at_key
        ∙ ap delta_at f
        ∙ ap (λ b. if b then delta_of t else none) l
        ∙ delta_of-choose t
        ∙ some-choose (text_of t.expected) (text_of t.actual) v p n d
