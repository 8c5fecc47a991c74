-- ===== src/DeviceTwin/Monotone/Compares.antt =====
-- edge/pkg/devicetwin/dtmanager/twin.go: the versions of a twin that `dealTwinCompare` changes.
use envoyingresscontroller.Prelude.{
  ℕ, Bool, true, false, not, ◌&&◌, ◌≡◌, refl, Option, none, some, Text, if◌then◌else◌, ◌==◌,
  Outcome, ok, err, panics, deref, ◌>>=◌, Holds, Holds-bind, Holds-any, arith, Option-cases,
  Bool-cases, Outcome-cases, inl, inr,
}
use envoyingresscontroller.DeviceTwin.{
  TwinVersion, is_deleted, TwinValue, TypeMetadata, MsgTwin, Side, expected_side, actual_side,
  version_of, value_of, set_version, set_value,
}
use envoyingresscontroller.DeviceTwin.Twins.{
  DealType, is_rest, DealTwinResult, deal_version, request_version, Progress, begin, open_deal,
}
use envoyingresscontroller.DeviceTwin.Compare.{
  is_twin_value_diff, reject_value, accept_value, version_or_zero, set_side, compare_side,
  compare_optional, revive, compare_metadata, close_compare, deal_twin_compare, finish_compare,
  last_of,
}
use envoyingresscontroller.DeviceTwin.Monotone.{
  AtLeast, NoOlder, Grows, NoOlder-refl, Grows-refl, Grows-trans, deal_version-AtLeast,
  Decided-cases, from_some, set_version-Grows, Dealt,
}

from_zero :
    (o : Option TwinVersion) (w : TwinVersion) → AtLeast (version_or_zero o) w → NoOlder o (some w)
from_zero none w l = tt
from_zero (some v) w l = (w, refl, l)

-- The version that a twin gets where it had none.
versioned-Grows :
    (side : Side) (t : MsgTwin)
    → Grows t (set_version side (some (version_or_zero (version_of side t))) t)
versioned-Grows expected_side t = (
  from_zero t.expected_version (version_or_zero t.expected_version) (omega arith, omega arith),
  NoOlder-refl t.actual_version,
)
versioned-Grows actual_side t = (
  NoOlder-refl t.expected_version,
  from_zero t.actual_version (version_or_zero t.actual_version) (omega arith, omega arith),
)

abbrev GrownFrom : MsgTwin → Progress → Type 0
GrownFrom t p = Grows t p.twin

reject_value-twin :
    (side : Side) (key : Text) (v : TwinVersion) (p : Progress) (t : MsgTwin)
    → Grows t p.twin
    → Holds (GrownFrom t) (reject_value side key v p)
unfolding reject_value
reject_value-twin side key v p t g = elim (Option-cases (value_of side p.twin)) [
  | inl e ↦ rw (e, reject_value) tt
  | inr (x, e) ↦ elim (Option-cases p.twin.optional) [
    | inl f ↦ rw (e, f, reject_value) tt
    | inr (b, f) ↦ rw (e, f, reject_value) g
  ]
]

version_of-set :
    (side : Side) (t : MsgTwin) (v : Option TwinVersion)
    → version_of side (set_version side v t) ≡ v
version_of-set expected_side t v = refl
version_of-set actual_side t v = refl

set_side-Grows :
    (side : Side) (now : ℕ) (deal_type : DealType) (key : Text) (m : MsgTwin) (x : TwinValue)
    (p : Progress)
    → is_rest deal_type ≡ false
    → Holds (GrownFrom p.twin) (set_side side now deal_type key m x p)
unfolding set_side accept_value
set_side-Grows side now deal_type key m x p r =
    let held = version_or_zero (version_of side p.twin) in
    let versioned : Progress = record p { twin = set_version side (some held) p.twin } in
    let g = versioned-Grows side p.twin in
    elim (Decided-cases (deal_version held (request_version side deal_type (some m)) deal_type)) [
      | inr (e, q) ↦ rw (q, r, set_side) (reject_value-twin side key held versioned p.twin g)
      | inl (w, q) ↦
          rw (q, r, set_side)
            (let l =
                deal_version-AtLeast held (request_version side deal_type (some m)) deal_type w r
                  q in
              let x' =
                some (record { value = x.value; metadata = some (record { timestamp = now }) }) in
              Grows-trans p.twin versioned.twin
                (set_version side (some w) (set_value side x' versioned.twin)) g
                (set_version-Grows side versioned.twin w x' (
                  from_some (version_of side versioned.twin) held w
                    (version_of-set side p.twin (some held)) l)))
    ]

compare_side-Grows :
    (is_float : Text → Bool) (side : Side) (now : ℕ) (deal_type : DealType) (key : Text)
    (m : MsgTwin) (p : Progress)
    → is_rest deal_type ≡ false
    → Holds (GrownFrom p.twin) (compare_side is_float side now deal_type key m p)
unfolding compare_side
compare_side-Grows is_float side now deal_type key m p r = elim (Option-cases p.error) [
  | inr (e, q) ↦ rw (q, compare_side) (Grows-refl p.twin)
  | inl q ↦ elim (Outcome-cases (is_twin_value_diff is_float p.twin m side)) [
    | inr (inl (e, f)) ↦ rw (q, f, compare_side) tt
    | inr (inr f) ↦ rw (q, f, compare_side) tt
    | inl ((differs, invalid), f) ↦ elim (Bool-cases (differs && p.is_allowed)) [
      | inr b ↦ rw (q, f, b, r, compare_side) (Grows-refl p.twin)
      | inl b ↦ elim (Option-cases (value_of side m)) [
        | inl v ↦ rw (q, f, b, v, compare_side) tt
        | inr (x, v) ↦ rw (q, f, b, v, compare_side) (set_side-Grows side now deal_type key m x p r)
      ]
    ]
  ]
]

-- The flag and the metadata leave the versions alone.
compare_optional-Grows :
    (key : Text) (m : MsgTwin) (p : Progress) → Holds (GrownFrom p.twin) (compare_optional key m p)
unfolding compare_optional
compare_optional-Grows key m p = elim (Option-cases m.optional) [
  | inl e ↦ rw (e, compare_optional) (Grows-refl p.twin)
  | inr (w, e) ↦ elim (Option-cases p.twin.optional) [
    | inl f ↦ rw (e, f, compare_optional) tt
    | inr (b, f) ↦ elim (Bool-cases (b && not w)) [
      | inl c ↦ rw (e, f, c, compare_optional) (Grows-refl p.twin)
      | inr c ↦ rw (e, f, c, compare_optional) (Grows-refl p.twin)
    ]
  ]
]

revive-if :
    (b : Bool) (key : Text) (meta : TypeMetadata) (p : Progress)
    → Grows p.twin (if b then revive key meta p else p).twin
unfolding revive
revive-if true key meta p = Grows-refl p.twin
revive-if false key meta p = Grows-refl p.twin

compare_metadata-Grows :
    (key : Text) (m : MsgTwin) (p : Progress) → Holds (GrownFrom p.twin) (compare_metadata key m p)
unfolding compare_metadata
compare_metadata-Grows key m p = elim (Option-cases p.twin.metadata) [
  | inl e ↦ rw (e, compare_metadata) tt
  | inr (held, e) ↦ elim (Option-cases m.metadata) [
    | inl f ↦ rw (e, f, compare_metadata) (revive-if (is_deleted held) key _ p)
    | inr (meta, f) ↦ elim (Bool-cases (meta.attr_type == held.attr_type)) [
      | inl c ↦ rw (e, f, c, compare_metadata) (Grows-refl p.twin)
      | inr c ↦ rw (e, f, c, compare_metadata) (revive-if (is_deleted held) key meta _)
    ]
  ]
]

if_allowed :
    (b : Bool) (o : Progress → Outcome Progress) (p : Progress)
    → Holds (GrownFrom p.twin) (o p)
    → Holds (GrownFrom p.twin) (if b then o p else ok p)
if_allowed true o p h = h
if_allowed false o p h = Grows-refl p.twin

onward :
    (t : MsgTwin) (p : Progress) (o : Outcome Progress)
    → Grows t p.twin
    → Holds (GrownFrom p.twin) o
    → Holds (GrownFrom t) o
onward t p (ok q) g h = Grows-trans t p.twin q.twin g h
onward t p (err e) g h = tt
onward t p panics g h = tt

-- The growth goes on over the parts.
then_grows :
    (t : MsgTwin) (o : Outcome Progress) (f : Progress → Outcome Progress)
    → Holds (GrownFrom t) o
    → ((p : Progress) → Holds (GrownFrom p.twin) (f p))
    → Holds (GrownFrom t) (o >>= f)
then_grows t o f h k =
    Holds-bind (GrownFrom t) (GrownFrom t) o f h (λ p g. onward t p (f p) g (k p))

close_compare-twin :
    (device_id key : Text) (deal_type : DealType) (p : Progress)
    → (close_compare device_id key deal_type p).1 ≡ p.twin
unfolding close_compare
close_compare-twin device_id key deal_type p = ground arith

finish_compare-Grows :
    (device_id key : Text) (deal_type : DealType) (m : MsgTwin) (t : MsgTwin) (q : Progress)
    → Grows t q.twin
    → Holds (Dealt t) (finish_compare device_id key deal_type m q)
unfolding finish_compare
finish_compare-Grows device_id key deal_type m t q g = elim (Option-cases q.error) [
  | inr (e, f) ↦ rw (f, finish_compare) g
  | inl f ↦
      rw (f, finish_compare)
        (Holds-bind (GrownFrom t) (Dealt t) _ _
          (onward t q _ g
            (if_allowed q.is_allowed (compare_optional key m) q (compare_optional-Grows key m q)))
          (λ r gr.
            Holds-bind (GrownFrom t) (Dealt t) _ _
              (onward t r _ gr (
                if_allowed r.is_allowed (compare_metadata key m) r
                  (compare_metadata-Grows key m r)))
              (λ s gs. rw (close_compare-twin device_id key deal_type s) gs)))
]

pub deal_twin_compare-Grows :
    (is_float : Text → Bool) (now : ℕ) (device_id key : Text) (twin m : MsgTwin)
    (deal_type : DealType) (d : DealTwinResult)
    → is_rest deal_type ≡ false
    → Holds (Dealt twin) (deal_twin_compare is_float now device_id key twin m deal_type d)
unfolding deal_twin_compare
deal_twin_compare-Grows is_float now device_id key twin m deal_type d r =
    Holds-bind (λ meta. Unit {0}) (Dealt twin) (deref twin.metadata) _
      (Holds-any (λ meta. Unit {0}) (deref twin.metadata) (λ meta. tt))
      (λ meta _.
        Holds-bind (GrownFrom twin) (Dealt twin) _ _
          (compare_side-Grows is_float expected_side now deal_type key m
            (begin (open_deal key (last_of meta twin) d) twin) r)
          (λ p g.
            Holds-bind (GrownFrom twin) (Dealt twin) _ _
              (onward twin p _ g (compare_side-Grows is_float actual_side now deal_type key m p r))
              (λ q h. finish_compare-Grows device_id key deal_type m twin q h)))
