-- ===== src/DeviceTwin/Monotone/Loop.antt =====
-- edge/pkg/devicetwin/dtmanager/twin.go: the versions of all twins over the loop of `DealMsgTwin`.
use envoyingresscontroller.Prelude.{
  ℕ, Bool, true, false, ◌≡◌, Option, none, some, List, [], ◌∷◌, Text, Map, lookup, put, ◌==◌,
  eq_iff, Outcome, ok, err, panics, deref, Holds, Holds-bind, Holds-any, Holds-ok, arith, subst,
  Option-cases, Bool-cases, Outcome-cases, inl, inr, lookup-put, sym, ap, ◌∙◌,
}
use envoyingresscontroller.DeviceTwin.{MsgTwin, DeviceTwin, msg_twin_to_device_twin}
use envoyingresscontroller.DeviceTwin.Twins.{DealType, is_rest, DealTwinResult, open_deal}
use envoyingresscontroller.DeviceTwin.Adds.{
  Adding, going, ended, add_values, deleted_versions, deal_twin_add, close_add, finish_add,
  continue_if, asks_deletion, deal_held, deal_one, deal_msg_twin,
}
use envoyingresscontroller.DeviceTwin.Monotone.{Grows, Grows-refl, Grows-trans, FromTwin, Dealt}
use envoyingresscontroller.DeviceTwin.Monotone.Deletes.{deal_twin_delete-Grows}
use envoyingresscontroller.DeviceTwin.Monotone.Compares.{deal_twin_compare-Grows}

-- Every twin that was there is there still, with versions that are no older.
abbrev pub AllGrow : Map MsgTwin → Map MsgTwin → Type 0
AllGrow twins twins' =
    (key : Text) (t : MsgTwin)
    → lookup key twins ≡ some t
    → (u : MsgTwin) × (lookup key twins' ≡ some u) × Grows t u

AllGrow-refl : (twins : Map MsgTwin) → AllGrow twins twins
AllGrow-refl twins key t e = (t, e, Grows-refl t)

AllGrow-trans : (a b c : Map MsgTwin) → AllGrow a b → AllGrow b c → AllGrow a c
AllGrow-trans a b c f g key t e =
    let (u, p, h) = f key t e in let (v, q, k) = g key u p in (v, q, Grows-trans t u v h k)

put-AllGrow :
    (key : Text) (t u : MsgTwin) (twins : Map MsgTwin)
    → lookup key twins ≡ some t
    → Grows t u
    → AllGrow twins (put key u twins)
put-AllGrow key t u twins e g k v f = elim (Bool-cases (key == k)) [
  | inl b ↦
      let same : key ≡ k = (eq_iff key k).0 b in
      let tv : t ≡ v = cc (same, e, f) in
      (u, ground (arith, lookup-put key k u twins, b), subst (λ x. Grows x u) tv g)
  | inr b ↦ (v, ground (arith, lookup-put key k u twins, b, f), Grows-refl v)
]

put-AllGrow-new :
    (key : Text) (u : MsgTwin) (twins : Map MsgTwin)
    → lookup key twins ≡ none
    → AllGrow twins (put key u twins)
put-AllGrow-new key u twins e k v f = elim (Bool-cases (key == k)) [
  | inl b ↦ absurd (
      let same : key ≡ k = (eq_iff key k).0 b in
      let no : none ≡ some v = sym e ∙ ap (λ x. lookup x twins) same ∙ f in ground arith)
  | inr b ↦ (v, ground (arith, lookup-put key k u twins, b, f), Grows-refl v)
]

abbrev LoopGrows : Map MsgTwin → DealTwinResult × Map MsgTwin × Bool → Type 0
LoopGrows twins (d, twins', goes_on) = AllGrow twins twins'

deal_held-Grows :
    (is_float : Text → Bool) (now : ℕ) (device_id key : Text) (twin : MsgTwin) (m : Option MsgTwin)
    (deal_type : DealType) (d : DealTwinResult)
    → is_rest deal_type ≡ false
    → Holds (Dealt twin) (deal_held is_float now device_id key twin m deal_type d)
unfolding deal_held
deal_held-Grows is_float now device_id key twin m deal_type d r =
    elim (Outcome-cases (asks_deletion deal_type m)) [
      | inr (inl (e, q)) ↦ rw (q, deal_held) tt
      | inr (inr q) ↦ rw (q, deal_held) tt
      | inl (true, q) ↦
          rw (q, deal_held)
            (Holds-bind (FromTwin twin) (Dealt twin) _ _
              (deal_twin_delete-Grows device_id key twin m deal_type d r) (λ u g. g))
      | inl (false, q) ↦
          rw (q, deal_held)
            (Holds-bind (λ x. Unit {0}) (Dealt twin) (deref m) _
              (Holds-any (λ x. Unit {0}) (deref m) (λ x. tt))
              (λ x _. deal_twin_compare-Grows is_float now device_id key twin x deal_type d r))
    ]

close_add-AllGrow :
    (key : Text) (deal_type : DealType) (m : MsgTwin) (d : DealTwinResult) (row : DeviceTwin)
    (twins : Map MsgTwin)
    → lookup key twins ≡ none
    → AllGrow twins (close_add key deal_type m d row twins).1
unfolding close_add
close_add-AllGrow key deal_type m d row twins e = put-AllGrow-new key _ twins e

-- A twin is added beside those that are there, or not at all.
finish_add-Grows :
    (is_float : Text → Bool) (now : ℕ) (key : Text) (m : MsgTwin) (deal_type : DealType)
    (twins : Map MsgTwin) (a : Adding)
    → lookup key twins ≡ none
    → Holds (LoopGrows twins) (finish_add key deal_type m twins a)
unfolding finish_add
finish_add-Grows is_float now key m deal_type twins (ended d goes_on) e = AllGrow-refl twins
finish_add-Grows is_float now key m deal_type twins (going d row) e =
    close_add-AllGrow key deal_type m d row twins e

deal_twin_add-Grows :
    (is_float : Text → Bool) (now : ℕ) (device_id key : Text) (twins : Map MsgTwin)
    (m : Option MsgTwin) (deal_type : DealType) (d : DealTwinResult)
    → lookup key twins ≡ none
    → Holds (LoopGrows twins) (deal_twin_add is_float now device_id key twins m deal_type d)
unfolding deal_twin_add
deal_twin_add-Grows is_float now device_id key twins none deal_type d e = AllGrow-refl twins
deal_twin_add-Grows is_float now device_id key twins (some m) deal_type d e =
    let row : DeviceTwin = record (msg_twin_to_device_twin key m) { device_id = device_id } in
    Holds-bind (λ a. Unit {0}) (LoopGrows twins) (deleted_versions deal_type m row) _
      (Holds-any (λ a. Unit {0}) (deleted_versions deal_type m row) (λ a. tt))
      (λ row' _.
        let added = add_values is_float now deal_type key m (open_deal key none d) row' in
        Holds-bind (λ a. Unit {0}) (LoopGrows twins) added _
          (Holds-any (λ a. Unit {0}) added (λ a. tt))
          (λ a _. finish_add-Grows is_float now key m deal_type twins a e))

deal_one-Grows :
    (is_float : Text → Bool) (now : ℕ) (device_id : Text) (deal_type : DealType) (key : Text)
    (m : Option MsgTwin) (d : DealTwinResult) (twins : Map MsgTwin)
    → is_rest deal_type ≡ false
    → Holds (LoopGrows twins) (deal_one is_float now device_id deal_type key m d twins)
unfolding deal_one
deal_one-Grows is_float now device_id deal_type key m d twins r =
    elim (Option-cases (lookup key twins)) [
      | inl e ↦
          rw (e, deal_one) (deal_twin_add-Grows is_float now device_id key twins m deal_type d e)
      | inr (t, e) ↦
          rw (e, deal_one)
            (Holds-bind (Dealt t) (LoopGrows twins) _ _
              (deal_held-Grows is_float now device_id key t m deal_type d r)
              (λ a g. put-AllGrow key t a.1 twins e g))
    ]

abbrev RunGrows : Map MsgTwin → DealTwinResult × Map MsgTwin → Type 0
RunGrows twins (d, twins') = AllGrow twins twins'

onward :
    (a b : Map MsgTwin) (o : Outcome (DealTwinResult × Map MsgTwin))
    → AllGrow a b
    → Holds (RunGrows b) o
    → Holds (RunGrows a) o
onward a b (ok (d, c)) f g = AllGrow-trans a b c f g
onward a b (err e) f g = tt
onward a b panics f g = tt

run-Grows :
    (is_float : Text → Bool) (now : ℕ) (device_id : Text) (deal_type : DealType)
    (ms : List (Text × Option MsgTwin)) (d : DealTwinResult) (twins : Map MsgTwin)
    → is_rest deal_type ≡ false
    → Holds (RunGrows twins) (deal_msg_twin is_float now device_id deal_type ms d twins)
unfolding deal_msg_twin
run-Grows is_float now device_id deal_type [] d twins r = AllGrow-refl twins
run-Grows is_float now device_id deal_type ((key, m) ∷ ms) d twins r =
    Holds-bind (LoopGrows twins) (RunGrows twins) _ _
      (deal_one-Grows is_float now device_id deal_type key m d twins r)
      (rounds (λ d' twins'. run-Grows is_float now device_id deal_type ms d' twins' r))
  where
    rounds :
        ((d' : DealTwinResult) (twins' : Map MsgTwin)
          → Holds (RunGrows twins') (deal_msg_twin is_float now device_id deal_type ms d' twins'))
        → (a : DealTwinResult × Map MsgTwin × Bool) → LoopGrows twins a
        → Holds (RunGrows twins) (continue_if (deal_msg_twin is_float now device_id deal_type ms) a)
    rounds later (d', twins', false) g = g
    rounds later (d', twins', true) g = onward twins twins' _ g (later d' twins')

-- Whatever requests come from the cloud for the twins of a device, unless one of them is a panic, every twin that the device had is
-- there after `DealMsgTwin`, and where it had a version it has one whose cloud part and edge part are both no less.
pub deal_msg_twin-AllGrow :
    (is_float : Text → Bool) (now : ℕ) (device_id : Text) (deal_type : DealType)
    (ms : List (Text × Option MsgTwin)) (d d' : DealTwinResult) (twins twins' : Map MsgTwin)
    → is_rest deal_type ≡ false
    → deal_msg_twin is_float now device_id deal_type ms d twins ≡ ok (d', twins')
    → AllGrow twins twins'
deal_msg_twin-AllGrow is_float now device_id deal_type ms d d' twins twins' r e =
    Holds-ok (RunGrows twins) (deal_msg_twin is_float now device_id deal_type ms d twins)
      (d', twins') (run-Grows is_float now device_id deal_type ms d twins r) e
