-- ===== src/DeviceTwin/Monotone.antt =====
-- edge/pkg/devicetwin/dtmanager/twin.go: the versions of the twins over the requests of the cloud.
pub mod Deletes
pub mod Compares
pub mod Loop
use envoyingresscontroller.Prelude.{
  ℕ, ◌≤◌, Bool, true, false, not, ◌&&◌, ◌≡◌, refl, Option, none, some, List, [], ◌∷◌, Text, Map,
  lookup, put, ltb, if◌then◌else◌, ◌==◌, eq_iff, Error, Outcome, ok, err, panics, deref, ◌>>=◌,
  Holds, Holds-bind, Holds-any, Holds-ok, arith, subst, Option-cases, Bool-cases, Outcome-cases,
  inl, inr, ◌⊎◌, lookup-put,
}
use envoyingresscontroller.DeviceTwin.{
  TwinVersion, zero_version, copy_msg_twin, TwinValue, TypeMetadata, MsgTwin, Side, expected_side,
  actual_side, version_of, value_of, set_version, set_value,
}
use envoyingresscontroller.DeviceTwin.Twins.{
  DealType, rest, sync, detail, sync_twin_delete, is_rest, DealTwinResult, Decided, allowed,
  rejected, deal_version, request_version, Progress, delete_value, delete_side, close_delete,
  delete_type, deal_twin_delete, is_deletion, begin, open_deal, has_deleted,
}
use envoyingresscontroller.DeviceTwin.Compare.{
  is_twin_value_diff, reject_value, accept_value, version_or_zero, set_side, compare_side,
  compare_optional, revive, compare_metadata, close_compare, deal_twin_compare,
}
use envoyingresscontroller.DeviceTwin.Adds.{
  deal_twin_add, close_add, asks_deletion, deal_held, deal_one, deal_msg_twin,
}

abbrev pub AtLeast : TwinVersion → TwinVersion → Type 0
AtLeast v w = (v.cloud_version ≤ w.cloud_version) × (v.edge_version ≤ w.edge_version)

-- A version is followed by one that is no older in either part.
abbrev pub NoOlder : Option TwinVersion → Option TwinVersion → Type 0
NoOlder none o = Unit
NoOlder (some v) o = (w : TwinVersion) × (o ≡ some w) × AtLeast v w

abbrev pub Grows : MsgTwin → MsgTwin → Type 0
Grows t u =
    NoOlder t.expected_version u.expected_version × NoOlder t.actual_version u.actual_version

pub NoOlder-refl : (o : Option TwinVersion) → NoOlder o o
NoOlder-refl none = tt
NoOlder-refl (some v) = (v, refl, (omega arith, omega arith))

pub NoOlder-trans : (o p q : Option TwinVersion) → NoOlder o p → NoOlder p q → NoOlder o q
NoOlder-trans none p q a b = tt
NoOlder-trans (some v) p q (w, e, (l, m)) b =
    let (x, f, (n, o)) : NoOlder (some w) q = subst (λ z. NoOlder z q) e b in
    (x, f, (omega (arith, l, n), omega (arith, m, o)))

pub Grows-refl : (t : MsgTwin) → Grows t t
Grows-refl t = (NoOlder-refl t.expected_version, NoOlder-refl t.actual_version)

pub Grows-trans : (t u v : MsgTwin) → Grows t u → Grows u v → Grows t v
Grows-trans t u v (a, b) (c, d) = (
  NoOlder-trans t.expected_version u.expected_version v.expected_version a c,
  NoOlder-trans t.actual_version u.actual_version v.actual_version b d,
)

-- A request of the cloud is accepted only if it is no older, and the version is then that of the request
-- or stays.
pub deal_version-AtLeast :
    (v : TwinVersion) (req : Option TwinVersion) (deal_type : DealType) (w : TwinVersion)
    → is_rest deal_type ≡ false
    → deal_version v req deal_type ≡ allowed w
    → AtLeast v w
unfolding deal_version
deal_version-AtLeast v req rest w r e = cc
deal_version-AtLeast v none sync w r e = cc
deal_version-AtLeast v none detail w r e = cc
deal_version-AtLeast v none sync_twin_delete w r e = (ground arith, ground arith)
deal_version-AtLeast v (some q) sync w r e = (ground arith, ground arith)
deal_version-AtLeast v (some q) detail w r e = (ground arith, ground arith)
deal_version-AtLeast v (some q) sync_twin_delete w r e = (ground arith, ground arith)

pub Decided-cases :
    (d : Decided) → ((v : TwinVersion) × (d ≡ allowed v)) ⊎ ((e : Error) × (d ≡ rejected e))
Decided-cases (allowed v) = inl (v, refl)
Decided-cases (rejected e) = inr (e, refl)

pub from_some :
    (o : Option TwinVersion) (v w : TwinVersion) → o ≡ some v → AtLeast v w → NoOlder o (some w)
from_some o v w e l = rw e (w, refl, l)

-- A new version on one side, whatever the value that comes with it.
pub set_version-Grows :
    (side : Side) (t : MsgTwin) (w : TwinVersion) (x : Option TwinValue)
    → NoOlder (version_of side t) (some w)
    → Grows t (set_version side (some w) (set_value side x t))
set_version-Grows expected_side t w x n = (n, NoOlder-refl t.actual_version)
set_version-Grows actual_side t w x n = (NoOlder-refl t.expected_version, n)

-- The twin that comes with a result.
abbrev pub FromTwin : MsgTwin → DealTwinResult × MsgTwin → Type 0
FromTwin t (d, u) = Grows t u

abbrev pub Dealt : MsgTwin → DealTwinResult × MsgTwin × Bool → Type 0
Dealt t (d, u, goes_on) = Grows t u
