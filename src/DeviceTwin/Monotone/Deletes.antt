-- ===== src/DeviceTwin/Monotone/Deletes.antt =====
-- edge/pkg/devicetwin/dtmanager/twin.go: the versions of a twin that `dealTwinDelete` deletes.
use envoyingresscontroller.Prelude.{
  true, false, ◌≡◌, refl, Option, none, some, Text, Holds, arith, Option-cases, Bool-cases,
  Outcome-cases, inl, inr,
}
use envoyingresscontroller.DeviceTwin.{
  TwinVersion, zero_version, copy_msg_twin, MsgTwin, Side, expected_side, actual_side, version_of,
  set_version,
}
use envoyingresscontroller.DeviceTwin.Twins.{
  DealType, rest, sync, detail, sync_twin_delete, is_rest, DealTwinResult, deal_version,
  request_version, Progress, delete_value, delete_side, close_delete, delete_type, deal_twin_delete,
  is_deletion, begin, open_deal, has_deleted,
}
use envoyingresscontroller.DeviceTwin.Monotone.{
  Grows, NoOlder-refl, Grows-refl, Grows-trans, deal_version-AtLeast, Decided-cases, from_some,
  set_version-Grows, FromTwin,
}

delete_value-Grows :
    (side : Side) (deal_type : DealType) (key : Text) (m : Option MsgTwin) (v : TwinVersion)
    (p : Progress)
    → is_rest deal_type ≡ false
    → version_of side p.twin ≡ some v
    → Grows p.twin (delete_value side deal_type key m v p).twin
unfolding delete_value
delete_value-Grows side deal_type key m v p r e =
    elim (Decided-cases (deal_version v (request_version side deal_type m) deal_type)) [
      | inl (w, q) ↦
          rw (q, delete_value)
            (let l = deal_version-AtLeast v (request_version side deal_type m) deal_type w r q in
              set_version-Grows side p.twin w (some (record { value = none; metadata = none }))
                (from_some (version_of side p.twin) v w e l))
      | inr (x, q) ↦ rw (q, r, delete_value) (Grows-refl p.twin)
    ]

zero_version-Grows :
    (side : Side) (t : MsgTwin)
    → version_of side t ≡ none
    → Grows t (set_version side (some zero_version) t)
zero_version-Grows expected_side t e = (rw e tt, NoOlder-refl t.actual_version)
zero_version-Grows actual_side t e = (NoOlder-refl t.expected_version, rw e tt)

delete_side-Grows :
    (side : Side) (deal_type : DealType) (key : Text) (m : Option MsgTwin) (p : Progress)
    → is_rest deal_type ≡ false
    → Grows p.twin (delete_side side deal_type key m p).twin
unfolding delete_side
delete_side-Grows side deal_type key m p r = elim (Bool-cases p.is_allowed) [
  | inr a ↦ rw (a, delete_side) (Grows-refl p.twin)
  | inl a ↦ elim (Option-cases (version_of side p.twin)) [
    | inl e ↦ rw (a, e, delete_side) (zero_version-Grows side p.twin e)
    | inr (v, e) ↦ rw (a, e, delete_side) (delete_value-Grows side deal_type key m v p r e)
  ]
]

close_delete-twin :
    (device_id key : Text) (deal_type : DealType) (p : Progress)
    → (close_delete device_id key deal_type p).1 ≡ p.twin
unfolding close_delete
close_delete-twin device_id key deal_type p = ground arith

is_rest-delete_type : (d : DealType) → is_rest d ≡ false → is_rest (delete_type d) ≡ false
is_rest-delete_type rest e = e
is_rest-delete_type sync e = refl
is_rest-delete_type detail e = refl
is_rest-delete_type sync_twin_delete e = refl

pub deal_twin_delete-Grows :
    (device_id key : Text) (twin : MsgTwin) (m : Option MsgTwin) (deal_type : DealType)
    (d : DealTwinResult)
    → is_rest deal_type ≡ false
    → Holds (FromTwin twin) (deal_twin_delete device_id key twin m deal_type d)
unfolding deal_twin_delete
deal_twin_delete-Grows device_id key twin m deal_type d r =
    elim (Outcome-cases (is_deletion deal_type twin m)) [
      | inr (inl (e, q)) ↦ rw (q, deal_twin_delete) tt
      | inr (inr q) ↦ rw (q, deal_twin_delete) tt
      | inl (false, q) ↦
          rw (q, deal_twin_delete) (closed deal_type (begin opened twin) (Grows-refl twin))
      | inl (true, q) ↦ elim (Bool-cases (has_deleted twin)) [
        | inl h ↦ rw (q, h, deal_twin_delete) (Grows-refl twin)
        | inr h ↦
            rw (q, h, deal_twin_delete)
              (closed (delete_type deal_type)
                (half actual_side (half expected_side (begin opened twin)))
                (Grows-trans twin (half expected_side (begin opened twin)).twin
                  (half actual_side (half expected_side (begin opened twin))).twin
                  (grown expected_side (begin opened twin))
                  (grown actual_side (half expected_side (begin opened twin)))))
      ]
    ]
  where
    opened : DealTwinResult
    opened = open_deal key (some (copy_msg_twin twin true)) d

    half : Side → Progress → Progress
    half side p = delete_side side (delete_type deal_type) key m p

    grown : (side : Side) (p : Progress) → Grows p.twin (half side p).twin
    grown side p =
        delete_side-Grows side (delete_type deal_type) key m p (is_rest-delete_type deal_type r)

    closed :
        (dt : DealType) (p : Progress)
        → Grows twin p.twin
        → FromTwin twin (close_delete device_id key dt p)
    closed dt p g = rw (close_delete-twin device_id key dt p) g
