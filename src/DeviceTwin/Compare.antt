-- ===== src/DeviceTwin/Compare.antt =====
-- edge/pkg/devicetwin/dtmanager/twin.go: `isTwinValueDiff` and `dealTwinCompare`, what a request changes of
-- a twin that is there.
use envoyingresscontroller.Prelude.{
  ℕ, Bool, true, false, not, ◌&&◌, Option, none, some, [], Text, codes, lookup, put, if◌then◌else◌,
  ◌==◌, Error, Outcome, ok, deref, ◌>>=◌,
}
use envoyingresscontroller.DeviceTwin.{
  TwinVersion, zero_version, TypeMetadata, TwinValue, MsgTwin, Side, expected_side, actual_side,
  value_of, version_of, set_value, set_version, copy_msg_twin, string_type, is_deleted,
  type_or_string, validate_value,
}
use envoyingresscontroller.DeviceTwin.Twins.{
  DealType, is_rest, text_column, meta_column, type_column, flag_column, DealTwinResult,
  version_columns, allowed, rejected, deal_version, request_version, Progress, put_sync, drop_sync,
  drop_document, sync_of, note_result, open_deal, update_row, begin,
}

-- isTwinValueDiff, for the value type that the twin has or, when it is deleted, the request.
unfoldable pub is_twin_value_diff :
    (Text → Bool) → MsgTwin → MsgTwin → Side → Outcome (Bool × Option Error)
unfolding validate_value
is_twin_value_diff is_float twin m side = deref twin.metadata >>= λ meta.
    let value_type = if is_deleted meta then type_or_string m.metadata else meta.attr_type in
    elim (value_of side m) [
      | none ↦ ok (false, none)
      | some requested ↦ elim (value_of side twin) [
        | none ↦ ok (true, none)
        | some held ↦ deref requested.value >>= λ value.
            elim (validate_value is_float value_type value) [
              | none ↦ ok (true, none)
              | some e ↦ ok (false, some e)
            ]
      ]
    ]

-- What the result for the cloud gets with either value.
abbrev report_value :
    Side
    → Text
    → TwinValue
    → TwinVersion
    → Bool
    → Option TypeMetadata
    → DealTwinResult
    → DealTwinResult
report_value side key value version optional meta d =
    put_sync key
      (record (set_version side (some version) (set_value side (some value) (sync_of key d))) {
        optional = some optional;
        metadata = meta;
      })
      d

-- A request is rejected: the cloud is to get the value that is held, if there is one.
unfoldable pub reject_value : Side → Text → TwinVersion → Progress → Outcome Progress
reject_value side key version p = deref (value_of side p.twin) >>= λ held.
    deref p.twin.optional >>= λ optional. ok (record p {
      deal = report_value side key held version optional p.twin.metadata p.deal;
      is_allowed = false;
    })

-- A request is accepted: the value with its time, the version and the columns.
unfoldable pub accept_value :
    Side → ℕ → DealType → Text → Option Text → TwinVersion → Progress → Outcome Progress
accept_value side now deal_type key value version p =
    let held : TwinValue = record { value = value; metadata = some (record { timestamp = now }) } in
    let changed : Progress = record p {
      twin = set_version side (some version) (set_value side (some held) p.twin);
      cols =
          version_columns side version (text_column value)
            (meta_column (record { timestamp = now })) p.cols;
      is_change = true;
    } in
    if is_rest deal_type
    then (deref p.twin.optional >>= λ optional. ok (record changed {
      deal = report_value side key held version optional p.twin.metadata p.deal;
    }))
    else ok changed

abbrev pub version_or_zero : Option TwinVersion → TwinVersion
version_or_zero none = zero_version
version_or_zero (some v) = v

-- A half of `dealTwinCompare` whose value is to be set. The twin has a version from here on.
unfoldable pub set_side :
    Side → ℕ → DealType → Text → MsgTwin → TwinValue → Progress → Outcome Progress
unfolding deal_version reject_value accept_value
set_side side now deal_type key m requested p =
    let held = version_or_zero (version_of side p.twin) in
    let versioned = record p { twin = set_version side (some held) p.twin } in
    elim (deal_version held (request_version side deal_type (some m)) deal_type) [
      | rejected e ↦
          if is_rest deal_type
          then ok (record versioned {
            deal = record (versioned.deal) { failure = some e };
            error = some e;
          })
          else reject_value side key held versioned
      | allowed v ↦ accept_value side now deal_type key requested.value v versioned
    ]

-- A half of `dealTwinCompare`.
unfoldable pub compare_side :
    (Text → Bool) → Side → ℕ → DealType → Text → MsgTwin → Progress → Outcome Progress
unfolding is_twin_value_diff set_side
compare_side is_float side now deal_type key m p = elim p.error [
  | some e ↦ ok p
  | none ↦ is_twin_value_diff is_float p.twin m side >>= λ (differs, invalid).
      if differs && p.is_allowed
      then (deref (value_of side m) >>= λ requested. set_side side now deal_type key m requested p)
      else if is_rest deal_type
      then elim invalid [
        | none ↦ ok p
        | some e ↦ ok (record p { deal = record (p.deal) { failure = some e }; error = some e })
      ]
      else ok p
]

-- The part of `dealTwinCompare` on the flag `optional`, which can be taken away and not given.
unfoldable pub compare_optional : Text → MsgTwin → Progress → Outcome Progress
compare_optional key m p = elim m.optional [
  | none ↦ ok p
  | some wanted ↦ deref p.twin.optional >>= λ optional.
      if optional && not wanted
      then ok (record p {
        twin = record (p.twin) { optional = some wanted };
        cols = put (codes "optional") (flag_column wanted) p.cols;
        deal = put_sync key (record (sync_of key p.deal) { optional = some wanted }) p.deal;
        is_change = true;
      })
      else ok p
]

-- A deleted twin takes the type of the request.
unfoldable pub revive : Text → TypeMetadata → Progress → Progress
revive key meta p = record p {
  twin = record (p.twin) { metadata = some meta };
  cols = put (codes "attr_type") (text_column (some meta.attr_type)) p.cols;
  deal = put_sync key (record (sync_of key p.deal) { metadata = some meta }) p.deal;
  is_change = true;
}

-- The part of `dealTwinCompare` on the metadata: only a deleted twin takes the type of the request.
unfoldable pub compare_metadata : Text → MsgTwin → Progress → Outcome Progress
unfolding revive
compare_metadata key m p = deref p.twin.metadata >>= λ held. elim m.metadata [
  | none ↦ ok (if is_deleted held then revive key (record { attr_type = string_type }) p else p)
  | some meta ↦
      if meta.attr_type == held.attr_type
      then ok p
      else let noted : Progress = record p {
        cols = put (codes "metadata") (type_column (record { attr_type = [] })) p.cols;
        is_change = true;
      } in
        ok (if is_deleted held then revive key meta noted else noted)
]

-- The end of `dealTwinCompare`.
unfoldable pub close_compare : Text → Text → DealType → Progress → DealTwinResult × MsgTwin
unfolding copy_msg_twin
close_compare device_id key deal_type p =
    let kept : DealTwinResult =
      if p.is_change
      then update_row device_id key p.cols (record (p.deal) {
        document =
            put key
              (record {
                last_state = elim (lookup key p.deal.document) [
                  | none ↦ none
                  | some d ↦ d.last_state
                ];
                current_state = some (copy_msg_twin p.twin true);
              })
              p.deal.document;
      })
      else drop_document key p.deal in
    if is_rest deal_type
    then if p.is_change
      then (note_result key (some (copy_msg_twin (sync_of key p.deal) true)) kept, p.twin)
      else (drop_sync key kept, p.twin)
    else if p.is_allowed
    then (drop_sync key kept, p.twin)
    else (kept, p.twin)

-- dealTwinCompare after the two values: the result, the twin and whether there was no error.
unfoldable pub finish_compare :
    Text → Text → DealType → MsgTwin → Progress → Outcome (DealTwinResult × MsgTwin × Bool)
unfolding compare_optional compare_metadata close_compare
finish_compare device_id key deal_type m q = elim q.error [
  | some e ↦ ok (q.deal, q.twin, false)
  | none ↦ do
    r ← if q.is_allowed then compare_optional key m q else ok q
    s ← if r.is_allowed then compare_metadata key m r else ok r
    let (d, t) = close_compare device_id key deal_type s
    ok (d, t, true)
]

unfoldable pub last_of : TypeMetadata → MsgTwin → Option MsgTwin
unfolding copy_msg_twin
last_of meta twin = if is_deleted meta then none else some (copy_msg_twin twin true)

-- dealTwinCompare for a request that is there; an error comes back with what was changed before it.
unfoldable pub deal_twin_compare :
    (Text → Bool)
    → ℕ
    → Text
    → Text
    → MsgTwin
    → MsgTwin
    → DealType
    → DealTwinResult
    → Outcome (DealTwinResult × MsgTwin × Bool)
unfolding open_deal last_of compare_side finish_compare
deal_twin_compare is_float now device_id key twin m deal_type d = deref twin.metadata >>= λ meta.
    compare_side is_float expected_side now deal_type key m
      (begin (open_deal key (last_of meta twin) d) twin)
    >>= λ p.
        compare_side is_float actual_side now deal_type key m p
        >>= finish_compare device_id key deal_type m
