-- ===== src/DeviceTwin/Adds.antt =====
-- edge/pkg/devicetwin/dtmanager/twin.go: `dealTwinAdd` and the loop of `DealMsgTwin`.
use envoyingresscontroller.Prelude.{
  ℕ, Bool, true, false, Option, none, some, List, [], ◌∷◌, ◌++◌, Text, Map, lookup, put,
  if◌then◌else◌, ◌==◌, Error, Outcome, ok, deref, ◌>>=◌,
}
use envoyingresscontroller.DeviceTwin.{
  TwinVersion, zero_version, ValueMetadata, MsgTwin, Side, expected_side, actual_side, value_of,
  copy_msg_twin, deleted_type, is_deleted, DeviceTwin, type_or_string, flag_or_true,
  msg_twin_to_device_twin, row_twin, validate_value,
}
use envoyingresscontroller.DeviceTwin.Compare.{deal_twin_compare}
use envoyingresscontroller.DeviceTwin.Twins.{
  DealType, rest, is_rest, DealTwinResult, allowed, rejected, deal_version, request_version,
  put_sync, drop_sync, drop_document, note_result, open_deal, deal_twin_delete,
}

-- Where the addition of a twin stands: its row so far, or its end, with whether the loop over the twins goes on.
pub data Adding : Type 0 where
  going : DealTwinResult → DeviceTwin → Adding
  ended : DealTwinResult → Bool → Adding

-- An addition is refused: with an error for the edge, silently for the cloud.
abbrev refuse : DealType → Error → DealTwinResult → Adding
refuse deal_type e d =
    if is_rest deal_type then ended (record d { failure = some e }) false else ended d true

abbrev set_row : Side → Text → ValueMetadata → TwinVersion → DeviceTwin → DeviceTwin
set_row expected_side value meta version row = record row {
  expected = value;
  expected_meta = some meta;
  expected_version = some version;
}
set_row actual_side value meta version row = record row {
  actual = value;
  actual_meta = some meta;
  actual_version = some version;
}

-- One value of `dealTwinAdd` that the request has, its version accepted.
unfoldable pub add_valid :
    (Text → Bool)
    → Side
    → ℕ
    → DealType
    → Text
    → MsgTwin
    → TwinVersion
    → Text
    → DealTwinResult
    → DeviceTwin
    → Adding
unfolding validate_value
add_valid is_float side now deal_type key m version value d row =
    elim (validate_value is_float (type_or_string m.metadata) value) [
      | none ↦ going d (set_row side value (record { timestamp = now }) version row)
      | some e ↦ refuse deal_type e (drop_sync key (drop_document key d))
    ]

-- One value of `dealTwinAdd`.
unfoldable pub add_value :
    (Text → Bool)
    → Side
    → ℕ
    → DealType
    → Text
    → MsgTwin
    → DealTwinResult
    → DeviceTwin
    → Outcome Adding
unfolding deal_version add_valid
add_value is_float side now deal_type key m d row = elim (value_of side m) [
  | none ↦ ok (going d row)
  | some requested ↦
      elim (deal_version zero_version (request_version side deal_type (some m)) deal_type) [
        | rejected e ↦ ok (refuse deal_type e d)
        | allowed version ↦ deref requested.value >>= λ value.
            ok (add_valid is_float side now deal_type key m version value d row)
      ]
]

-- A twin that the cloud adds as a deleted one has the versions of the request.
unfoldable pub deleted_versions : DealType → MsgTwin → DeviceTwin → Outcome DeviceTwin
deleted_versions deal_type m row =
    if is_rest deal_type
    then ok row
    else deref m.metadata >>= λ meta. ok (
        if is_deleted meta
        then record row { expected_version = m.expected_version; actual_version = m.actual_version }
        else row)

-- The end of `dealTwinAdd`.
unfoldable pub close_add :
    Text
    → DealType
    → MsgTwin
    → DealTwinResult
    → DeviceTwin
    → Map MsgTwin
    → DealTwinResult × Map MsgTwin
unfolding row_twin copy_msg_twin
close_add key deal_type m d row twins =
    let full : DeviceTwin = record row {
      optional = flag_or_true m.optional;
      attr_type = type_or_string m.metadata;
      metadata = elim m.metadata [ none ↦ none | some t ↦ some (record { attr_type = [] }) ];
    } in
    let twin = row_twin full in
    let current : Option MsgTwin =
      if full.attr_type == deleted_type then none else some (copy_msg_twin twin true) in
    let added : DealTwinResult = record d {
      add = d.add ++ full ∷ [];
      document = put key (record { last_state = none; current_state = current }) d.document;
    } in
    (
      if is_rest deal_type
          then put_sync key twin (note_result key (some (copy_msg_twin twin true)) added)
          else drop_sync key added,
      put key twin twins,
    )

unfoldable pub finish_add :
    Text → DealType → MsgTwin → Map MsgTwin → Adding → Outcome (DealTwinResult × Map MsgTwin × Bool)
unfolding close_add
finish_add key deal_type m twins (ended d goes_on) = ok (d, twins, goes_on)
finish_add key deal_type m twins (going d row) =
    let (final, twins') = close_add key deal_type m d row twins in ok (final, twins', true)

abbrev and_value : (DealTwinResult → DeviceTwin → Outcome Adding) → Adding → Outcome Adding
and_value f (ended d goes_on) = ok (ended d goes_on)
and_value f (going d row) = f d row

-- Both values of `dealTwinAdd`.
unfoldable pub add_values :
    (Text → Bool) → ℕ → DealType → Text → MsgTwin → DealTwinResult → DeviceTwin → Outcome Adding
unfolding add_value
add_values is_float now deal_type key m d row =
    add_value is_float expected_side now deal_type key m d row
    >>= and_value (add_value is_float actual_side now deal_type key m)

-- dealTwinAdd: the result, the twins and whether the loop goes on. An addition without a body is an error
-- that the result does not have.
unfoldable pub deal_twin_add :
    (Text → Bool)
    → ℕ
    → Text
    → Text
    → Map MsgTwin
    → Option MsgTwin
    → DealType
    → DealTwinResult
    → Outcome (DealTwinResult × Map MsgTwin × Bool)
unfolding open_deal msg_twin_to_device_twin deleted_versions add_values finish_add
deal_twin_add is_float now device_id key twins none deal_type d = ok (
  record d { document = put key (record { last_state = none; current_state = none }) d.document },
  twins,
  false,
)
deal_twin_add is_float now device_id key twins (some m) deal_type d =
    deleted_versions deal_type m (record (msg_twin_to_device_twin key m) { device_id = device_id })
    >>= (λ row.
        add_values is_float now deal_type key m (open_deal key none d) row
        >>= finish_add key deal_type m twins)

-- Whether the loop of `DealMsgTwin` takes a request on a twin for its deletion.
unfoldable pub asks_deletion : DealType → Option MsgTwin → Outcome Bool
asks_deletion rest none = ok true
asks_deletion rest (some m) = ok false
asks_deletion deal_type m = deref m >>= λ t. deref t.metadata >>= λ meta. ok (is_deleted meta)

-- One round of the loop, on a twin that is there: the result, the twin and whether the loop goes on.
unfoldable pub deal_held :
    (Text → Bool)
    → ℕ
    → Text
    → Text
    → MsgTwin
    → Option MsgTwin
    → DealType
    → DealTwinResult
    → Outcome (DealTwinResult × MsgTwin × Bool)
unfolding asks_deletion deal_twin_delete deal_twin_compare
deal_held is_float now device_id key twin m deal_type d = asks_deletion deal_type m >>= λ deletes.
    if deletes
    then (deal_twin_delete device_id key twin m deal_type d >>= λ (d', t). ok (d', t, true))
    else deref m >>= λ request.
        deal_twin_compare is_float now device_id key twin request deal_type d

-- One round of the loop of `DealMsgTwin`.
unfoldable pub deal_one :
    (Text → Bool)
    → ℕ
    → Text
    → DealType
    → Text
    → Option MsgTwin
    → DealTwinResult
    → Map MsgTwin
    → Outcome (DealTwinResult × Map MsgTwin × Bool)
unfolding deal_held deal_twin_add
deal_one is_float now device_id deal_type key m d twins = elim (lookup key twins) [
  | none ↦ deal_twin_add is_float now device_id key twins m deal_type d
  | some twin ↦ deal_held is_float now device_id key twin m deal_type d >>= λ (d', t, goes_on).
      ok (d', put key t twins, goes_on)
]

abbrev pub continue_if :
    {A : Type 0}
    → (A → Map MsgTwin → Outcome (A × Map MsgTwin))
    → A × Map MsgTwin × Bool
    → Outcome (A × Map MsgTwin)
continue_if f (d, twins, true) = f d twins
continue_if f (d, twins, false) = ok (d, twins)

-- The loop of `DealMsgTwin`, over the requests in the order in which the map gives them.
unfoldable pub deal_msg_twin :
    (Text → Bool)
    → ℕ
    → Text
    → DealType
    → List (Text × Option MsgTwin)
    → DealTwinResult
    → Map MsgTwin
    → Outcome (DealTwinResult × Map MsgTwin)
unfolding deal_one
deal_msg_twin is_float now device_id deal_type [] d twins = ok (d, twins)
deal_msg_twin is_float now device_id deal_type ((key, m) ∷ ms) d twins =
    deal_one is_float now device_id deal_type key m d twins
    >>= continue_if (deal_msg_twin is_float now device_id deal_type ms)
