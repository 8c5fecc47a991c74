-- ===== src/DeviceTwin/Requests.antt =====
-- edge/pkg/devicetwin/dtmanager/twin.go: `DealDeviceTwin`, the requests that come to it and what is sent
-- in answer. The locks of the devices, which one worker takes and gives back around each request, the
-- times and the identities that a message of its own gets are left out.
use envoyingresscontroller.Prelude.{
  ℕ, Bool, true, not, ◌&&◌, ◌||◌, Option, none, some, List, [], ◌∷◌, ◌++◌, Text, Map, codes, lookup,
  put, is_nil, eqb, leb, any, length, if◌then◌else◌, ◌==◌, Error, Outcome, ok, err, panics, ◌>>=◌,
  no_device, no_twin, database_failed, unmarshal_failed, bad_twin_key, bad_twin_value, wrong_body,
}
use envoyingresscontroller.DeviceTwin.{
  TypeMetadata, MsgTwin, TwinValue, TwinDoc, is_deleted, copy_msg_twin,
}
use envoyingresscontroller.DeviceTwin.Twins.{
  DealType, rest, sync, is_rest, DealTwinResult, empty_result,
}
use envoyingresscontroller.DeviceTwin.Adds.{deal_msg_twin}

-- dttype.MsgAttr
pub record MsgAttr : Type 0 where
  pub value : Text
  pub optional : Option Bool
  pub metadata : Option TypeMetadata

-- dttype.Device, with empty maps for missing ones.
pub record Device : Type 0 where
  pub id : Text
  pub name : Text
  pub description : Text
  pub state : Text
  pub last_online : Text
  pub attributes : Map MsgAttr
  pub twin : Map MsgTwin

-- BadRequestCode, NotFoundCode and InternalErrorCode
pub data Code : Type 0 where
  bad_request : Code
  not_found : Code
  internal_error : Code

-- What is sent: to the edge under the topic of a device, to the cloud, and on the members of the node.
pub data Sent : Type 0 where
  refused : Text → Text → Code → Error → Sent
  updated : Text → Text → Map (Option MsgTwin) → Sent
  document : Text → Text → Map TwinDoc → Sent
  delta : Text → Map MsgTwin → Map Text → Sent
  synced : Text → Map MsgTwin → Sent
  got : Text → Text → Map (Option MsgTwin) → Sent
  get_refused : Text → Text → Code → Sent
  attributes_updated : Text → Text → Map (Option MsgAttr) → Sent
  members_added : Device → Sent
  members_removed : Text → Sent
  state_published : Device → Sent
  state_synced : Device → Sent

-- dtcontext.DTContext: the devices, those with a mutex, and what was sent.
pub record DtContext : Type 0 where
  pub device_list : Map Device
  pub device_mutex : List Text
  pub sent : List Sent

abbrev pub send_all : List Sent → DtContext → DtContext
send_all ms c = record c { sent = c.sent ++ ms }

-- What the database answers to a request: whether one of the tries to write succeeds, and the device
-- that SyncDeviceFromSqlite finds there, if it finds one.
pub record Database : Type 0 where
  pub accepts : Bool
  pub stored : Text → Option Device

-- SyncDeviceFromSqlite, for a device that is listed
unfoldable pub sync_device_from_sqlite : Database → Text → DtContext → DtContext
sync_device_from_sqlite db device_id c = elim (db.stored device_id) [
  | none ↦ c
  | some device ↦ record c { device_list = put device_id device c.device_list }
]

-- BuildDeviceTwinResult for a get and an update: without the deleted twins and the versions.
unfoldable pub build_device_twin_result : Map (Option MsgTwin) → Map (Option MsgTwin)
unfolding copy_msg_twin
build_device_twin_result [] = []
build_device_twin_result ((key, none) ∷ twins) = (key, none) ∷ build_device_twin_result twins
build_device_twin_result ((key, some t) ∷ twins) =
    let others = build_device_twin_result twins in
    let kept = (key, some (copy_msg_twin t true)) ∷ others in
    elim t.metadata [ none ↦ kept | some m ↦ if is_deleted m then others else kept ]

abbrev pub text_of : Option TwinValue → Text
text_of none = []
text_of (some v) = elim v.value [ none ↦ [] | some t ↦ t ]

-- What the delta has for a twin: the expected value, if it is one and the actual value differs.
unfoldable pub delta_of : MsgTwin → Option Text
delta_of t = elim t.expected [
  | none ↦ none
  | some v ↦
      let wanted = text_of (some v) in
      elim t.actual [
        | none ↦ if is_nil wanted then none else some wanted
        | some a ↦
            if wanted == text_of (some a) then none else if is_nil wanted then none else some wanted
      ]
]

abbrev pub is_live : MsgTwin → Bool
is_live t = elim t.metadata [ none ↦ true | some m ↦ not (is_deleted m) ]

-- The delta of BuildDeviceTwinDelta
unfoldable pub build_delta : Map MsgTwin → Map Text
unfolding delta_of
build_delta [] = []
build_delta ((key, t) ∷ twins) =
    let others = build_delta twins in
    if is_live t then elim (delta_of t) [ none ↦ others | some v ↦ (key, v) ∷ others ] else others

-- The twins of BuildDeviceTwinDelta
unfoldable pub build_delta_twins : Map MsgTwin → Map MsgTwin
unfolding copy_msg_twin
build_delta_twins [] = []
build_delta_twins ((key, t) ∷ twins) =
    let others = build_delta_twins twins in
    if is_live t
    then elim t.expected [ none ↦ others | some v ↦ (key, copy_msg_twin t true) ∷ others ]
    else others

-- dealUpdateResult
unfoldable pub deal_update_result :
    Text → Text → Code → Option Error → Map (Option MsgTwin) → DtContext → DtContext
deal_update_result device_id event_id code none result c =
    send_all (updated device_id event_id result ∷ []) c
deal_update_result device_id event_id code (some e) result c =
    send_all (refused device_id event_id code e ∷ []) c

abbrev is_empty : {A : Type 0} → List A → Bool
is_empty xs = is_nil xs

-- dealDocument, dealDelta and dealSyncResult, each if there is something to send.
unfoldable pub deal_messages : Text → Text → Map MsgTwin → DealTwinResult → DtContext → DtContext
unfolding build_delta build_delta_twins
deal_messages device_id event_id twins d c =
    let changed = build_delta twins in
    send_all
      ((if is_empty d.document then [] else document device_id event_id d.document ∷ [])
        ++ ((if is_empty changed
              then []
              else delta device_id (build_delta_twins twins) changed ∷ [])
            ++ (if is_empty d.sync_result then [] else synced device_id d.sync_result ∷ [])))
      c

-- The write to the database, and the twins read from it when all tries fail.
unfoldable pub write_twins : Database → Text → DealTwinResult → DtContext → DtContext × Option Error
unfolding sync_device_from_sqlite
write_twins db device_id d c =
    if is_empty d.add && is_empty d.update
    then (c, none)
    else if db.accepts
    then (c, none)
    else (sync_device_from_sqlite db device_id c, some database_failed)

-- What follows the write. An update from the edge that succeeds is answered too.
unfoldable pub answer_twins :
    Text
    → Text
    → DealType
    → Map MsgTwin
    → DealTwinResult
    → DtContext × Option Error
    → DtContext × Option Error
unfolding deal_update_result build_device_twin_result deal_messages
answer_twins device_id event_id deal_type twins d (c, failed) =
    if is_rest deal_type
    then elim failed [
      | some e ↦ (
        deal_update_result device_id event_id internal_error (some e)
            (build_device_twin_result d.result) c,
        some e,
      )
      | none ↦ (
        deal_messages device_id event_id twins d (
            deal_update_result device_id event_id internal_error none
              (build_device_twin_result d.result) c),
        none,
      )
    ]
    else (deal_messages device_id event_id twins d c, none)

-- DealDeviceTwin after the twins were dealt with.
unfoldable pub conclude :
    Database
    → Text
    → Text
    → DealType
    → Map MsgTwin
    → DealTwinResult
    → DtContext
    → DtContext × Option Error
unfolding deal_update_result sync_device_from_sqlite write_twins answer_twins
    build_device_twin_result
conclude db device_id event_id deal_type twins d c =
    let done = answer_twins device_id event_id deal_type twins d (write_twins db device_id d c) in
    if is_rest deal_type
    then elim d.failure [
      | none ↦ done
      | some e ↦ (
        deal_update_result device_id event_id bad_request (some e)
            (build_device_twin_result d.result) (sync_device_from_sqlite db device_id c),
        some e,
      )
    ]
    else done

-- DealDeviceTwin: the context after it and the error that it returns.
unfoldable pub deal_device_twin :
    (Text → Bool)
    → ℕ
    → Database
    → Text
    → Text
    → Option (List (Text × Option MsgTwin))
    → DealType
    → DtContext
    → Outcome (DtContext × Option Error)
unfolding deal_update_result deal_msg_twin conclude
deal_device_twin is_float now db device_id event_id twins deal_type c =
    elim (lookup device_id c.device_list) [
      | none ↦
          ok (deal_update_result device_id event_id not_found (some no_device) [] c, some no_device)
      | some device ↦ elim twins [
        | none ↦
            ok (deal_update_result device_id event_id bad_request (some no_twin) [] c, some no_twin)
        | some requests ↦
            deal_msg_twin is_float now device_id deal_type requests empty_result device.twin
            >>= λ (d, changed). ok (
                conclude db device_id event_id deal_type changed d (record c {
                  device_list = put device_id (record device { twin = changed }) c.device_list;
                }))
      ]
    ]

-- The bytes that ValidateTwinKey and ValidateTwinValue allow: letters, digits and -_.,:/@#
abbrev is_allowed_byte : ℕ → Bool
is_allowed_byte b =
    (leb b'a' b && leb b b'z')
    || (leb b'A' b && leb b b'Z')
    || (leb b'0' b && leb b b'9')
    || any (eqb b) (codes "-_.,:/@#")

abbrev is_allowed_text : ℕ → Text → Bool
is_allowed_text most t =
    leb 1 (length t) && leb (length t) most && not (any (λ b. not (is_allowed_byte b)) t)

-- ValidateTwinKey
unfoldable pub validate_twin_key : Text → Bool
validate_twin_key key = is_allowed_text 128 key

-- ValidateTwinValue
unfoldable pub validate_twin_value : Text → Bool
validate_twin_value value = is_allowed_text 512 value

abbrev has_valid_text : Option TwinValue → Bool
has_valid_text v = is_nil (text_of v) || validate_twin_value (text_of v)

-- The loop of UnmarshalDeviceTwinUpdate: what is wrong with the first request that is not allowed.
unfoldable pub validate_twins : List (Text × Option MsgTwin) → Option Error
unfolding validate_twin_key validate_twin_value
validate_twins [] = none
validate_twins ((key, m) ∷ ms) =
    let rest = validate_twins ms in
    if validate_twin_key key
    then elim m [
      | none ↦ rest
      | some t ↦
          if has_valid_text t.expected && has_valid_text t.actual then rest else some bad_twin_value
    ]
    else some bad_twin_key

-- The JSON form of an update, with `none` for what json.Unmarshal refuses.
pub record TwinUpdate : Type 0 where
  pub event_id : Text
  pub twin : Option (List (Text × Option MsgTwin))

-- UnmarshalDeviceTwinUpdate
unfoldable pub unmarshal_device_twin_update : Option TwinUpdate → Outcome TwinUpdate
unfolding validate_twins
unmarshal_device_twin_update none = err unmarshal_failed
unmarshal_device_twin_update (some u) = elim u.twin [
  | none ↦ err no_twin
  | some twins ↦ elim (validate_twins twins) [ none ↦ ok u | some e ↦ err e ]
]

-- Updated, and dealTwinSync with the type of an update from the cloud: what the payload is, is an argument.
unfoldable pub deal_update :
    (Text → Bool)
    → ℕ
    → Database
    → DealType
    → Text
    → Option TwinUpdate
    → DtContext
    → Outcome DtContext
unfolding unmarshal_device_twin_update deal_update_result deal_device_twin
deal_update is_float now db deal_type device_id payload c =
    elim (unmarshal_device_twin_update payload) [
      | err e ↦ ok (
          deal_update_result [] [] bad_request (some (if is_rest deal_type then e else wrong_body))
            [] c)
      | panics ↦ panics
      | ok u ↦
          deal_device_twin is_float now db device_id u.event_id u.twin deal_type c >>= λ (c', e).
          ok c'
    ]

unfoldable pub updated_by_edge :
    (Text → Bool) → ℕ → Database → Text → Option TwinUpdate → DtContext → Outcome DtContext
unfolding deal_update
updated_by_edge is_float now db = deal_update is_float now db rest

unfoldable pub deal_twin_sync :
    (Text → Bool) → ℕ → Database → Text → Option TwinUpdate → DtContext → Outcome DtContext
unfolding deal_update
deal_twin_sync is_float now db = deal_update is_float now db sync

abbrev as_results : Map MsgTwin → Map (Option MsgTwin)
as_results [] = []
as_results ((key, t) ∷ twins) = (key, some t) ∷ as_results twins

-- DealGetTwin, for the identity of the event that the payload has, if json.Unmarshal takes it.
unfoldable pub deal_get_twin : Text → Option Text → DtContext → DtContext
unfolding build_device_twin_result
deal_get_twin device_id none c = send_all (get_refused device_id [] bad_request ∷ []) c
deal_get_twin device_id (some event_id) c = elim (lookup device_id c.device_list) [
  | none ↦ send_all (get_refused device_id event_id not_found ∷ []) c
  | some device ↦
      send_all (got device_id event_id (build_device_twin_result (as_results device.twin)) ∷ []) c
]
