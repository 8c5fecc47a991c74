-- ===== src/DeviceTwin/Unnoticed.antt =====
-- edge/pkg/devicetwin/dtmanager/twin.go: an update of the edge whose error is lost.
use envoyingresscontroller.Prelude.{
  ℕ, Bool, ◌≡◌, refl, ap, ◌∙◌, Option, none, some, List, [], ◌∷◌, ◌++◌, Text, Map, lookup, put, ok,
  arith, eq_iff, lookup-put,
}
use envoyingresscontroller.DeviceTwin.{MsgTwin}
use envoyingresscontroller.DeviceTwin.Twins.{rest, DealTwinResult, empty_result}
use envoyingresscontroller.DeviceTwin.Adds.{deal_twin_add, deal_one, deal_msg_twin}
use envoyingresscontroller.DeviceTwin.Requests.{
  Device, DtContext, Database, Sent, updated, document, deal_device_twin, conclude, write_twins,
  answer_twins, deal_messages, deal_update_result, build_device_twin_result,
}

-- The result of a request that has no body for a twin that is not there.
abbrev pub lost : Text → DealTwinResult
lost key = record empty_result {
  document = (key, record { last_state = none; current_state = none }) ∷ [];
}

deal_msg_twin-lost :
    (is_float : Text → Bool) (now : ℕ) (id key : Text) (after : List (Text × Option MsgTwin))
    (twins : Map MsgTwin)
    → lookup key twins ≡ none
    → deal_msg_twin is_float now id rest ((key, none) ∷ after) empty_result twins
      ≡ ok (lost key, twins)
unfolding deal_msg_twin deal_one deal_twin_add put
deal_msg_twin-lost is_float now id key after twins e = rw (e, deal_one) refl

-- Storing what is there already changes no lookup.
put-same :
    (id other : Text) (device : Device) (list : Map Device)
    → lookup id list ≡ some device
    → lookup other (put id device list) ≡ lookup other list
put-same id other device list e =
    ground (arith, lookup-put id other device list, eq_iff id other, e)

conclude-lost :
    (db : Database) (id event_id key : Text) (twins : Map MsgTwin) (c : DtContext)
    → (c' : DtContext) × (others : List Sent) × (conclude db id event_id rest twins (lost key) c
        ≡ (c', none))
      × (c'.sent
          ≡ (c.sent ++ updated id event_id [] ∷ [])
            ++ document id event_id (lost key).document ∷ others)
      × (c'.device_list ≡ c.device_list)
unfolding conclude write_twins answer_twins deal_messages deal_update_result
    build_device_twin_result
conclude-lost db id event_id key twins c = (_, _, refl, refl, refl)

-- When the first request of an update of the edge, in the order in which its map gives them, deletes a twin that the device does not
-- have, nobody learns of the error of `dealTwinAdd`, and no request after it is dealt with: the update is answered as a success
-- with nothing in it, a document of that twin is sent, no error is returned, and every device is as it was.
pub deal_device_twin-unnoticed :
    (is_float : Text → Bool) (now : ℕ) (db : Database) (id event_id key : Text)
    (after : List (Text × Option MsgTwin)) (c : DtContext) (device : Device)
    → lookup id c.device_list ≡ some device
    → lookup key device.twin ≡ none
    → (c' : DtContext) × (others : List Sent) × (deal_device_twin is_float now db id event_id
          (some ((key, none) ∷ after))
          rest
          c
        ≡ ok (c', none))
      × (c'.sent
          ≡ (c.sent ++ updated id event_id [] ∷ [])
            ++ document id event_id (lost key).document ∷ others)
      × ((other : Text) → lookup other c'.device_list ≡ lookup other c.device_list)
unfolding deal_device_twin
deal_device_twin-unnoticed is_float now db id event_id key after c device e f =
    let list = put id (record device { twin = device.twin }) c.device_list in
    let (c', others, p, q, same) =
      conclude-lost db id event_id key device.twin (record c { device_list = list }) in
    (
      c',
      others,
      rw (e, deal_msg_twin-lost is_float now id key after device.twin f, deal_device_twin)
          (ap ok p),
      q,
      λ other. ap (lookup other) same ∙ put-same id other device c.device_list e,
    )
