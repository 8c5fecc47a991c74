-- ===== src/DeviceTwin/Answered.antt =====
-- edge/pkg/devicetwin/dtmanager/twin.go: what an update of the edge comes to.
use envoyingresscontroller.Prelude.{
  ℕ, Bool, false, ◌&&◌, ◌≡◌, refl, Option, none, some, List, [], ◌∷◌, ◌++◌, Text, Map, lookup, put,
  is_nil, ◌==◌, eq_refl, Error, ok, Holds-bind, Holds-any, Holds-ok, arith, Option-cases,
  Bool-cases, inl, inr, lookup-put, database_failed,
}
use envoyingresscontroller.DeviceTwin.{MsgTwin}
use envoyingresscontroller.DeviceTwin.Twins.{rest, DealTwinResult, empty_result}
use envoyingresscontroller.DeviceTwin.Adds.{deal_msg_twin}
use envoyingresscontroller.DeviceTwin.Requests.{
  Device, DtContext, Database, Sent, Code, updated, refused, bad_request, deal_device_twin,
  conclude, write_twins, answer_twins, deal_messages, deal_update_result, sync_device_from_sqlite,
}

-- What an update of the edge comes to: without an error, the answer to it is a success and comes first, and the device has
-- other twins at most; with an error, one refusal with that error is all that is sent, and the device is the saved one.
abbrev pub IsAnswered :
    Text → Text → Device → Device → DtContext → DtContext → Option Error → Type 0
IsAnswered id event_id device saved c c' none =
    (result : Map (Option MsgTwin)) × (others : List Sent) × (c'.sent
      ≡ (c.sent ++ updated id event_id result ∷ []) ++ others)
    × ((twins : Map MsgTwin) × (lookup id c'.device_list ≡ some (record device { twin = twins })))
IsAnswered id event_id device saved c c' (some e) =
    (code : Code) × (c'.sent ≡ c.sent ++ refused id event_id code e ∷ [])
    × (lookup id c'.device_list ≡ some saved)

abbrev IsEnd : Text → Text → Device → Device → DtContext → DtContext × Option Error → Type 0
IsEnd id event_id device saved c (c', f) =
    IsAnswered id event_id device saved c c' f
    × ((other : Text)
        → (id == other) ≡ false
        → lookup other c'.device_list ≡ lookup other c.device_list)

-- The context in which the update is concluded.
abbrev with_twins : Text → Device → Map MsgTwin → DtContext → DtContext
with_twins id device twins c = record c {
  device_list = put id (record device { twin = twins }) c.device_list;
}

module _ (db : Database) (id event_id : Text) (device saved : Device) (c : DtContext) where
  others_kept :
      (d : Device) (list : Map Device)
      → ((other : Text) → (id == other) ≡ false → lookup other list ≡ lookup other c.device_list)
      → (other : Text) → (id == other) ≡ false
      → lookup other (put id d list) ≡ lookup other c.device_list
  others_kept d list h other n = ground (arith, lookup-put id other d list, n, h other n)

  stored_there : (d : Device) (list : Map Device) → lookup id (put id d list) ≡ some d
  stored_there d list = ground (arith, lookup-put id id d list, eq_refl id)

  succeeded-IsEnd :
      (twins : Map MsgTwin) (d : DealTwinResult)
      → IsEnd id event_id device saved c
          (answer_twins id event_id rest twins d (with_twins id device twins c, none))
  unfolding answer_twins deal_update_result deal_messages
  succeeded-IsEnd twins d = (
    (_, _, refl, (twins, stored_there (record device { twin = twins }) c.device_list)),
    others_kept (record device { twin = twins }) c.device_list (λ other n. refl),
  )

  -- The database has refused the twins.
  failed-IsEnd :
      (twins : Map MsgTwin) (d : DealTwinResult)
      → IsEnd id event_id device saved c (
          answer_twins id event_id rest twins d (
            record c { device_list = put id saved (with_twins id device twins c).device_list },
            some database_failed,
          ))
  unfolding answer_twins deal_update_result
  failed-IsEnd twins d =
      let list = (with_twins id device twins c).device_list in
      (
        (_, refl, stored_there saved list),
        others_kept saved list
            (others_kept (record device { twin = twins }) c.device_list (λ other n. refl)),
      )

  written-IsEnd :
      (twins : Map MsgTwin) (d : DealTwinResult)
      → db.stored id ≡ some saved
      → IsEnd id event_id device saved c (
          answer_twins id event_id rest twins d
            (write_twins db id d (with_twins id device twins c)))
  unfolding write_twins sync_device_from_sqlite
  written-IsEnd twins d s = elim (Bool-cases (is_nil d.add && is_nil d.update)) [
    | inl p ↦ rw (p, write_twins) (succeeded-IsEnd twins d)
    | inr p ↦ elim (Bool-cases db.accepts) [
      | inl q ↦ rw (p, q, write_twins) (succeeded-IsEnd twins d)
      | inr q ↦ rw (p, q, s, write_twins) (failed-IsEnd twins d)
    ]
  ]

  refused-IsEnd :
      (twins : Map MsgTwin) (e : Error)
      → IsEnd id event_id device saved c (
        record c {
          device_list = put id saved (with_twins id device twins c).device_list;
          sent = c.sent ++ refused id event_id bad_request e ∷ [];
        },
        some e,
      )
  refused-IsEnd twins e =
      let list = (with_twins id device twins c).device_list in
      (
        (_, refl, stored_there saved list),
        others_kept saved list
            (others_kept (record device { twin = twins }) c.device_list (λ other n. refl)),
      )

  conclude-IsEnd :
      (twins : Map MsgTwin) (d : DealTwinResult)
      → db.stored id ≡ some saved
      → IsEnd id event_id device saved c
          (conclude db id event_id rest twins d (with_twins id device twins c))
  unfolding conclude sync_device_from_sqlite deal_update_result
  conclude-IsEnd twins d s = elim (Option-cases d.failure) [
    | inl p ↦ rw (p, conclude) (written-IsEnd twins d s)
    | inr (e, p) ↦ rw (p, conclude) (rw (s, sync_device_from_sqlite) (refused-IsEnd twins e))
  ]

-- When an update of the edge for a device that is listed and in the database is dealt with without a panic, the other devices are as
-- they were. If no error is returned, the first thing sent is the answer of a success, and of the device only the twins may have
-- changed. If an error is returned, whether a request, its value or the database made it, all that is sent is one refusal with that error,
-- and the device is again the one in the database, whatever the update had changed before.
pub deal_device_twin-IsAnswered :
    (is_float : Text → Bool) (now : ℕ) (db : Database) (id event_id : Text)
    (ms : List (Text × Option MsgTwin)) (c c' : DtContext) (device saved : Device)
    (failure : Option Error)
    → lookup id c.device_list ≡ some device
    → db.stored id ≡ some saved
    → deal_device_twin is_float now db id event_id (some ms) rest c ≡ ok (c', failure)
    → IsAnswered id event_id device saved c c' failure
      × ((other : Text)
          → (id == other) ≡ false
          → lookup other c'.device_list ≡ lookup other c.device_list)
unfolding deal_device_twin
deal_device_twin-IsAnswered is_float now db id event_id ms c c' device saved failure p s e =
    Holds-ok (IsEnd id event_id device saved c)
      (deal_device_twin is_float now db id event_id (some ms) rest c) (c', failure)
      (rw (p, deal_device_twin)
        (Holds-bind (λ r. Unit {0}) (IsEnd id event_id device saved c)
          (deal_msg_twin is_float now id rest ms empty_result device.twin) _
          (Holds-any (λ r. Unit {0})
            (deal_msg_twin is_float now id rest ms empty_result device.twin) (λ r. tt))
          (λ (d, twins) _. conclude-IsEnd db id event_id device saved c twins d s)))
      e
