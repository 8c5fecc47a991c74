-- ===== src/DeviceTwin/Devices.antt =====
-- edge/pkg/devicetwin/dtmanager/membership.go: the devices of the node. Every caller passes false for
-- `delta`, so that the event's identity is empty, no device is locked and the deal types are those of
-- the cloud.
use envoyingresscontroller.Prelude.{
  ℕ, Bool, true, false, ◌||◌, Option, none, some, List, [], ◌∷◌, Text, Map, lookup, put, remove,
  add, discard, any, if◌then◌else◌, ◌==◌, Outcome, ok, panics, ◌>>=◌,
}
use envoyingresscontroller.DeviceTwin.{MsgTwin}
use envoyingresscontroller.DeviceTwin.Twins.{sync}
use envoyingresscontroller.DeviceTwin.Requests.{
  MsgAttr, Device, DtContext, Database, members_added, members_removed, send_all, deal_device_twin,
}
use envoyingresscontroller.DeviceTwin.Attributes.{update_device_attr}

-- A device as a message of the cloud has it: its maps may be missing, and hold nothing under a key.
pub record Member : Type 0 where
  pub id : Text
  pub name : Text
  pub description : Text
  pub state : Text
  pub attributes : Option (List (Text × Option MsgAttr))
  pub twin : Option (List (Text × Option MsgTwin))

-- What the database answers: whether it takes a new device, and what each device finds.
pub record MemberDatabase : Type 0 where
  pub creates : Text → Bool
  pub of_device : Text → Database

abbrev new_device : Member → Device
new_device m = record {
  id = m.id;
  name = m.name;
  description = m.description;
  state = m.state;
  last_online = [];
  attributes = [];
  twin = [];
}

abbrev pub listed : {A : Type 0} → Option (List A) → List A
listed none = []
listed (some xs) = xs

-- MarshalMembershipUpdate reads each twin.
abbrev is_missing : {A : Type 0} → Text × Option A → Bool
is_missing (key, none) = true
is_missing (key, some a) = false

-- The message on a member that was added.
unfoldable pub announce : Member → DtContext → Outcome DtContext
announce m c =
    if any is_missing (listed m.twin)
    then panics
    else ok (send_all (members_added (new_device m) ∷ []) c)

-- The part of `addDevice` for a device that is there.
unfoldable pub update_member :
    (Text → Bool) → ℕ → MemberDatabase → Member → DtContext → Outcome DtContext
unfolding update_device_attr deal_device_twin
update_member is_float now db m c =
    update_device_attr (db.of_device m.id) m.id [] true (listed m.attributes) c >>= λ c'.
    deal_device_twin is_float now (db.of_device m.id) m.id [] m.twin sync c' >>= λ (c'', e). ok c''

unfoldable pub add_twins :
    (Text → Bool) → ℕ → MemberDatabase → Member → DtContext → Outcome DtContext
unfolding deal_device_twin
add_twins is_float now db m c = elim m.twin [
  | none ↦ ok c
  | some twins ↦
      deal_device_twin is_float now (db.of_device m.id) m.id [] (some twins) sync c >>= λ (c', e).
      ok c'
]

unfoldable pub add_attributes : MemberDatabase → Member → DtContext → Outcome DtContext
unfolding update_device_attr
add_attributes db m c = elim m.attributes [
  | none ↦ ok c
  | some attributes ↦ update_device_attr (db.of_device m.id) m.id [] true attributes c
]

unfoldable pub store_member : Member → DtContext → DtContext
store_member m c = record c {
  device_mutex = add m.id c.device_mutex;
  device_list = put m.id (new_device m) c.device_list;
}

-- The part of `addDevice` for a new device. When the database does not take it, a mutex that nobody
-- locked is unlocked, which ends the program.
unfoldable pub create_member :
    (Text → Bool) → ℕ → MemberDatabase → Member → DtContext → Outcome DtContext
unfolding add_twins add_attributes announce store_member
create_member is_float now db m c =
    let created =
      add_twins is_float now db m (store_member m c) >>= add_attributes db m >>= announce m in
    if db.creates m.id then created else panics

unfoldable pub add_member :
    (Text → Bool) → ℕ → MemberDatabase → Member → DtContext → Outcome DtContext
unfolding update_member create_member
add_member is_float now db m c = elim (lookup m.id c.device_list) [
  | some device ↦ update_member is_float now db m c
  | none ↦ create_member is_float now db m c
]

-- addDevice
unfoldable pub add_device :
    (Text → Bool) → ℕ → MemberDatabase → List Member → DtContext → Outcome DtContext
unfolding add_member
add_device is_float now db [] c = ok c
add_device is_float now db (m ∷ ms) c =
    add_member is_float now db m c >>= add_device is_float now db ms

-- One device of `removeDevice`: it goes whatever the database answers.
unfoldable pub remove_member : Text → DtContext → DtContext
remove_member id c = elim (lookup id c.device_list) [
  | none ↦ c
  | some device ↦
      send_all (members_removed id ∷ []) (record c {
        device_list = remove id c.device_list;
        device_mutex = discard id c.device_mutex;
      })
]

-- removeDevice
unfoldable pub remove_device : List Text → DtContext → DtContext
unfolding remove_member
remove_device [] c = c
remove_device (id ∷ ids) c = remove_device ids (remove_member id c)

abbrev pub is_member : Text → List Member → Bool
is_member id [] = false
is_member id (m ∷ ms) = m.id == id || is_member id ms

-- getRemoveList
unfoldable pub get_remove_list : List Member → Map Device → List Text
get_remove_list ms [] = []
get_remove_list ms ((id, device) ∷ devices) =
    let others = get_remove_list ms devices in if is_member id ms then others else id ∷ others

-- dealMembershipDetail, for the devices that the message has.
unfoldable pub deal_membership_detail :
    (Text → Bool) → ℕ → MemberDatabase → List Member → DtContext → Outcome DtContext
unfolding add_device get_remove_list remove_device
deal_membership_detail is_float now db ms c = add_device is_float now db ms c >>= λ c'.
    ok (remove_device (get_remove_list ms c'.device_list) c')

-- dealMembershipUpdate, for the devices to add and the identities of those to remove.
unfoldable pub deal_membership_update :
    (Text → Bool) → ℕ → MemberDatabase → List Member → List Text → DtContext → Outcome DtContext
unfolding add_device remove_device
deal_membership_update is_float now db added removed c =
    add_device is_float now db added c >>= λ c'. ok (remove_device removed c')
