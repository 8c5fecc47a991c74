-- ===== src/DeviceTwin/Attributes.antt =====
-- edge/pkg/devicetwin/dtmanager/device.go: what a request does to the attributes of a device, and its
-- state.
use envoyingresscontroller.Prelude.{
  Bool, true, false, not, ◌&&◌, ◌||◌, Option, none, some, List, [], ◌∷◌, ◌++◌, Text, Map, codes,
  lookup, put, remove, is_nil, if◌then◌else◌, ◌==◌, Outcome, ok, panics, deref, ◌>>=◌,
}
use envoyingresscontroller.DeviceTwin.{TypeMetadata, type_or_string, flag_or_true}
use envoyingresscontroller.DeviceTwin.Twins.{
  text_column, flag_column, type_column, Columns, DeviceTwinUpdate,
}
use envoyingresscontroller.DeviceTwin.Requests.{
  MsgAttr, Device, DtContext, Database, attributes_updated, state_published, state_synced, send_all,
  sync_device_from_sqlite,
}

-- dtclient.DeviceAttr, the row of an attribute.
pub record DeviceAttr : Type 0 where
  pub device_id : Text
  pub name : Text
  pub value : Text
  pub optional : Bool
  pub attr_type : Text
  pub metadata : Option TypeMetadata

-- MsgAttrToDeviceAttr
unfoldable pub msg_attr_to_device_attr : Text → MsgAttr → DeviceAttr
msg_attr_to_device_attr name a = record {
  device_id = [];
  name = name;
  value = [];
  optional = flag_or_true a.optional;
  attr_type = type_or_string a.metadata;
  metadata = none;
}

-- dttype.DealAttrResult, with the rows to delete by their names, and the attributes beside it.
pub record DealAttrResult : Type 0 where
  pub add : List DeviceAttr
  pub delete : List Text
  pub update : List DeviceTwinUpdate
  pub result : Map (Option MsgAttr)
  pub attributes : Map MsgAttr

-- The change of an attribute so far: the attribute, the columns, what the result has, whether it changed.
pub record Change : Type 0 where
  pub attr : MsgAttr
  pub cols : Columns
  pub noted : MsgAttr
  pub is_change : Bool

unfoldable pub change_value : MsgAttr → Change → Change
change_value m c = if c.attr.value == m.value then c else record {
  attr = record (c.attr) { value = m.value };
  cols = put (codes "value") (text_column (some m.value)) c.cols;
  noted = record (c.noted) { value = m.value };
  is_change = true;
}

-- The JSON forms of the metadata are compared: "null" is that of none.
abbrev pub same_metadata : Option TypeMetadata → TypeMetadata → Bool
same_metadata none m = false
same_metadata (some held) m = held.attr_type == m.attr_type

unfoldable pub change_metadata : MsgAttr → Change → Change
change_metadata m c = elim m.metadata [
  | none ↦ c
  | some meta ↦ if same_metadata c.attr.metadata meta then c else record {
    attr = record (c.attr) { metadata = some meta };
    cols =
        put (codes "metadata") (type_column (record { attr_type = [] }))
          (put (codes "attr_type") (text_column (some meta.attr_type)) c.cols);
    noted = record (c.noted) { metadata = some meta };
    is_change = true;
  }
]

unfoldable pub change_optional : MsgAttr → Change → Outcome Change
change_optional m c = elim m.optional [
  | none ↦ ok c
  | some wanted ↦ deref c.attr.optional >>= λ optional. ok (
      if optional && not wanted
      then record {
        attr = record (c.attr) { optional = some wanted };
        cols = put (codes "optional") (flag_column wanted) c.cols;
        noted = record (c.noted) { optional = some wanted };
        is_change = true;
      }
      else c)
]

abbrev pub empty_attr : MsgAttr
empty_attr = record { value = []; optional = none; metadata = none }

-- The change of an attribute that is there.
unfoldable pub change_attr : MsgAttr → MsgAttr → Outcome Change
unfolding change_value change_metadata change_optional
change_attr attr m = change_optional m (
    change_metadata m
      (change_value m (record { attr = attr; cols = []; noted = empty_attr; is_change = false })))

unfoldable pub note_change : Text → Text → Change → DealAttrResult → DealAttrResult
note_change device_id key c d =
    if c.is_change
    then record d {
      update = d.update ++ record { device_id = device_id; name = key; cols = c.cols } ∷ [];
      result = put key (some c.noted) d.result;
      attributes = put key c.attr d.attributes;
    }
    else record d { result = remove key d.result; attributes = put key c.attr d.attributes }

-- A round of `DealMsgAttr` on an attribute that is there.
unfoldable pub update_attr :
    Text → Text → MsgAttr → Option MsgAttr → Bool → DealAttrResult → Outcome DealAttrResult
unfolding change_attr note_change
update_attr device_id key attr none is_detail d =
    if is_detail
    then panics
    else deref attr.optional >>= λ optional. ok (
        if optional
        then record d {
          delete = d.delete ++ key ∷ [];
          result = put key none d.result;
          attributes = remove key d.attributes;
        }
        else d)
update_attr device_id key attr (some m) is_detail d =
    change_attr attr m >>= λ c. ok (note_change device_id key c d)

-- A round of `DealMsgAttr` on an attribute that is not there.
unfoldable pub add_attr : Text → Text → MsgAttr → DealAttrResult → DealAttrResult
unfolding msg_attr_to_device_attr
add_attr device_id key m d =
    let row : DeviceAttr = record (msg_attr_to_device_attr key m) {
      device_id = device_id;
      value = m.value;
      metadata = elim m.metadata [ none ↦ none | some t ↦ some (record { attr_type = [] }) ];
    } in
    record d {
      add = d.add ++ row ∷ [];
      attributes = put key m d.attributes;
      result = put key (some m) d.result;
    }

unfoldable pub deal_attr :
    Text → Bool → Text → Option MsgAttr → DealAttrResult → Outcome DealAttrResult
unfolding update_attr add_attr
deal_attr device_id is_detail key m d = elim (lookup key d.attributes) [
  | some attr ↦ update_attr device_id key attr m is_detail d
  | none ↦ deref m >>= λ a. ok (add_attr device_id key a d)
]

unfoldable pub deal_attrs :
    Text → Bool → List (Text × Option MsgAttr) → DealAttrResult → Outcome DealAttrResult
unfolding deal_attr
deal_attrs device_id is_detail [] d = ok d
deal_attrs device_id is_detail ((key, m) ∷ ms) d =
    deal_attr device_id is_detail key m d >>= deal_attrs device_id is_detail ms

abbrev pub requested : Text → List (Text × Option MsgAttr) → Bool
requested key [] = false
requested key ((k, m) ∷ ms) = k == key || requested key ms

unfoldable pub retire_one : Bool → Text → DealAttrResult → DealAttrResult
retire_one true key d = d
retire_one false key d = record d { delete = d.delete ++ key ∷ []; result = put key none d.result }

-- The attributes that a detail does not have are deleted, in the order of the map.
unfoldable pub retire : List (Text × Option MsgAttr) → Map MsgAttr → DealAttrResult → DealAttrResult
unfolding retire_one
retire ms [] d = d
retire ms ((key, a) ∷ held) d = retire ms held (retire_one (requested key ms) key d)

unfoldable pub remove_all : List Text → Map MsgAttr → Map MsgAttr
remove_all [] m = m
remove_all (key ∷ keys) m = remove_all keys (remove key m)

unfoldable pub apply_deletes : DealAttrResult → DealAttrResult
unfolding remove_all
apply_deletes d = record d { attributes = remove_all d.delete d.attributes }

-- DealMsgAttr; a detail has the deal type 1.
unfoldable pub deal_msg_attr :
    Text → Bool → List (Text × Option MsgAttr) → Map MsgAttr → Outcome DealAttrResult
unfolding deal_attrs retire apply_deletes
deal_msg_attr device_id is_detail ms held =
    deal_attrs device_id is_detail ms
      (record { add = []; delete = []; update = []; result = []; attributes = held })
    >>= λ d. ok (if is_detail then apply_deletes (retire ms d.attributes d) else d)

-- What UpdateDeviceAttr does with the result: nothing to write, a write, or the device from the database.
unfoldable pub write_attrs : Database → Text → Text → DealAttrResult → DtContext → DtContext
unfolding sync_device_from_sqlite
write_attrs db device_id event_id d c =
    if is_nil d.add && is_nil d.delete && is_nil d.update
    then c
    else if db.accepts
    then send_all (attributes_updated device_id event_id d.result ∷ []) c
    else sync_device_from_sqlite db device_id c

-- UpdateDeviceAttr
unfoldable pub update_device_attr :
    Database → Text → Text → Bool → List (Text × Option MsgAttr) → DtContext → Outcome DtContext
unfolding deal_msg_attr write_attrs
update_device_attr db device_id event_id is_detail ms c = elim (lookup device_id c.device_list) [
  | none ↦ ok c
  | some device ↦ deal_msg_attr device_id is_detail ms device.attributes >>= λ d. ok (
      write_attrs db device_id event_id d (record c {
        device_list = put device_id (record device { attributes = d.attributes }) c.device_list;
      }))
]

-- dealDeviceStateUpdate, for a state that the payload has at the time of a text. The state is set and
-- sent whether or not the database takes it.
unfoldable pub deal_device_state_update : Text → Text → Text → DtContext → DtContext
deal_device_state_update now device_id state c = elim (lookup device_id c.device_list) [
  | none ↦ c
  | some device ↦
      if state == codes "online" || state == codes "offline" || state == codes "unknown"
      then (let changed : Device = record device { state = state; last_online = now } in
          send_all (state_published changed ∷ state_synced changed ∷ [])
            (record c { device_list = put device_id changed c.device_list }))
      else c
]
