-- ===== src/DeviceTwin/Listed.antt =====
-- edge/pkg/devicetwin/dtmanager/twin.go and device.go: an update of a device leaves the list of devices as it is.
use envoyingresscontroller.Prelude.{
  ℕ, Bool, true, false, not, ◌&&◌, ◌||◌, ◌≡◌, refl, ap, ◌∙◌, Option, none, some, List, Text, Map,
  lookup, put, remove, ◌==◌, eq_iff, Error, Holds, Holds-bind, Holds-any, arith, Option-cases, inl,
  inr, lookup-put, lookup-remove,
}
use envoyingresscontroller.DeviceTwin.{MsgTwin}
use envoyingresscontroller.DeviceTwin.Twins.{sync, empty_result, DealTwinResult}
use envoyingresscontroller.DeviceTwin.Adds.{deal_msg_twin}
use envoyingresscontroller.DeviceTwin.Requests.{
  MsgAttr, Device, DtContext, Database, sync_device_from_sqlite, write_twins, answer_twins,
  conclude, deal_device_twin, deal_update_result, deal_messages,
}
use envoyingresscontroller.DeviceTwin.Attributes.{
  update_device_attr, write_attrs, deal_msg_attr, DealAttrResult,
}

-- A device is listed.
abbrev pub is_listed : Text → Map Device → Bool
is_listed id devices = elim (lookup id devices) [ none ↦ false | some d ↦ true ]

pub put-listed :
    (id j : Text) (d : Device) (m : Map Device)
    → is_listed j (put id d m) ≡ (id == j || is_listed j m)
put-listed id j d m = ground (arith, lookup-put id j d m, eq_iff id j)

pub remove-listed :
    (id j : Text) (m : Map Device) → is_listed j (remove id m) ≡ (not (id == j) && is_listed j m)
remove-listed id j m = ground (arith, lookup-remove id j m)

-- The same devices are listed.
abbrev pub SameListed : Map Device → DtContext → Type 0
SameListed m c = (j : Text) → is_listed j c.device_list ≡ is_listed j m

-- A device that is listed is stored anew.
pub put-SameListed :
    (id : Text) (d : Device) (m : Map Device)
    → is_listed id m ≡ true
    → (j : Text) → is_listed j (put id d m) ≡ is_listed j m
put-SameListed id d m l j = ground (arith, put-listed id j d m, eq_iff id j, l)

sync_device-SameListed :
    (db : Database) (id : Text) (m : Map Device) (c : DtContext)
    → is_listed id m ≡ true
    → SameListed m c
    → SameListed m (sync_device_from_sqlite db id c)
unfolding sync_device_from_sqlite
sync_device-SameListed db id m c l s = elim (Option-cases (db.stored id)) [
  | inl e ↦ rw (e, sync_device_from_sqlite) s
  | inr (d, e) ↦
      rw (e, sync_device_from_sqlite) (λ j. put-SameListed id d c.device_list (s id ∙ l) j ∙ s j)
]

-- What is sent leaves the list of devices alone.
deal_update_result-devices :
    (id e : Text) (code : _) (f : Option Error) (r : _) (c : DtContext)
    → (deal_update_result id e code f r c).device_list ≡ c.device_list
unfolding deal_update_result
deal_update_result-devices id e code none r c = refl
deal_update_result-devices id e code (some x) r c = refl

write_twins-SameListed :
    (db : Database) (id : Text) (d : DealTwinResult) (m : Map Device) (c : DtContext)
    → is_listed id m ≡ true
    → SameListed m c
    → SameListed m (write_twins db id d c).0
unfolding write_twins
write_twins-SameListed db id d m c l s = ground (arith, s, sync_device-SameListed db id m c l s)

answer_twins-devices :
    (id e : Text) (twins : Map MsgTwin) (d : DealTwinResult) (r : DtContext × Option Error)
    → (answer_twins id e sync twins d r).0.device_list ≡ r.0.device_list
unfolding answer_twins deal_messages
answer_twins-devices id e twins d (c, f) = refl

conclude-SameListed :
    (db : Database) (id e : Text) (twins : Map MsgTwin) (d : DealTwinResult) (m : Map Device)
    (c : DtContext)
    → is_listed id m ≡ true
    → SameListed m c
    → SameListed m (conclude db id e sync twins d c).0
unfolding conclude
conclude-SameListed db id e twins d m c l s j =
    ap (is_listed j) (answer_twins-devices id e twins d (write_twins db id d c))
    ∙ write_twins-SameListed db id d m c l s j

abbrev pub FirstListed : Map Device → DtContext × Option Error → Type 0
FirstListed m (c, e) = SameListed m c

pub listed_here :
    (id : Text) (m : Map Device) (d : Device) → lookup id m ≡ some d → is_listed id m ≡ true
listed_here id m d e = rw (e, is_listed) refl

pub deal_device_twin-SameListed :
    (is_float : Text → Bool) (now : ℕ) (db : Database) (id e : Text)
    (twins : Option (List (Text × Option MsgTwin))) (c : DtContext)
    → Holds (FirstListed c.device_list) (deal_device_twin is_float now db id e twins sync c)
unfolding deal_device_twin
deal_device_twin-SameListed is_float now db id e twins c =
    elim (Option-cases (lookup id c.device_list)) [
      | inl p ↦ rw (p, deal_device_twin) (λ j. refl)
      | inr (device, p) ↦ elim (Option-cases twins) [
        | inl q ↦ rw (p, q, deal_device_twin) (λ j. refl)
        | inr (ms, q) ↦
            rw (p, q, deal_device_twin)
              (Holds-bind (λ x. Unit {0}) (FirstListed c.device_list) _ _
                (Holds-any (λ x. Unit {0})
                  (deal_msg_twin is_float now id sync ms empty_result device.twin) (λ x. tt))
                (λ x _.
                  let l = listed_here id c.device_list device p in
                  conclude-SameListed db id e x.1 x.0 c.device_list
                    (record c { device_list = put id (record device { twin = x.1 }) c.device_list })
                    l (put-SameListed id (record device { twin = x.1 }) c.device_list l)))
      ]
    ]

write_attrs-SameListed :
    (db : Database) (id e : Text) (d : DealAttrResult) (m : Map Device) (c : DtContext)
    → is_listed id m ≡ true
    → SameListed m c
    → SameListed m (write_attrs db id e d c)
unfolding write_attrs
write_attrs-SameListed db id e d m c l s = ground (arith, s, sync_device-SameListed db id m c l s)

pub update_device_attr-SameListed :
    (db : Database) (id e : Text) (is_detail : Bool) (ms : List (Text × Option MsgAttr))
    (c : DtContext)
    → Holds (SameListed c.device_list) (update_device_attr db id e is_detail ms c)
unfolding update_device_attr
update_device_attr-SameListed db id e is_detail ms c =
    elim (Option-cases (lookup id c.device_list)) [
      | inl p ↦ rw (p, update_device_attr) (λ j. refl)
      | inr (device, p) ↦
          rw (p, update_device_attr)
            (Holds-bind (λ x. Unit {0}) (SameListed c.device_list) _ _
              (Holds-any (λ x. Unit {0}) (deal_msg_attr id is_detail ms device.attributes)
                (λ x. tt))
              (λ d _.
                let l = listed_here id c.device_list device p in
                write_attrs-SameListed db id e d c.device_list
                  (record c {
                    device_list =
                        put id (record device { attributes = d.attributes }) c.device_list;
                  })
                  l
                  (put-SameListed id (record device { attributes = d.attributes }) c.device_list
                    l)))
    ]
