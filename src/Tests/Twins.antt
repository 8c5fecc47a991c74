-- ===== src/Tests/Twins.antt =====
-- Devices, twins and requests that exercise the theorems on the device twins.
use envoyingresscontroller.Prelude.{
  ℕ, ◌+◌, Bool, true, false, ◌≡◌, ◌≢◌, ◌↔◌, refl, none, Option, some, List, [], ◌∷◌, ◌++◌, Text,
  Map, codes, lookup, put, ok, err, panics, Outcome, ◌==◌, Error, bad_value,
}
use envoyingresscontroller.DeviceTwin.{
  int64_zero, TwinVersion, TwinValue, TypeMetadata, MsgTwin, empty_twin,
}
use envoyingresscontroller.DeviceTwin.Twins.{rest, sync, DealTwinResult, empty_result}
use envoyingresscontroller.DeviceTwin.Adds.{deal_msg_twin}
use envoyingresscontroller.DeviceTwin.Requests.{
  MsgAttr, Device, DtContext, Database, Sent, updated, document, deal_device_twin, build_delta,
  text_of, is_live,
}
use envoyingresscontroller.DeviceTwin.Attributes.{DealAttrResult, deal_msg_attr}
use envoyingresscontroller.DeviceTwin.Devices.{
  Member, MemberDatabase, deal_membership_detail, is_member,
}
use envoyingresscontroller.DeviceTwin.Monotone.Loop.{AllGrow, deal_msg_twin-AllGrow}
use envoyingresscontroller.DeviceTwin.Deltas.{build_delta-exact}
use envoyingresscontroller.DeviceTwin.Listed.{is_listed}
use envoyingresscontroller.DeviceTwin.Detail.{deal_membership_detail-exact}
use envoyingresscontroller.DeviceTwin.AttributeKeys.{IsExact, asked, deal_msg_attr-IsExact}
use envoyingresscontroller.DeviceTwin.Answered.{IsAnswered, deal_device_twin-IsAnswered}
use envoyingresscontroller.DeviceTwin.Rejected.{held_twin}
use envoyingresscontroller.DeviceTwin.Unnoticed.{lost, deal_device_twin-unnoticed}

abbrev no_float : Text → Bool
no_float t = false

abbrev version : ℕ → ℕ → TwinVersion
version cloud edge = record { cloud_version = int64_zero + cloud; edge_version = int64_zero + edge }

abbrev text_value : Text → TwinValue
text_value t = record { value = some t; metadata = none }

abbrev kind : Text → TypeMetadata
kind t = record { attr_type = t }

-- A lamp that is to be on and is off.
abbrev lamp : MsgTwin
lamp =
    held_twin (text_value (codes "on")) (version 1 2) true (kind (codes "string"))
      (some (text_value (codes "off"))) (some (version 1 2))

abbrev power : Text
power = codes "power"

abbrev twins : Map MsgTwin
twins = (power, lamp) ∷ []

abbrev request : Text → TwinVersion → MsgTwin
request t v = record empty_twin {
  expected = some (text_value t);
  metadata = some (kind (codes "string"));
  expected_version = some v;
}

abbrev lamp_off : MsgTwin
lamp_off = record lamp {
  expected =
      some (record { value = some (codes "off"); metadata = some (record { timestamp = 7 }) });
  expected_version = some (version 2 2);
}

abbrev value_or : {A : Type 0} → A → Outcome A → A
value_or a (ok b) = b
value_or a (err e) = a
value_or a panics = a

abbrev requests : List (Text × Option MsgTwin)
requests = (power, some (request (codes "off") (version 2 2))) ∷ []

abbrev after : DealTwinResult × Map MsgTwin
after =
    value_or (empty_result, [])
      (deal_msg_twin no_float 7 (codes "lamp") sync requests empty_result twins)

requests_dealt : deal_msg_twin no_float 7 (codes "lamp") sync requests empty_result twins ≡ ok after
unfolding deal_msg_twin lookup ◌==◌ put
requests_dealt = refl

requests_off : after.1 ≡ (power, lamp_off) ∷ []
unfolding deal_msg_twin lookup ◌==◌ put
requests_off = refl

deal_msg_twin-AllGrow_example : AllGrow twins after.1
deal_msg_twin-AllGrow_example =
    deal_msg_twin-AllGrow no_float 7 (codes "lamp") sync requests empty_result after.0 twins after.1
      refl requests_dealt

abbrev no_twins : Map MsgTwin
no_twins = []

no_power : lookup power no_twins ≡ none
unfolding lookup
no_power = refl

build_delta-exact_example : (lookup power (build_delta twins) ≡ some (codes "on")) ↔ (
    (t : MsgTwin) × (lookup power twins ≡ some t)
    × (is_live t ≡ true)
    × (text_of t.expected ≡ codes "on")
    × (codes "on" ≢ [])
    × (text_of t.actual ≢ codes "on"))
build_delta-exact_example = build_delta-exact twins power (codes "on") (no_power, tt)

-- An update of the edge with a value that is no number.
abbrev number_twin : MsgTwin
number_twin = record lamp { metadata = some (kind (codes "int")) }

abbrev bad_requests : List (Text × Option MsgTwin)
bad_requests = (power, some (request (codes "on") (version 0 0))) ∷ []

abbrev device : Map MsgTwin → Device
device ts = record {
  id = codes "lamp";
  name = codes "lamp";
  description = [];
  state = codes "online";
  last_online = [];
  attributes = [];
  twin = ts;
}

abbrev numbers : Device
numbers = device ((power, number_twin) ∷ [])

abbrev context : Device → DtContext
context d = record {
  device_list = (codes "lamp", d) ∷ [];
  device_mutex = codes "lamp" ∷ [];
  sent = [];
}

abbrev database : Database
database = record { accepts = true; stored = λ id. some numbers }

found_numbers : lookup (codes "lamp") (context numbers).device_list ≡ some numbers
unfolding lookup ◌==◌
found_numbers = refl

abbrev refusal : DtContext × Option Error
refusal =
    value_or (context numbers, none)
      (deal_device_twin no_float 7 database (codes "lamp") (codes "e") (some bad_requests) rest
        (context numbers))

requests_refused :
    deal_device_twin no_float 7 database
      (codes "lamp")
      (codes "e")
      (some bad_requests)
      rest
      (context numbers)
    ≡ ok (refusal.0, some bad_value)
unfolding deal_device_twin lookup ◌==◌ put
requests_refused = refl

deal_device_twin-IsAnswered_example :
    IsAnswered
      (codes "lamp")
      (codes "e")
      numbers
      numbers
      (context numbers)
      refusal.0
      (some bad_value)
    × ((other : Text)
        → (codes "lamp" == other) ≡ false
        → lookup other refusal.0.device_list ≡ lookup other (context numbers).device_list)
deal_device_twin-IsAnswered_example =
    deal_device_twin-IsAnswered no_float 7 database (codes "lamp") (codes "e") bad_requests
      (context numbers) refusal.0 numbers numbers (some bad_value) found_numbers refl
      requests_refused

abbrev late : MsgTwin
late = request (codes "off") (version 1 1)

abbrev bare : Device
bare = device []

found_bare : lookup (codes "lamp") (context bare).device_list ≡ some bare
unfolding lookup ◌==◌
found_bare = refl

deal_device_twin-unnoticed_example :
    (c' : DtContext) × (others : List Sent) × (deal_device_twin no_float 7 database
        (codes "lamp")
        (codes "e")
        (some ((power, none) ∷ bad_requests))
        rest
        (context bare)
      ≡ ok (c', none))
    × (c'.sent
        ≡ ((context bare).sent ++ updated (codes "lamp") (codes "e") [] ∷ [])
          ++ document (codes "lamp") (codes "e") (lost power).document ∷ others)
    × ((other : Text) → lookup other c'.device_list ≡ lookup other (context bare).device_list)
deal_device_twin-unnoticed_example =
    deal_device_twin-unnoticed no_float 7 database (codes "lamp") (codes "e") power bad_requests
      (context bare) bare found_bare no_power

-- A detail with one device that is there and one that is new, while a third goes.
abbrev member : Text → Member
member id = record {
  id = id;
  name = id;
  description = [];
  state = [];
  attributes = none;
  twin = some [];
}

abbrev members : List Member
members = member (codes "lamp") ∷ member (codes "fan") ∷ []

abbrev crowd : DtContext
crowd = record {
  device_list = (codes "lamp", bare) ∷ (codes "door", bare) ∷ [];
  device_mutex = codes "lamp" ∷ codes "door" ∷ [];
  sent = [];
}

abbrev willing : MemberDatabase
willing = record { creates = λ id. true; of_device = λ id. database }

abbrev detailed : DtContext
detailed = value_or crowd (deal_membership_detail no_float 7 willing members crowd)

detail_dealt : deal_membership_detail no_float 7 willing members crowd ≡ ok detailed
unfolding deal_membership_detail lookup ◌==◌ put
detail_dealt = refl

deal_membership_detail-exact_example :
    is_listed (codes "door") detailed.device_list ≡ is_member (codes "door") members
deal_membership_detail-exact_example =
    deal_membership_detail-exact no_float 7 willing members crowd detailed detail_dealt
      (codes "door")

abbrev colour : MsgAttr
colour = record { value = codes "red"; optional = some true; metadata = none }

abbrev attributes : List (Text × Option MsgAttr)
attributes = (codes "colour", some colour) ∷ []

abbrev held_attributes : Map MsgAttr
held_attributes =
    (codes "size", colour) ∷ (codes "colour", record colour { value = codes "blue" }) ∷ []

abbrev painted : DealAttrResult
painted =
    value_or (record { add = []; delete = []; update = []; result = []; attributes = [] })
      (deal_msg_attr (codes "lamp") true attributes held_attributes)

attributes_dealt : deal_msg_attr (codes "lamp") true attributes held_attributes ≡ ok painted
unfolding deal_msg_attr lookup ◌==◌ put
attributes_dealt = refl

deal_msg_attr-IsExact_example :
    IsExact (asked (codes "colour") attributes) (lookup (codes "colour") painted.attributes)
deal_msg_attr-IsExact_example =
    deal_msg_attr-IsExact (codes "lamp") attributes held_attributes painted attributes_dealt
      (codes "colour")
