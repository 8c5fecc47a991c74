-- ===== src/DeviceTwin.antt =====
-- edge/pkg/devicetwin/dttype and dtcommon: twins of devices, their versions and values, and what the
-- edge keeps of them. An int64 is its distance from the least one, so that its order is that of the
-- numbers and its wrap-around that of 64 bits. JSON forms are the values that they are made of, and
-- copies by way of JSON are the values themselves.
pub mod Twins
pub mod Compare
pub mod Adds
pub mod Requests
pub mod Attributes
pub mod Devices
pub mod Monotone
pub mod Rejected
pub mod Answered
pub mod Unnoticed
pub mod Deltas
pub mod Listed
pub mod AttributeChanges
pub mod AttributeKeys
pub mod Detail
use envoyingresscontroller.Prelude.{
  ℕ, suc, zero, ◌+◌, ◌-◌, ◌%◌, ◌^◌, Bool, true, false, not, ◌&&◌, ◌||◌, Option, none, some, List,
  [], ◌∷◌, ◌++◌, Text, Map, codes, lookup, put, remove, is_nil, eqb, ltb, leb, if◌then◌else◌, ◌==◌,
  Error, Outcome, ok, err, panics, deref, ◌>>=◌, bad_value, parse_digits,
}

abbrev pub int64_zero : ℕ
int64_zero = 2 ^ 63

-- x + 1
abbrev pub int64_suc : ℕ → ℕ
int64_suc n = suc n % 2 ^ 64

pub record TwinVersion : Type 0 where
  pub cloud_version : ℕ
  pub edge_version : ℕ

-- &TwinVersion{}
abbrev pub zero_version : TwinVersion
zero_version = record { cloud_version = int64_zero; edge_version = int64_zero }

pub record ValueMetadata : Type 0 where
  pub timestamp : ℕ

pub record TypeMetadata : Type 0 where
  pub attr_type : Text

pub record TwinValue : Type 0 where
  pub value : Option Text
  pub metadata : Option ValueMetadata

pub record MsgTwin : Type 0 where
  pub expected : Option TwinValue
  pub actual : Option TwinValue
  pub optional : Option Bool
  pub metadata : Option TypeMetadata
  pub expected_version : Option TwinVersion
  pub actual_version : Option TwinVersion

-- &MsgTwin{}
abbrev pub empty_twin : MsgTwin
empty_twin = record {
  expected = none;
  actual = none;
  optional = none;
  metadata = none;
  expected_version = none;
  actual_version = none;
}

-- The two values of a twin, DealExpected and DealActual.
pub data Side : Type 0 where
  expected_side : Side
  actual_side : Side

abbrev pub value_of : Side → MsgTwin → Option TwinValue
value_of expected_side t = t.expected
value_of actual_side t = t.actual

abbrev pub version_of : Side → MsgTwin → Option TwinVersion
version_of expected_side t = t.expected_version
version_of actual_side t = t.actual_version

abbrev pub set_value : Side → Option TwinValue → MsgTwin → MsgTwin
set_value expected_side v t = record t { expected = v }
set_value actual_side v t = record t { actual = v }

abbrev pub set_version : Side → Option TwinVersion → MsgTwin → MsgTwin
set_version expected_side v t = record t { expected_version = v }
set_version actual_side v t = record t { actual_version = v }

-- CopyMsgTwin
unfoldable pub copy_msg_twin : MsgTwin → Bool → MsgTwin
copy_msg_twin t no_version =
    if no_version then record t { expected_version = none; actual_version = none } else t

abbrev pub string_type : Text
string_type = codes "string"

abbrev pub deleted_type : Text
deleted_type = codes "deleted"

abbrev pub is_deleted : TypeMetadata → Bool
is_deleted m = m.attr_type == deleted_type

pub record TwinDoc : Type 0 where
  pub last_state : Option MsgTwin
  pub current_state : Option MsgTwin

-- dtclient.DeviceTwin, the row of a twin: no text and no JSON form are empty and missing.
pub record DeviceTwin : Type 0 where
  pub device_id : Text
  pub name : Text
  pub expected : Text
  pub actual : Text
  pub expected_meta : Option ValueMetadata
  pub actual_meta : Option ValueMetadata
  pub expected_version : Option TwinVersion
  pub actual_version : Option TwinVersion
  pub optional : Bool
  pub attr_type : Text
  pub metadata : Option TypeMetadata

abbrev pub type_or_string : Option TypeMetadata → Text
type_or_string none = string_type
type_or_string (some m) = m.attr_type

abbrev pub flag_or_true : Option Bool → Bool
flag_or_true none = true
flag_or_true (some b) = b

-- MsgTwinToDeviceTwin
unfoldable pub msg_twin_to_device_twin : Text → MsgTwin → DeviceTwin
msg_twin_to_device_twin name t = record {
  device_id = [];
  name = name;
  expected = [];
  actual = [];
  expected_meta = none;
  actual_meta = none;
  expected_version = none;
  actual_version = none;
  optional = flag_or_true t.optional;
  attr_type = type_or_string t.metadata;
  metadata = none;
}

-- One twin of DeviceTwinToMsgTwin: the metadata of the actual value is read and not kept.
unfoldable pub row_twin : DeviceTwin → MsgTwin
row_twin row = record {
  expected =
      if is_nil row.expected
      then none
      else some (record { value = some row.expected; metadata = row.expected_meta });
  actual =
      if is_nil row.actual
      then none
      else some (record { value = some row.actual; metadata = none });
  optional = some row.optional;
  metadata = some (record { attr_type = row.attr_type });
  expected_version = row.expected_version;
  actual_version = row.actual_version;
}

-- DeviceTwinToMsgTwin
unfoldable pub device_twin_to_msg_twin : List DeviceTwin → Map MsgTwin → Map MsgTwin
unfolding row_twin
device_twin_to_msg_twin [] twins = twins
device_twin_to_msg_twin (row ∷ rows) twins =
    device_twin_to_msg_twin rows (put row.name (row_twin row) twins)

-- strconv.ParseInt(value, 10, 64), whether it succeeds: a sign or none, and digits in range.
unfoldable pub in_range : ℕ → Text → Bool
unfolding parse_digits
in_range limit s = not (is_nil s) && elim (parse_digits 0 s) [ none ↦ false | some n ↦ ltb n limit ]

unfoldable pub is_int : Text → Bool
unfolding in_range
is_int [] = false
is_int (b ∷ s) =
    if eqb b b'-'
    then in_range (2 ^ 63 + 1) s
    else if eqb b b'+'
    then in_range (2 ^ 63) s
    else in_range (2 ^ 63) (b ∷ s)

-- ValidateValue; `is_float` tells what strconv.ParseFloat takes.
unfoldable pub validate_value : (Text → Bool) → Text → Text → Option Error
unfolding is_int
validate_value is_float value_type value =
    if is_nil value_type || value_type == string_type
    then none
    else if value_type == codes "int"
    then if is_int value then none else some bad_value
    else if value_type == codes "float"
    then if is_float value then none else some bad_value
    else if value_type == codes "boolean"
    then if value == codes "true" || value == codes "false" then none else some bad_value
    else if value_type == deleted_type
    then none
    else some bad_value
