-- ===== src/DeviceTwin/Rejected.antt =====
-- edge/pkg/devicetwin/dtmanager/twin.go: requests of the cloud that are rejected for their version.
use envoyingresscontroller.Prelude.{ℕ, Bool, false, Option, none, some, Text, put}
use envoyingresscontroller.DeviceTwin.{TwinVersion, TwinValue, TypeMetadata, MsgTwin}
use envoyingresscontroller.DeviceTwin.Twins.{DealType, DealTwinResult, Progress, begin, open_deal}
use envoyingresscontroller.DeviceTwin.Compare.{last_of}

-- A twin that has an expected value and a version for it.
abbrev pub held_twin :
    TwinValue → TwinVersion → Bool → TypeMetadata → Option TwinValue → Option TwinVersion → MsgTwin
held_twin held v optional meta actual actual_version = record {
  expected = some held;
  actual = actual;
  optional = some optional;
  metadata = some meta;
  expected_version = some v;
  actual_version = actual_version;
}

module _ (is_float : Text → Bool) (now : ℕ) (deal_type : DealType) (key : Text) (m : MsgTwin)
    (held : TwinValue) (v : TwinVersion) (optional : Bool) (meta : TypeMetadata)
    (actual : Option TwinValue) (actual_version : Option TwinVersion) where
  abbrev twin : MsgTwin
  twin = held_twin held v optional meta actual actual_version

  -- What the cloud is told of the twin.
  abbrev pub told : MsgTwin
  told = record {
    expected = some held;
    actual = none;
    optional = some optional;
    metadata = some meta;
    expected_version = some v;
    actual_version = none;
  }

  abbrev after_rejection : DealTwinResult → Progress
  after_rejection d = record (begin d twin) {
    deal = record d { sync_result = put key told d.sync_result };
    is_allowed = false;
  }

  abbrev opened : DealTwinResult → DealTwinResult
  opened d = open_deal key (last_of meta twin) d
