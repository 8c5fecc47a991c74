-- ===== src/DeviceTwin/Twins.antt =====
-- edge/pkg/devicetwin/dtmanager/twin.go: the versions of twins and the deletion of one. A nil pointer
-- that is read is a panic.
use envoyingresscontroller.Prelude.{
  Bool, true, false, Option, none, some, List, [], ◌∷◌, ◌++◌, Text, Map, codes, lookup, put, remove,
  ltb, if◌then◌else◌, Error, Outcome, ok, deref, ◌>>=◌, version_missing, version_not_allowed,
  version_conflict,
}
use envoyingresscontroller.DeviceTwin.{
  int64_suc, TwinVersion, zero_version, ValueMetadata, TypeMetadata, MsgTwin, empty_twin, Side,
  expected_side, actual_side, version_of, set_value, set_version, copy_msg_twin, deleted_type,
  is_deleted, TwinDoc, DeviceTwin,
}

-- RestDealType, SyncDealType, DetailDealType and SyncTwinDeleteDealType
pub data DealType : Type 0 where
  rest : DealType
  sync : DealType
  detail : DealType
  sync_twin_delete : DealType

abbrev pub is_rest : DealType → Bool
is_rest rest = true
is_rest _ = false

-- What is written to a column: a text or NULL, a JSON form, or a flag.
pub data Column : Type 0 where
  text_column : Option Text → Column
  meta_column : ValueMetadata → Column
  version_column : TwinVersion → Column
  type_column : TypeMetadata → Column
  flag_column : Bool → Column
  null : Column

abbrev pub Columns : Type 0
Columns = Map Column

-- dtclient.DeviceTwinUpdate
pub record DeviceTwinUpdate : Type 0 where
  pub device_id : Text
  pub name : Text
  pub cols : Columns

-- dttype.DealTwinResult; its Delete is never filled.
pub record DealTwinResult : Type 0 where
  pub add : List DeviceTwin
  pub update : List DeviceTwinUpdate
  pub result : Map (Option MsgTwin)
  pub sync_result : Map MsgTwin
  pub document : Map TwinDoc
  pub failure : Option Error

abbrev pub empty_result : DealTwinResult
empty_result = record {
  add = [];
  update = [];
  result = [];
  sync_result = [];
  document = [];
  failure = none;
}

abbrev pub version_columns : Side → TwinVersion → Column → Column → Columns → Columns
version_columns expected_side v value meta cols =
    put (codes "expected_version") (version_column v)
      (put (codes "expected_meta") meta (put (codes "expected") value cols))
version_columns actual_side v value meta cols =
    put (codes "actual_version") (version_column v)
      (put (codes "actual_meta") meta (put (codes "actual") value cols))

-- dealVersion: the version after it, or the error that rejects the request and leaves the version.
pub data Decided : Type 0 where
  allowed : TwinVersion → Decided
  rejected : Error → Decided

abbrev pub compare_versions : TwinVersion → TwinVersion → Decided
compare_versions v r =
    if ltb r.cloud_version v.cloud_version
    then rejected version_not_allowed
    else if ltb r.edge_version v.edge_version
    then rejected version_conflict
    else allowed r

unfoldable pub deal_version : TwinVersion → Option TwinVersion → DealType → Decided
deal_version v req rest = allowed (record v { edge_version = int64_suc v.edge_version })
deal_version v none sync_twin_delete = allowed v
deal_version v none sync = rejected version_missing
deal_version v none detail = rejected version_missing
deal_version v (some r) sync_twin_delete = compare_versions v r
deal_version v (some r) sync = compare_versions v r
deal_version v (some r) detail = compare_versions v r

-- The version that a request brings: none from the edge itself.
abbrev pub request_version : Side → DealType → Option MsgTwin → Option TwinVersion
request_version side deal_type none = none
request_version side deal_type (some m) = if is_rest deal_type then none else version_of side m

-- A change of the twin so far: the twin, the columns, whether anything has changed, whether the request
-- may still change things, and the error that ends it.
pub record Progress : Type 0 where
  pub deal : DealTwinResult
  pub twin : MsgTwin
  pub cols : Columns
  pub is_change : Bool
  pub is_allowed : Bool
  pub error : Option Error

abbrev pub put_sync : Text → MsgTwin → DealTwinResult → DealTwinResult
put_sync key t d = record d { sync_result = put key t d.sync_result }

abbrev pub note_result : Text → Option MsgTwin → DealTwinResult → DealTwinResult
note_result key t d = record d { result = put key t d.result }

abbrev pub drop_sync : Text → DealTwinResult → DealTwinResult
drop_sync key d = record d { sync_result = remove key d.sync_result }

abbrev pub drop_document : Text → DealTwinResult → DealTwinResult
drop_document key d = record d { document = remove key d.document }

-- syncResult[key], which the functions below have put there before they change it.
abbrev pub sync_of : Text → DealTwinResult → MsgTwin
sync_of key d = elim (lookup key d.sync_result) [ none ↦ empty_twin | some t ↦ t ]

-- The first lines of `dealTwinDelete`, `dealTwinCompare` and `dealTwinAdd`.
unfoldable pub open_deal : Text → Option MsgTwin → DealTwinResult → DealTwinResult
open_deal key last d = record d {
  document = put key (record { last_state = last; current_state = none }) d.document;
  sync_result = put key empty_twin d.sync_result;
}

abbrev pub update_row : Text → Text → Columns → DealTwinResult → DealTwinResult
update_row device_id key cols d = record d {
  update = d.update ++ record { device_id = device_id; name = key; cols = cols } ∷ [];
}

-- One half of `dealTwinDelete`, on a twin that has a version there.
unfoldable pub delete_value :
    Side → DealType → Text → Option MsgTwin → TwinVersion → Progress → Progress
unfolding deal_version copy_msg_twin
delete_value side deal_type key m version p =
    elim (deal_version version (request_version side deal_type m) deal_type) [
      | rejected e ↦ if is_rest deal_type then p else record p {
        deal = put_sync key (copy_msg_twin p.twin false) (drop_document key p.deal);
        is_allowed = false;
      }
      | allowed v ↦
          let twin : MsgTwin =
            record (set_version side (some v)
              (set_value side (some (record { value = none; metadata = none })) p.twin)) {
                metadata = some (record { attr_type = deleted_type });
              } in
          record p {
            twin = twin;
            cols =
                put (codes "attr_type") (text_column (some deleted_type))
                  (version_columns side v null null p.cols);
            deal =
                if is_rest deal_type
                then put_sync key (copy_msg_twin twin false) p.deal
                else p.deal;
            is_change = true;
          }
    ]

-- A half of `dealTwinDelete`: a version that is missing is made and nothing else.
unfoldable pub delete_side : Side → DealType → Text → Option MsgTwin → Progress → Progress
unfolding delete_value
delete_side side deal_type key m p =
    if p.is_allowed
    then elim (version_of side p.twin) [
      | none ↦ record p { twin = set_version side (some zero_version) p.twin }
      | some version ↦ delete_value side deal_type key m version p
    ]
    else p

-- The end of `dealTwinDelete`.
unfoldable pub close_delete : Text → Text → DealType → Progress → DealTwinResult × MsgTwin
close_delete device_id key deal_type p =
    if p.is_allowed
    then if p.is_change
      then (
        if is_rest deal_type
            then note_result key none (update_row device_id key p.cols p.deal)
            else drop_sync key (update_row device_id key p.cols p.deal),
        p.twin,
      )
      else (drop_sync key (drop_document key p.deal), p.twin)
    else (p.deal, p.twin)

abbrev pub begin : DealTwinResult → MsgTwin → Progress
begin d t = record {
  deal = d;
  twin = t;
  cols = [];
  is_change = false;
  is_allowed = true;
  error = none;
}

-- Whether `dealTwinDelete` is to delete: an optional twin, or a request for the deletion.
unfoldable pub is_deletion : DealType → MsgTwin → Option MsgTwin → Outcome Bool
is_deletion rest twin none = deref twin.optional
is_deletion rest twin (some m) = ok false
is_deletion deal_type twin m = deref m >>= λ t. deref t.metadata >>= λ d. ok (is_deleted d)

abbrev pub has_deleted : MsgTwin → Bool
has_deleted t = elim t.metadata [ none ↦ false | some m ↦ is_deleted m ]

abbrev pub delete_type : DealType → DealType
delete_type rest = rest
delete_type _ = sync_twin_delete

-- dealTwinDelete, which never returns an error. A twin that was deleted before leaves the entries of the
-- first lines behind.
unfoldable pub deal_twin_delete :
    Text
    → Text
    → MsgTwin
    → Option MsgTwin
    → DealType
    → DealTwinResult
    → Outcome (DealTwinResult × MsgTwin)
unfolding open_deal copy_msg_twin is_deletion delete_side close_delete
deal_twin_delete device_id key twin m deal_type d =
    let opened = open_deal key (some (copy_msg_twin twin true)) d in
    is_deletion deal_type twin m >>= λ deletes.
    if deletes
    then if has_deleted twin
      then ok (opened, twin)
      else ok (
          close_delete device_id key (delete_type deal_type) (
            delete_side actual_side (delete_type deal_type) key m
              (delete_side expected_side (delete_type deal_type) key m (begin opened twin))))
    else ok (close_delete device_id key deal_type (begin opened twin))
