-- ===== src/Edge/Process.antt =====
-- edge/pkg/envoycontrolplane/process.go and dao/sql.go: what a message from the cloud does.
use envoyingresscontroller.Prelude.{
  Bool, not, Option, none, some, List, [], ◌∷◌, ◌++◌, Text, codes, put, remove, keep, split,
  get_elem?, if◌then◌else◌, ◌==◌, Error, Outcome, ok, err, panics, or_err, deref, ◌>>=◌,
  content_failed, unquote_failed, decode_failed, unmarshal_failed, unknown_type, database_failed,
}
use envoyingresscontroller.Constants.{slash}
use envoyingresscontroller.Resource.{Spec}
use envoyingresscontroller.Message.{Message, get_namespace, insert_operation, delete_operation}
use envoyingresscontroller.Edge.{Kind, EnvoyResource, Row, at, set_at, ControlPlane, kind_of}

-- What process.go calls outside the repository, with `none` for an error.
pub record EdgeExternal : Type 0 where
  -- the bytes of the content: json.Marshal of what is no byte slice
  pub json_content : Text → Option Text
  -- strconv.Unquote and base64.StdEncoding.DecodeString
  pub unquote : Text → Option Text
  pub decode_string : Text → Option Text
  -- proto.Unmarshal into the message of a kind, and json.Marshal of a message
  pub unmarshal : Kind → Text → Option Spec
  pub json_message : Spec → Option Text
  -- whether the database accepts a write
  pub database_accepts : Kind → Row → Bool

-- parseResource: a resource with no slash is a panic.
unfoldable pub parse_resource : Text → Outcome (Text × Text)
parse_resource resource = do kind ← deref (get_elem? (split slash resource) 1); ok (resource, kind)

-- generateContent and the two decodings
unfoldable pub decode_content : EdgeExternal → Message → Outcome (Text × Text)
decode_content x m = do
  content ← or_err (x.json_content m.content) content_failed
  unquoted ← or_err (x.unquote content) unquote_failed
  bytes ← or_err (x.decode_string unquoted) decode_failed
  ok (unquoted, bytes)

-- GetNamespace, and "default" where it fails.
unfoldable pub namespace_or_default : Message → Text
namespace_or_default m = elim (get_namespace m) [
  | ok n ↦ n
  | err e ↦ codes "default"
  | panics ↦ codes "default"
]

-- INSERT OR REPLACE: the key of a table is its id.
unfoldable pub insert_or_update_row : Row → List Row → List Row
insert_or_update_row row rows = keep (λ r. not (r.id == row.id)) rows ++ row ∷ []

-- DELETE with the filter on the name
unfoldable pub delete_rows : Text → List Row → List Row
delete_rows name rows = keep (λ r. not (r.name == name)) rows

-- InsertOrUpdateResource
unfoldable pub insert_or_update_resource :
    EdgeExternal → Kind → Row → ControlPlane → ControlPlane × Option Error
unfolding insert_or_update_row
insert_or_update_resource x k row e =
    if x.database_accepts k row
    then (record e { tables = set_at k (insert_or_update_row row (at k e.tables)) e.tables }, none)
    else (e, some database_failed)

-- DeleteResource
unfoldable pub delete_resource :
    EdgeExternal → Kind → Row → ControlPlane → ControlPlane × Option Error
unfolding delete_rows
delete_resource x k row e =
    if x.database_accepts k row
    then (record e { tables = set_at k (delete_rows row.name (at k e.tables)) e.tables }, none)
    else (e, some database_failed)

-- A method that may have written before it returns its error, or panics.
pub data Processed : Type 0 where
  returns : ControlPlane → Option Error → Processed
  crashes : Processed

abbrev pub returned : ControlPlane × Option Error → Processed
returned (e, r) = returns e r

-- The map of the kind gets the resource, under the whole resource of the message.
unfoldable pub store_resource : Kind → EnvoyResource → ControlPlane → ControlPlane
store_resource k r e = record e { stores = set_at k (put r.name r (at k e.stores)) e.stores }

-- The second switch of `processInsert`: the map is written before the JSON form and the database.
unfoldable pub insert_kind :
    EdgeExternal → Kind → Message → Text → Text → Text → ControlPlane → Processed
unfolding store_resource insert_or_update_resource
insert_kind x k m key unquoted bytes e = elim (x.unmarshal k bytes) [
  | none ↦ returns e (some unmarshal_failed)
  | some spec ↦
      let e' =
        store_resource k (record { name = key; namespace = namespace_or_default m; message = spec })
          e in
      elim (x.json_message spec) [
        | none ↦ returns e' (some content_failed)
        | some json ↦ returned (
            insert_or_update_resource x k
              (record { id = key; name = key; value = unquoted; json_value = json }) e')
      ]
]

unfoldable pub insert_decoded :
    EdgeExternal → Message → Text → Text → Text × Text → ControlPlane → Processed
unfolding insert_kind
insert_decoded x m key kind (unquoted, bytes) e = elim (kind_of kind) [
  | none ↦ returns e (some unknown_type)
  | some k ↦ insert_kind x k m key unquoted bytes e
]

-- processInsert
unfoldable pub process_insert : EdgeExternal → Message → ControlPlane → Processed
unfolding insert_decoded
process_insert x m e = elim (x.json_content m.content) [
  | none ↦ returns e (some content_failed)
  | some _ ↦ elim (parse_resource m.resource) [
    | err f ↦ returns e (some f)
    | panics ↦ crashes
    | ok (key, kind) ↦ elim (decode_content x m) [
      | err f ↦ returns e (some f)
      | panics ↦ crashes
      | ok decoded ↦ insert_decoded x m key kind decoded e
    ]
  ]
]

unfoldable pub forget_resource : Kind → Text → ControlPlane → ControlPlane
forget_resource k key e = record e { stores = set_at k (remove key (at k e.stores)) e.stores }

unfoldable pub delete_decoded : EdgeExternal → Text → Text → ControlPlane → Processed
unfolding forget_resource delete_resource
delete_decoded x key kind e = elim (kind_of kind) [
  | none ↦ returns e (some unknown_type)
  | some k ↦ returned (
      delete_resource x k (record { id = key; name = key; value = []; json_value = [] })
        (forget_resource k key e))
]

-- The content of a deletion: where json.Marshal fails, `content` is nil and Unquote fails.
unfoldable pub decode_deleted : EdgeExternal → Message → Outcome (Text × Text)
decode_deleted x m = elim (x.json_content m.content) [
  | none ↦ err unquote_failed
  | some _ ↦ decode_content x m
]

-- processDelete: a message that does not decode into its kind is only logged.
unfoldable pub process_delete : EdgeExternal → Message → ControlPlane → Processed
unfolding delete_decoded
process_delete x m e = elim (parse_resource m.resource) [
  | err f ↦ returns e (some f)
  | panics ↦ crashes
  | ok (key, kind) ↦ elim (decode_deleted x m) [
    | err f ↦ returns e (some f)
    | panics ↦ crashes
    | ok decoded ↦ delete_decoded x key kind e
  ]
]

abbrev pub logged : Processed → Option ControlPlane
logged (returns e r) = some e
logged crashes = none

-- process: an error is logged, and any other operation is ignored. `none` is a crash.
unfoldable pub process : EdgeExternal → Message → ControlPlane → Option ControlPlane
unfolding process_insert process_delete
process x m e =
    if m.operation == insert_operation
    then logged (process_insert x m e)
    else if m.operation == delete_operation
    then logged (process_delete x m e)
    else some e

-- runEnvoyControlPlane over the messages that it receives, until it stops.
unfoldable pub run_envoy_control_plane :
    EdgeExternal → List Message → ControlPlane → Option ControlPlane
unfolding process
run_envoy_control_plane x [] e = some e
run_envoy_control_plane x (m ∷ ms) e = elim (process x m e) [
  | none ↦ none
  | some e' ↦ run_envoy_control_plane x ms e'
]
