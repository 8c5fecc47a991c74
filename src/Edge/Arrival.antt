-- ===== src/Edge/Arrival.antt =====
-- edge/pkg/envoycontrolplane/process.go on the messages of the controller: what an insertion leaves in
-- the maps, and what a deletion removes.
use envoyingresscontroller.Prelude.{
  true, ◌≡◌, refl, ap, ◌∙◌, none, some, [], ◌∷◌, Text, lookup, put, remove, eq_refl, All, Lacks,
  arith, ok, lookup-put, lookup-remove,
}
use envoyingresscontroller.Constants.{slash}
use envoyingresscontroller.Resource.{Resource, Spec}
use envoyingresscontroller.External.{External}
use envoyingresscontroller.Message.{Message, trim_message}
use envoyingresscontroller.Controller.Dispatch.{dispatch_message, resource_kind}
use envoyingresscontroller.Edge.{Kind, EnvoyResource, Row, at, set_at, ControlPlane, kind_of}
use envoyingresscontroller.Edge.Process.{
  EdgeExternal, insert_or_update_row, insert_or_update_resource, delete_resource, returns,
  store_resource, insert_kind, insert_decoded, process_insert, forget_resource, delete_decoded,
  decode_deleted, process_delete, parse_resource, decode_content, namespace_or_default, delete_rows,
}
use envoyingresscontroller.Edge.Stores.{at-set_at_self, LacksName, delete_rows-lacks}
use envoyingresscontroller.Edge.Delivery.{
  spec_kind, IsInverse, kind_of-resource_kind, edge_key, arrives, envoy_name,
}

insert_kind-stores :
    (x : EdgeExternal) (k : Kind) (m : Message) (key unquoted bytes j : Text) (spec : Spec)
    (e : ControlPlane)
    → x.unmarshal k bytes ≡ some spec
    → x.json_message spec ≡ some j
    → ((row : Row) → x.database_accepts k row ≡ true)
    → (e' : ControlPlane) × (insert_kind x k m key unquoted bytes e ≡ returns e' none)
      × (lookup key (at k e'.stores)
          ≡ some (record { name = key; namespace = namespace_or_default m; message = spec }))
unfolding insert_kind insert_or_update_resource store_resource
insert_kind-stores x k m key unquoted bytes j spec e u js acc =
    let stored : EnvoyResource = record {
      name = key;
      namespace = namespace_or_default m;
      message = spec;
    } in
    let row : Row = record { id = key; name = key; value = unquoted; json_value = j } in
    let stores = set_at k (put key stored (at k e.stores)) e.stores in
    (
      record e {
        stores = stores;
        tables = set_at k (insert_or_update_row row (at k e.tables)) e.tables;
      },
      ground (arith, u, js, acc row),
      rw (at-set_at_self k (put key stored (at k e.stores)) e.stores)
          (rw (lookup-put key key stored (at k e.stores), eq_refl key) refl),
    )

process_insert-stores :
    (x : EdgeExternal) (m : Message) (e : ControlPlane) (k : Kind) (key t c u b j : Text)
    (spec : Spec)
    → x.json_content m.content ≡ some c
    → parse_resource m.resource ≡ ok (key, t)
    → decode_content x m ≡ ok (u, b)
    → kind_of t ≡ some k
    → x.unmarshal k b ≡ some spec
    → x.json_message spec ≡ some j
    → ((row : Row) → x.database_accepts k row ≡ true)
    → (e' : ControlPlane) × (process_insert x m e ≡ returns e' none)
      × (lookup key (at k e'.stores)
          ≡ some (record { name = key; namespace = namespace_or_default m; message = spec }))
unfolding process_insert insert_decoded
process_insert-stores x m e k key t c u b j spec jc pr dc kd um js acc =
    let (e', run, found) = insert_kind-stores x k m key u b j spec e um js acc in
    (e', ground (arith, jc, pr, dc, kd, run), found)

-- The key of an inserted resource, and the record that is stored under it.
abbrev pub stored_as : Resource → Text → EnvoyResource
stored_as r t = record { name = edge_key r t; namespace = envoy_name r; message = r.spec }

-- A resource that the cloud dispatches for insertion to a node, of a kind the edge knows, with no slash in the node, its
-- namespace and its name, is stored by the edge: when the edge's decoders undo the
-- cloud's encoders and the database accepts the rows, `processInsert` of the message that
-- CloudHub trims returns without an error, and the map of the kind then holds the message under <namespace>/<type>/envoy<name>. The
-- namespace it is stored with is not its own: it is "envoy" and its name.
pub process_insert-dispatched :
    (d : External) (x : EdgeExternal) (r : Resource) (opr node : Text) (m : Message) (k : Kind)
    (e : ControlPlane)
    → IsInverse d x
    → All (Lacks slash) (node ∷ r.namespace ∷ r.name ∷ [])
    → spec_kind r.spec ≡ some k
    → ((row : Row) → x.database_accepts k row ≡ true)
    → dispatch_message d r opr node ≡ ok m
    → (t : Text) × (e' : ControlPlane) × (resource_kind r.spec ≡ some t)
      × (process_insert x (trim_message m) e ≡ returns e' none)
      × (lookup (edge_key r t) (at k e'.stores) ≡ some (stored_as r t))
process_insert-dispatched d x r opr node m k e inv l sk acc h =
    let (t, rk, kd, lt, _) = kind_of-resource_kind r.spec k sk in
    let (b, mb, _, pr, ns, dc, (u, jc)) = arrives d x r opr node t m inv l lt rk h in
    let (e', run, found) =
      process_insert-stores x (trim_message m) e k (edge_key r t) t u (d.encode_to_string b) b
        (inv.json_form r.spec) r.spec jc pr dc kd (inv.unmarshals r.spec k b sk mb)
        (inv.has_json r.spec) acc in
    (
      t,
      e',
      rk,
      run,
      found ∙ ap (λ n. some (record { name = edge_key r t; namespace = n; message = r.spec })) ns,
    )

delete_decoded-forgets :
    (x : EdgeExternal) (k : Kind) (key t : Text) (e : ControlPlane)
    → kind_of t ≡ some k
    → ((row : Row) → x.database_accepts k row ≡ true)
    → (e' : ControlPlane) × (delete_decoded x key t e ≡ returns e' none)
      × (lookup key (at k e'.stores) ≡ none)
      × LacksName key (at k e'.tables)
unfolding delete_decoded delete_resource forget_resource
delete_decoded-forgets x k key t e kd acc = (
  record e {
    stores = set_at k (remove key (at k e.stores)) e.stores;
    tables = set_at k (delete_rows key (at k e.tables)) e.tables;
  },
  ground (arith, kd, acc (record { id = key; name = key; value = []; json_value = [] })),
  rw (at-set_at_self k (remove key (at k e.stores)) e.stores)
      (rw (lookup-remove key key (at k e.stores), eq_refl key) refl),
  rw (at-set_at_self k (delete_rows key (at k e.tables)) e.tables)
      (delete_rows-lacks key (at k e.tables)),
)

-- A resource that the cloud dispatches for deletion to a node, of a kind the edge knows, with no slash in the node, its namespace and
-- its name, is gone from the edge: when the edge's decoders undo the cloud's encoders and the database accepts
-- the write, `processDelete` of the message that CloudHub trims returns without an
-- error, and neither the map nor the table of the kind then has <namespace>/<type>/envoy<name>.
pub process_delete-dispatched :
    (d : External) (x : EdgeExternal) (r : Resource) (opr node : Text) (m : Message) (k : Kind)
    (e : ControlPlane)
    → IsInverse d x
    → All (Lacks slash) (node ∷ r.namespace ∷ r.name ∷ [])
    → spec_kind r.spec ≡ some k
    → ((row : Row) → x.database_accepts k row ≡ true)
    → dispatch_message d r opr node ≡ ok m
    → (t : Text) × (e' : ControlPlane) × (resource_kind r.spec ≡ some t)
      × (process_delete x (trim_message m) e ≡ returns e' none)
      × (lookup (edge_key r t) (at k e'.stores) ≡ none)
      × LacksName (edge_key r t) (at k e'.tables)
unfolding process_delete decode_deleted
process_delete-dispatched d x r opr node m k e inv l sk acc h =
    let (t, rk, kd, lt, _) = kind_of-resource_kind r.spec k sk in
    let (b, mb, _, pr, ns, dc, (u, jc)) = arrives d x r opr node t m inv l lt rk h in
    let (e', run, found, gone) = delete_decoded-forgets x k (edge_key r t) t e kd acc in
    (t, e', rk, ground (arith, pr, jc, dc, run), found, gone)
