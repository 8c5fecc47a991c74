-- ===== src/DeviceTwin/AttributeKeys.antt =====
-- edge/pkg/devicetwin/dtmanager/device.go: the attributes that a device has after a detail of the cloud.
use envoyingresscontroller.Prelude.{
  Bool, true, false, not, ◌&&◌, ◌||◌, ◌≡◌, refl, sym, subst, ◌∙◌, Option, none, some, List, [], ◌∷◌,
  Text, Map, lookup, remove, contains, ◌==◌, eq_iff, if◌then◌else◌, Outcome, ok, err, panics, Holds,
  Holds-bind, Holds-ok, arith, lookup-remove, contains-append,
}
use envoyingresscontroller.DeviceTwin.Requests.{MsgAttr}
use envoyingresscontroller.DeviceTwin.Attributes.{
  DealAttrResult, retire_one, deal_attrs, requested, retire, remove_all, apply_deletes,
  deal_msg_attr,
}
use envoyingresscontroller.DeviceTwin.AttributeChanges.{
  Agrees, Placed, Grown, deal_attr-Grown, deal_attr-panics,
}

abbrev pub has_attr : Text → Map MsgAttr → Bool
has_attr key attrs = elim (lookup key attrs) [ none ↦ false | some a ↦ true ]

-- The last request for an attribute.
abbrev pub asked : Text → List (Text × Option MsgAttr) → Option MsgAttr
asked key [] = none
asked key ((k, m) ∷ ms) = elim (asked key ms) [
  | some later ↦ some later
  | none ↦ if k == key then m else none
]

-- What is asked for is there, and an attribute that is not asked for is not.
abbrev pub IsExact : Option MsgAttr → Option MsgAttr → Type 0
IsExact none now = now ≡ none
IsExact (some m) now = Agrees m now

abbrev Remains : Option MsgAttr → Option MsgAttr → Option MsgAttr → Type 0
Remains none now was = now ≡ was
Remains (some m) now was = Agrees m now

abbrev is_some : Option MsgAttr → Bool
is_some none = false
is_some (some m) = true

abbrev AllGrown : List (Text × Option MsgAttr) → DealAttrResult → DealAttrResult → Type 0
AllGrown ms d d' =
    ((j : Text)
      → Remains (asked j ms) (lookup j d'.attributes) (lookup j d.attributes)
        × (requested j ms ≡ is_some (asked j ms)))
    × (d'.delete ≡ d.delete)

left_after :
    (b : Bool) (o : Option MsgAttr) (m : MsgAttr) (now mid was : Option MsgAttr)
    → Placed b m mid was
    → Remains o now mid
    → Remains (elim o [ some later ↦ some later | none ↦ if b then some m else none ]) now was
left_after b (some later) m now mid was g h = h
left_after true none m now mid was (a, e, v, t) h = (a, h ∙ e, v, t)
left_after false none m now mid was g h = h ∙ g

deal_attrs-AllGrown :
    (device_id : Text) (ms : List (Text × Option MsgAttr)) (d : DealAttrResult)
    → Holds (AllGrown ms d) (deal_attrs device_id true ms d)
unfolding deal_attrs
deal_attrs-AllGrown device_id [] d = (λ j. (refl, refl), refl)
deal_attrs-AllGrown device_id ((key, none) ∷ ms) d =
    rw (deal_attr-panics device_id key d, deal_attrs) tt
deal_attrs-AllGrown device_id ((key, some m) ∷ ms) d =
    Holds-bind (Grown key m d) (AllGrown ((key, some m) ∷ ms) d) _ _
      (deal_attr-Grown device_id key m d)
      (λ d' g. extend d' g (deal_attrs device_id true ms d') (deal_attrs-AllGrown device_id ms d'))
  where
    extend :
        (d' : DealAttrResult)
        → Grown key m d d'
        → (o : Outcome DealAttrResult) → Holds (AllGrown ms d') o
        → Holds (AllGrown ((key, some m) ∷ ms) d) o
    extend d' (g, e) (ok x) (h, f) = (
      λ j.
          let (l, r) = h j in
          (
            left_after (key == j) (asked j ms) m (lookup j x.attributes) (lookup j d'.attributes)
                (lookup j d.attributes) (g j) l,
            ground (arith, r),
          ),
      f ∙ e,
    )
    extend d' g (err e) h = tt
    extend d' g panics h = tt

retire_one-delete :
    (b : Bool) (key : Text) (d : DealAttrResult) (j : Text)
    → (contains j (retire_one b key d).delete ≡ (contains j d.delete || (key == j && not b)))
      × ((retire_one b key d).attributes ≡ d.attributes)
unfolding retire_one contains
retire_one-delete true key d j = (ground arith, refl)
retire_one-delete false key d j = (ground (arith, contains-append j d.delete (key ∷ [])), refl)

retire-delete :
    (ms : List (Text × Option MsgAttr)) (held : Map MsgAttr) (d : DealAttrResult) (j : Text)
    → (contains j (retire ms held d).delete
        ≡ (contains j d.delete || (has_attr j held && not (requested j ms))))
      × ((retire ms held d).attributes ≡ d.attributes)
unfolding retire lookup
retire-delete ms [] d j = (ground arith, refl)
retire-delete ms ((key, a) ∷ held) d j =
    let (one, same_one) = retire_one-delete (requested key ms) key d j in
    let (all, same_all) = retire-delete ms held (retire_one (requested key ms) key d) j in
    (all ∙ ground (arith, one, eq_iff key j), same_all ∙ same_one)

remove_all-lookup :
    (keys : List Text) (m : Map MsgAttr) (j : Text)
    → lookup j (remove_all keys m) ≡ (if contains j keys then none else lookup j m)
unfolding remove_all contains
remove_all-lookup [] m j = refl
remove_all-lookup (key ∷ keys) m j =
    remove_all-lookup keys (remove key m) j ∙ ground (arith, lookup-remove key j m, eq_iff key j)

-- What is left of one attribute once those that were not requested are removed.
closed_at :
    (o now : Option MsgAttr) (was : Option MsgAttr) (b : Bool)
    → Remains o now was
    → b ≡ is_some o
    → IsExact o (if not b && is_some now then none else now)
closed_at none none was b l e = ground arith
closed_at none (some a) was b l e = ground arith
closed_at (some m) now was b l e = rw e l

-- If a detail of the cloud for the attributes of a device is dealt with without a panic, then afterwards, whatever the device had
-- before, it has no attribute that the detail does not ask for, and has each that it asks for, with the value of the request, the last
-- one for the attribute, and with its metadata if the request has one.
pub deal_msg_attr-IsExact :
    (device_id : Text) (ms : List (Text × Option MsgAttr)) (held : Map MsgAttr) (d : DealAttrResult)
    → deal_msg_attr device_id true ms held ≡ ok d
    → (key : Text) → IsExact (asked key ms) (lookup key d.attributes)
unfolding deal_msg_attr apply_deletes contains
deal_msg_attr-IsExact device_id ms held d e key =
    Holds-ok exact (deal_msg_attr device_id true ms held) d
      (Holds-bind (AllGrown ms start) exact (deal_attrs device_id true ms start) _
        (deal_attrs-AllGrown device_id ms start) (λ r g. closed r g))
      e
  where
    start : DealAttrResult
    start = record { add = []; delete = []; update = []; result = []; attributes = held }

    exact : DealAttrResult → Type 0
    exact r = IsExact (asked key ms) (lookup key r.attributes)

    closed :
        (r : DealAttrResult)
        → AllGrown ms start r
        → exact (apply_deletes (retire ms r.attributes r))
    closed r (grown, none_yet) =
        let (gone, kept) = retire-delete ms r.attributes r key in
        let (left, same) = grown key in
        let gone_if : contains key (retire ms r.attributes r).delete
            ≡ (not (requested key ms) && is_some (lookup key r.attributes)) =
          ground (arith, gone, none_yet) in
        subst (IsExact (asked key ms))
          (sym (
            remove_all-lookup (retire ms r.attributes r).delete
              (retire ms r.attributes r).attributes key
            ∙ ground (arith, gone_if, kept)))
          (closed_at (asked key ms) (lookup key r.attributes) (lookup key held) (requested key ms)
            left same)
