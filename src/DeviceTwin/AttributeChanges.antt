-- ===== src/DeviceTwin/AttributeChanges.antt =====
-- edge/pkg/devicetwin/dtmanager/device.go: what one request of a detail does to the attributes of a device.
use envoyingresscontroller.Prelude.{
  Bool, true, false, not, ◌&&◌, ◌≡◌, refl, ap, Option, none, some, [], Text, Map, lookup, put, ◌==◌,
  eq_iff, panics, Holds, Holds-bind, arith, Option-cases, Bool-cases, inl, inr, lookup-put,
}
use envoyingresscontroller.DeviceTwin.{TypeMetadata}
use envoyingresscontroller.DeviceTwin.Requests.{MsgAttr}
use envoyingresscontroller.DeviceTwin.Attributes.{
  DealAttrResult, Change, change_value, same_metadata, change_metadata, change_optional,
  change_attr, empty_attr, note_change, update_attr, add_attr, deal_attr,
}

-- What a request for an attribute asks of its metadata.
abbrev pub TypeAgrees : Option TypeMetadata → Option TypeMetadata → Type 0
TypeAgrees none held = Unit
TypeAgrees (some t) held = held ≡ some t

-- An attribute is there with the value of the request, and with its metadata if it has one.
abbrev pub Agrees : MsgAttr → Option MsgAttr → Type 0
Agrees m now =
    (a : MsgAttr) × (now ≡ some a) × (a.value ≡ m.value) × TypeAgrees m.metadata a.metadata

abbrev IsChanged : MsgAttr → Change → Type 0
IsChanged m c = (c.attr.value ≡ m.value) × TypeAgrees m.metadata c.attr.metadata

change_value-value : (m : MsgAttr) (c : Change) → (change_value m c).attr.value ≡ m.value
unfolding change_value
change_value-value m c = ground (arith, eq_iff c.attr.value m.value)

same_metadata-agrees :
    (held : Option TypeMetadata) (t : TypeMetadata) → same_metadata held t ≡ true → held ≡ some t
same_metadata-agrees none t e = absurd (ground arith)
same_metadata-agrees (some h) t e =
    ap (λ x. some (record { attr_type = x })) ((eq_iff h.attr_type t.attr_type).0 e)

change_metadata-IsChanged :
    (m : MsgAttr) (c : Change) → c.attr.value ≡ m.value → IsChanged m (change_metadata m c)
unfolding change_metadata
change_metadata-IsChanged m c v = elim (Option-cases m.metadata) [
  | inl e ↦ rw (e, change_metadata) (v, tt)
  | inr (t, e) ↦ elim (Bool-cases (same_metadata c.attr.metadata t)) [
    | inl s ↦ rw (e, s, change_metadata) (v, same_metadata-agrees c.attr.metadata t s)
    | inr s ↦ rw (e, s, change_metadata) (v, refl)
  ]
]

change_optional-IsChanged :
    (m : MsgAttr) (c : Change) → IsChanged m c → Holds (IsChanged m) (change_optional m c)
unfolding change_optional
change_optional-IsChanged m c h = elim (Option-cases m.optional) [
  | inl e ↦ rw (e, change_optional) h
  | inr (wanted, e) ↦ elim (Option-cases c.attr.optional) [
    | inl o ↦ rw (e, o, change_optional) tt
    | inr (optional, o) ↦ elim (Bool-cases (optional && not wanted)) [
      | inl b ↦ rw (e, o, b, change_optional) h
      | inr b ↦ rw (e, o, b, change_optional) h
    ]
  ]
]

change_attr-IsChanged : (attr m : MsgAttr) → Holds (IsChanged m) (change_attr attr m)
unfolding change_attr
change_attr-IsChanged attr m =
    let start : Change = record { attr = attr; cols = []; noted = empty_attr; is_change = false } in
    change_optional-IsChanged m (change_metadata m (change_value m start))
      (change_metadata-IsChanged m (change_value m start) (change_value-value m start))

-- The attribute of that key agrees with the request, every other is as it was, and nothing is to be deleted yet.
abbrev pub Placed : Bool → MsgAttr → Option MsgAttr → Option MsgAttr → Type 0
Placed true m now was = Agrees m now
Placed false m now was = now ≡ was

abbrev pub Grown : Text → MsgAttr → DealAttrResult → DealAttrResult → Type 0
Grown key m d d' =
    ((j : Text) → Placed (key == j) m (lookup j d'.attributes) (lookup j d.attributes))
    × (d'.delete ≡ d.delete)

put-Placed :
    (key j : Text) (m a : MsgAttr) (held : Map MsgAttr)
    → a.value ≡ m.value
    → TypeAgrees m.metadata a.metadata
    → Placed (key == j) m (lookup j (put key a held)) (lookup j held)
put-Placed key j m a held v t = elim (Bool-cases (key == j)) [
  | inl e ↦ rw e (a, ground (arith, lookup-put key j a held), v, t)
  | inr e ↦ rw e (ground (arith, lookup-put key j a held))
]

note_change-attributes :
    (device_id key : Text) (c : Change) (d : DealAttrResult)
    → ((note_change device_id key c d).attributes ≡ put key c.attr d.attributes)
      × ((note_change device_id key c d).delete ≡ d.delete)
unfolding note_change
note_change-attributes device_id key c d = ground arith

update_attr-Grown :
    (device_id key : Text) (attr m : MsgAttr) (d : DealAttrResult)
    → Holds (Grown key m d) (update_attr device_id key attr (some m) true d)
unfolding update_attr
update_attr-Grown device_id key attr m d =
    Holds-bind (IsChanged m) (Grown key m d) (change_attr attr m) _ (change_attr-IsChanged attr m)
      (λ c (v, t).
        let (p, q) = note_change-attributes device_id key c d in
        (λ j. rw p (put-Placed key j m c.attr d.attributes v t), q))

same-TypeAgrees : (t : Option TypeMetadata) → TypeAgrees t t
same-TypeAgrees none = tt
same-TypeAgrees (some t) = refl

pub deal_attr-Grown :
    (device_id key : Text) (m : MsgAttr) (d : DealAttrResult)
    → Holds (Grown key m d) (deal_attr device_id true key (some m) d)
unfolding deal_attr add_attr
deal_attr-Grown device_id key m d = elim (Option-cases (lookup key d.attributes)) [
  | inr (a, p) ↦ rw (p, deal_attr) (update_attr-Grown device_id key a m d)
  | inl p ↦
      rw (p, deal_attr)
        (λ j. put-Placed key j m m d.attributes refl (same-TypeAgrees m.metadata), refl)
]

pub deal_attr-panics :
    (device_id key : Text) (d : DealAttrResult) → deal_attr device_id true key none d ≡ panics
unfolding deal_attr update_attr
deal_attr-panics device_id key d = elim (Option-cases (lookup key d.attributes)) [
  | inr (a, p) ↦ rw (p, deal_attr) refl
  | inl p ↦ rw (p, deal_attr) refl
]
