-- ===== src/DeviceTwin/Detail.antt =====
-- edge/pkg/devicetwin/dtmanager/membership.go: the devices that are listed after a detail of the cloud.
use envoyingresscontroller.Prelude.{
  ℕ, Bool, true, not, ◌&&◌, ◌||◌, ◌≡◌, refl, ◌∙◌, some, List, [], ◌∷◌, Text, Map, lookup, contains,
  ◌==◌, eq_iff, Outcome, ok, err, panics, ◌>>=◌, Holds, Holds-bind, Holds-ok, arith, Option-cases,
  Bool-cases, inl, inr,
}
use envoyingresscontroller.DeviceTwin.Requests.{Device, DtContext}
use envoyingresscontroller.DeviceTwin.Devices.{
  Member, MemberDatabase, update_member, create_member, add_twins, add_attributes, add_member,
  add_device, remove_member, remove_device, is_member, get_remove_list, deal_membership_detail,
  announce, store_member, listed,
}
use envoyingresscontroller.DeviceTwin.Listed.{
  is_listed, put-listed, remove-listed, SameListed, FirstListed, listed_here,
  deal_device_twin-SameListed, update_device_attr-SameListed,
}

-- The same devices stay listed over the steps.
onward :
    (a : Map Device) (c : DtContext) (o : Outcome DtContext)
    → SameListed a c
    → Holds (SameListed c.device_list) o
    → Holds (SameListed a) o
onward a c (ok c') f g = λ j. g j ∙ f j
onward a c (err e) f g = tt
onward a c panics f g = tt

add_twins-SameListed :
    (is_float : Text → Bool) (now : ℕ) (db : MemberDatabase) (m : Member) (c : DtContext)
    → Holds (SameListed c.device_list) (add_twins is_float now db m c)
unfolding add_twins
add_twins-SameListed is_float now db m c = elim (Option-cases m.twin) [
  | inl p ↦ rw (p, add_twins) (λ j. refl)
  | inr (ms, p) ↦
      rw (p, add_twins)
        (Holds-bind (FirstListed c.device_list) (SameListed c.device_list) _ _
          (deal_device_twin-SameListed is_float now (db.of_device m.id) m.id [] (some ms) c)
          (λ x h. h))
]

add_attributes-SameListed :
    (db : MemberDatabase) (m : Member) (c : DtContext)
    → Holds (SameListed c.device_list) (add_attributes db m c)
unfolding add_attributes
add_attributes-SameListed db m c = elim (Option-cases m.attributes) [
  | inl p ↦ rw (p, add_attributes) (λ j. refl)
  | inr (ms, p) ↦
      rw (p, add_attributes) (update_device_attr-SameListed (db.of_device m.id) m.id [] true ms c)
]

-- A device more is listed than before.
abbrev OneMore : Text → Map Device → DtContext → Type 0
OneMore id m c = (j : Text) → is_listed j c.device_list ≡ (id == j || is_listed j m)

announce-SameListed : (m : Member) (c : DtContext) → Holds (SameListed c.device_list) (announce m c)
unfolding announce
announce-SameListed m c = ground arith

after_more :
    (id : Text) (a : Map Device) (c : DtContext) (o : Outcome DtContext)
    → OneMore id a c
    → Holds (SameListed c.device_list) o
    → Holds (OneMore id a) o
after_more id a c (ok c') f g = λ j. g j ∙ f j
after_more id a c (err e) f g = tt
after_more id a c panics f g = tt

store_member-OneMore : (m : Member) (c : DtContext) → OneMore m.id c.device_list (store_member m c)
unfolding store_member
store_member-OneMore m c j = put-listed m.id j _ c.device_list

create_member-OneMore :
    (is_float : Text → Bool) (now : ℕ) (db : MemberDatabase) (m : Member) (c : DtContext)
    → Holds (OneMore m.id c.device_list) (create_member is_float now db m c)
unfolding create_member
create_member-OneMore is_float now db m c = elim (Bool-cases (db.creates m.id)) [
  | inr p ↦ rw (p, create_member) tt
  | inl p ↦
      rw (p, create_member)
        (Holds-bind more more (add_twins is_float now db m start >>= add_attributes db m)
          (announce m)
          (Holds-bind more more (add_twins is_float now db m start) (add_attributes db m)
            (after_more m.id c.device_list start _ (store_member-OneMore m c)
              (add_twins-SameListed is_float now db m start))
            (λ d h. after_more m.id c.device_list d _ h (add_attributes-SameListed db m d)))
          (λ d h. after_more m.id c.device_list d _ h (announce-SameListed m d)))
]
  where
    more : DtContext → Type 0
    more = OneMore m.id c.device_list

    start : DtContext
    start = store_member m c

update_member-SameListed :
    (is_float : Text → Bool) (now : ℕ) (db : MemberDatabase) (m : Member) (c : DtContext)
    → Holds (SameListed c.device_list) (update_member is_float now db m c)
unfolding update_member
update_member-SameListed is_float now db m c =
    Holds-bind (SameListed c.device_list) (SameListed c.device_list) _ _
      (update_device_attr-SameListed (db.of_device m.id) m.id [] true (listed m.attributes) c)
      (λ d h.
        Holds-bind (FirstListed d.device_list) (SameListed c.device_list) _ _
          (deal_device_twin-SameListed is_float now (db.of_device m.id) m.id [] m.twin d)
          (λ x g j. g j ∙ h j))

-- A device that was listed is no device more.
was_listed :
    (id : Text) (a : Map Device)
    → is_listed id a ≡ true
    → (o : Outcome DtContext) → Holds (SameListed a) o
    → Holds (OneMore id a) o
was_listed id a l (ok c) h = λ j. ground (arith, h j, l, eq_iff id j)
was_listed id a l (err e) h = tt
was_listed id a l panics h = tt

add_member-OneMore :
    (is_float : Text → Bool) (now : ℕ) (db : MemberDatabase) (m : Member) (c : DtContext)
    → Holds (OneMore m.id c.device_list) (add_member is_float now db m c)
unfolding add_member
add_member-OneMore is_float now db m c = elim (Option-cases (lookup m.id c.device_list)) [
  | inl p ↦ rw (p, add_member) (create_member-OneMore is_float now db m c)
  | inr (d, p) ↦
      rw (p, add_member)
        (was_listed m.id c.device_list (listed_here m.id c.device_list d p) _
          (update_member-SameListed is_float now db m c))
]

abbrev AllMore : List Member → Map Device → DtContext → Type 0
AllMore ms a c = (j : Text) → is_listed j c.device_list ≡ (is_member j ms || is_listed j a)

add_device-AllMore :
    (is_float : Text → Bool) (now : ℕ) (db : MemberDatabase) (ms : List Member) (c : DtContext)
    → Holds (AllMore ms c.device_list) (add_device is_float now db ms c)
unfolding add_device
add_device-AllMore is_float now db [] c = λ j. refl
add_device-AllMore is_float now db (m ∷ ms) c =
    Holds-bind (OneMore m.id c.device_list) (AllMore (m ∷ ms) c.device_list) _ _
      (add_member-OneMore is_float now db m c)
      (λ d h.
        extend d h (add_device is_float now db ms d) (add_device-AllMore is_float now db ms d))
  where
    extend :
        (d : DtContext)
        → OneMore m.id c.device_list d
        → (o : Outcome DtContext) → Holds (AllMore ms d.device_list) o
        → Holds (AllMore (m ∷ ms) c.device_list) o
    extend d h (ok e) g = λ j. ground (arith, h j, g j)
    extend d h (err e) g = tt
    extend d h panics g = tt

remove_member-listed :
    (id : Text) (c : DtContext) (j : Text)
    → is_listed j (remove_member id c).device_list ≡ (not (id == j) && is_listed j c.device_list)
unfolding remove_member
remove_member-listed id c j = ground (arith, remove-listed id j c.device_list, eq_iff id j)

remove_device-listed :
    (ids : List Text) (c : DtContext) (j : Text)
    → is_listed j (remove_device ids c).device_list
      ≡ (not (contains j ids) && is_listed j c.device_list)
unfolding remove_device contains
remove_device-listed [] c j = refl
remove_device-listed (id ∷ ids) c j =
    remove_device-listed ids (remove_member id c) j ∙ ground (arith, remove_member-listed id c j)

get_remove_list-listed :
    (ms : List Member) (devices : Map Device) (j : Text)
    → contains j (get_remove_list ms devices) ≡ (is_listed j devices && not (is_member j ms))
unfolding get_remove_list contains lookup
get_remove_list-listed ms [] j = refl
get_remove_list-listed ms ((id, d) ∷ devices) j =
    ground (arith, eq_iff id j, get_remove_list-listed ms devices j)

-- Whatever devices the node has, if a detail of the cloud is dealt with without a panic, then the devices that are
-- listed afterwards are exactly those of the detail.
pub deal_membership_detail-exact :
    (is_float : Text → Bool) (now : ℕ) (db : MemberDatabase) (ms : List Member) (c c' : DtContext)
    → deal_membership_detail is_float now db ms c ≡ ok c'
    → (id : Text) → is_listed id c'.device_list ≡ is_member id ms
unfolding deal_membership_detail
deal_membership_detail-exact is_float now db ms c c' e id =
    Holds-ok exact (deal_membership_detail is_float now db ms c) c'
      (Holds-bind (AllMore ms c.device_list) exact (add_device is_float now db ms c) _
        (add_device-AllMore is_float now db ms c)
        (λ d h.
          let gone = get_remove_list ms d.device_list in
          remove_device-listed gone d id
          ∙ ground (arith, get_remove_list-listed ms d.device_list id, h id)))
      e
  where
    exact : DtContext → Type 0
    exact d = is_listed id d.device_list ≡ is_member id ms
