-- ===== src/CloudHub/SyncNames.antt =====
-- cloud/pkg/synccontroller: the names of object syncs, <node>.<uid>.
use envoyingresscontroller.Prelude.{
  ◌≡◌, refl, ap, ◌∙◌, List, [], ◌∷◌, ◌++◌, Text, split, join, split-Lacks, Lacks, eqb, arith,
  Bool-cases, inl, inr,
}
use envoyingresscontroller.CloudHub.{
  dot, build_object_sync_name, get_node_name, get_object_uid, but_last, last_part,
}

split_some : (s : Text) → (p : Text) × (ps : List Text) × (split dot s ≡ p ∷ ps)
unfolding split
split_some [] = ([], [], refl)
split_some (b ∷ s) =
    let (p, ps, e) = split_some s in
    elim (Bool-cases (eqb b dot)) [
      | inl i ↦ ([], p ∷ ps, ground (arith, e))
      | inr i ↦ (b ∷ p, ps, ground (arith, e))
    ]

split-last : (s uid : Text) → Lacks dot uid → split dot (s ++ dot ∷ uid) ≡ split dot s ++ uid ∷ []
unfolding split
split-last [] uid l = ground (arith, split-Lacks dot uid l)
split-last (b ∷ s) uid l = let (p, ps, e) = split_some s in ground (arith, e, split-last s uid l)

last_part-append : (ps : List Text) (t : Text) → last_part (ps ++ t ∷ []) ≡ t
unfolding last_part
last_part-append [] t = refl
last_part-append (p ∷ []) t = refl
last_part-append (p ∷ q ∷ ps) t = last_part-append (q ∷ ps) t

but_last-append : (ps : List Text) (t : Text) → but_last (ps ++ t ∷ []) ≡ ps
unfolding but_last
but_last-append [] t = refl
but_last-append (p ∷ []) t = refl
but_last-append (p ∷ q ∷ ps) t = ap (λ r. p ∷ r) (but_last-append (q ∷ ps) t)

join-split : (s : Text) → join dot (split dot s) ≡ s
unfolding split join
join-split [] = refl
join-split (b ∷ s) = let (p, ps, e) = split_some s in ground (arith, e, join-split s)

-- The name of the object sync of a node and a UID without a dot gives both back, whatever dots the
-- name of the node has.
pub build_object_sync_name-parts :
    (node uid : Text)
    → Lacks dot uid
    → (get_node_name (build_object_sync_name node uid) ≡ node)
      × (get_object_uid (build_object_sync_name node uid) ≡ uid)
unfolding get_node_name get_object_uid build_object_sync_name
build_object_sync_name-parts node uid l =
    let e = split-last node uid l in
    (
      ap (λ ps. join dot (but_last ps)) e
          ∙ ap (join dot) (but_last-append (split dot node) uid)
          ∙ join-split node,
      ap last_part e ∙ last_part-append (split dot node) uid,
    )
