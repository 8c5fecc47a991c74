-- ===== src/Edge/Stores.antt =====
-- edge/pkg/envoycontrolplane: the maps and the tables of the five kinds.
use envoyingresscontroller.Prelude.{false, ◌≡◌, refl, List, [], ◌∷◌, Text, All, ◌==◌, arith}
use envoyingresscontroller.Edge.{
  Kind, secret, endpoint, cluster, route, listener, Row, PerKind, at, set_at,
}
use envoyingresscontroller.Edge.Process.{delete_rows}

pub at-set_at_self {ℓ} : {A : Type ℓ} (k : Kind) (a : A) (p : PerKind A) → at k (set_at k a p) ≡ a
at-set_at_self secret a p = refl
at-set_at_self endpoint a p = refl
at-set_at_self cluster a p = refl
at-set_at_self route a p = refl
at-set_at_self listener a p = refl

-- No row of the table has that name.
abbrev pub LacksName : Text → List Row → Type 0
LacksName name = All (λ r. (r.name == name) ≡ false)

pub delete_rows-lacks : (name : Text) (rows : List Row) → LacksName name (delete_rows name rows)
unfolding delete_rows
delete_rows-lacks name [] = tt
delete_rows-lacks name (r ∷ rs) = ground (arith, delete_rows-lacks name rs)
