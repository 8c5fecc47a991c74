-- ===== src/Prelude/Outcomes.antt =====
-- What a Go call comes to: a value, a returned error, or a run-time panic.
use mathlib.Core.Path.{◌≡◌, refl, subst}
use mathlib.Core.Logic.{◌⊎◌, inl, inr}
use mathlib.Core.List.{List, [], ◌∷◌, ◌++◌}
use mathlib.Core.Option.{Option, none, some}

-- The errors that the program returns, one for each `fmt.Errorf` and each failing callee.
pub data Error : Type 0 where
  no_nodegroup no_services no_load_assignments no_clusters no_virtual_hosts no_listeners : Error
  lister_failed not_envoy_ingress bad_key missing_parameter index_not_found : Error
  unknown_spec marshal_failed send_failed resource_missing empty_resource : Error
  content_failed unquote_failed decode_failed unmarshal_failed unknown_type database_failed : Error
  no_node_id no_message_key no_metadata no_connection node_disconnected write_failed : Error
  version_missing version_not_allowed version_conflict bad_value wrong_body no_device no_twin :
      Error
  bad_twin_key bad_twin_value : Error

pub data Outcome {ℓ} (A : Type ℓ) : Type ℓ where
  ok : A → Outcome A
  err : Error → Outcome A
  panics : Outcome A

infixl 5 ◌>>=◌ ◌>>◌
abbrev pub ◌>>=◌ {ℓ κ} : {A : Type ℓ} {B : Type κ} → Outcome A → (A → Outcome B) → Outcome B
ok a >>= f = f a
err e >>= f = err e
panics >>= f = panics

abbrev pub ◌>>◌ {ℓ κ} : {A : Type ℓ} {B : Type κ} → Outcome A → Outcome B → Outcome B
m >> k = m >>= λ _. k

-- A nil pointer that is read.
abbrev pub deref {ℓ} : {A : Type ℓ} → Option A → Outcome A
deref none = panics
deref (some a) = ok a

abbrev pub or_err {ℓ} : {A : Type ℓ} → Option A → Error → Outcome A
or_err none e = err e
or_err (some a) e = ok a

module _ {ℓ κ} {A : Type ℓ} {B : Type κ} where
  -- A loop whose body may fail, collecting what each round appends.
  abbrev pub collect : (A → Outcome (List B)) → List A → Outcome (List B)
  collect f [] = ok []
  collect f (x ∷ xs) = f x >>= λ ys. collect f xs >>= λ zs. ok (ys ++ zs)

pub Outcome-cases {ℓ} :
    {A : Type ℓ} (o : Outcome A)
    → ((a : A) × (o ≡ ok a)) ⊎ (((e : Error) × (o ≡ err e)) ⊎ (o ≡ panics))
Outcome-cases (ok a) = inl (a, refl)
Outcome-cases (err e) = inr (inl (e, refl))
Outcome-cases panics = inr (inr refl)

-- What holds of the value, if there is one.
abbrev pub Holds {ℓ κ} : {A : Type ℓ} → (A → Type κ) → Outcome A → Type κ
Holds P (ok a) = P a
Holds P (err e) = Unit
Holds P panics = Unit

pub Holds-bind {ℓ κ λ₁ λ₂} :
    {A : Type ℓ} {B : Type κ} (P : A → Type λ₁) (Q : B → Type λ₂) (o : Outcome A)
    (f : A → Outcome B)
    → Holds P o
    → ((a : A) → P a → Holds Q (f a))
    → Holds Q (o >>= f)
Holds-bind P Q (ok a) f h k = k a h
Holds-bind P Q (err e) f h k = tt
Holds-bind P Q panics f h k = tt

pub Holds-any {ℓ κ} : {A : Type ℓ} (P : A → Type κ) (o : Outcome A) → ((a : A) → P a) → Holds P o
Holds-any P (ok a) f = f a
Holds-any P (err e) f = tt
Holds-any P panics f = tt

pub Holds-ok {ℓ κ} :
    {A : Type ℓ} (P : A → Type κ) (o : Outcome A) (a : A) → Holds P o → o ≡ ok a → P a
Holds-ok P (ok b) a h e = let f : b ≡ a = cc in subst P f h
Holds-ok P (err x) a h e = cc
Holds-ok P panics a h e = cc
