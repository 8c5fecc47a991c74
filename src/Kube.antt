-- ===== src/Kube.antt =====
-- The parts of the Kubernetes objects that the controller reads, and the listers that it asks for
-- them. The types are those of k8s.io/api and the listers those of client-go, which stand under
-- vendor/: a lister is a parameter, a function from what is asked to what the informer's store
-- answers. A pointer that may be nil is an `Option`, also where the API server never leaves it nil.
use envoyingresscontroller.Prelude.{ℕ, Text, Map, Option, none, some, List}

pub record ObjectMeta : Type 0 where
  pub name : Text
  pub namespace : Text
  pub uid : Text
  pub resource_version : Text
  pub annotations : Map Text
  pub labels : Map Text

pub record NodeCondition : Type 0 where
  pub kind : Text
  pub status : Text

pub record Node : Type 0 where
  pub meta : ObjectMeta
  pub open meta use *
  pub conditions : List NodeCondition

pub record Secret : Type 0 where
  pub meta : ObjectMeta
  pub open meta use *
  pub kind : Text
  pub content : Map Text
  pub string_content : Map Text

pub record ServicePort : Type 0 where
  pub name : Text
  pub protocol : Text
  pub port : ℕ

pub record Service : Type 0 where
  pub meta : ObjectMeta
  pub open meta use *
  pub selector : Map Text
  pub external_name : Text
  pub ports : List ServicePort

pub record EndpointSubset : Type 0 where
  pub addresses : List Text
  pub ports : List ServicePort

pub record Endpoints : Type 0 where
  pub meta : ObjectMeta
  pub open meta use *
  pub subsets : List EndpointSubset

-- networking/v1
pub data PathType : Type 0 where
  exact prefix implementation_specific : PathType
  unknown : Text → PathType

pub record ServiceBackendPort : Type 0 where
  pub name : Text
  pub number : ℕ

pub record IngressServiceBackend : Type 0 where
  pub name : Text
  pub port : ServiceBackendPort

pub record IngressBackend : Type 0 where
  pub service : Option IngressServiceBackend

pub record HttpIngressPath : Type 0 where
  pub path : Text
  pub path_type : Option PathType
  pub backend : IngressBackend

pub record IngressRule : Type 0 where
  pub host : Text
  pub http : Option (List HttpIngressPath)

pub record IngressTls : Type 0 where
  pub hosts : List Text
  pub secret_name : Text

pub record Ingress : Type 0 where
  pub meta : ObjectMeta
  pub open meta use *
  pub ingress_class_name : Option Text
  pub default_backend : Option IngressBackend
  pub tls : List IngressTls
  pub rules : List IngressRule

-- networking/v1beta1
pub data IntOrString : Type 0 where
  int_val : ℕ → IntOrString
  str_val : Text → IntOrString

pub record V1beta1Backend : Type 0 where
  pub service_name : Text
  pub service_port : IntOrString

pub record V1beta1Path : Type 0 where
  pub path : Text
  pub path_type : Option PathType
  pub backend : V1beta1Backend

pub record V1beta1Rule : Type 0 where
  pub host : Text
  pub http : Option (List V1beta1Path)

pub record V1beta1Ingress : Type 0 where
  pub meta : ObjectMeta
  pub open meta use *
  pub ingress_class_name : Option Text
  pub backend : Option V1beta1Backend
  pub tls : List IngressTls
  pub rules : List V1beta1Rule

-- The answer of a lister's `Get`: `errors.IsNotFound` tells the two failures apart.
pub data Answer {ℓ} (A : Type ℓ) : Type ℓ where
  found : A → Answer A
  not_found failed : Answer A

-- The informers' stores as the controller sees them. A `List` that returns an error is `none`.
pub record Listers : Type 0 where
  pub ingresses_in : Text → Option (List Ingress)
  pub v1beta1_ingresses_in : Text → Option (List V1beta1Ingress)
  pub services_in : Text → Option (List Service)
  pub all_ingresses : Option (List Ingress)
  pub all_v1beta1_ingresses : Option (List V1beta1Ingress)
  pub all_nodes : Option (List Node)
  pub get_ingress : Text → Text → Answer Ingress
  pub get_v1beta1_ingress : Text → Text → Answer V1beta1Ingress
  pub get_service : Text → Text → Answer Service
  pub get_endpoints : Text → Text → Answer Endpoints
  pub get_secret : Text → Text → Answer Secret

-- A found object, where the source treats both failures alike.
abbrev pub found? {ℓ} : {A : Type ℓ} → Answer A → Option A
found? (found a) = some a
found? not_found = none
found? failed = none
