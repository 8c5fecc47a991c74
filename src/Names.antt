-- ===== src/Names.antt =====
-- cloud/pkg/envoyingresscontroller/contour.go: the names of Envoy objects. `Hashname`, `truncate`,
-- `min`, `Secretname`, `Clustername`, `ClusterLoadAssignmentName` and `AltStatName`. The digests
-- are crypto/sha1 and crypto/sha256, which enter as parameters that give hexadecimal text.
pub mod Bounds
use envoyingresscontroller.Prelude.{
  ℕ, zero, suc, ◌+◌, ◌-◌, ◌*◌, ◌/◌, ◌%◌, Bool, true, false, Option, none, some, List, [], ◌∷◌, ◌++◌,
  Text, codes, length, take, drop, get_elem?, join, itoa, lookup, get_text, Map, ltb, leb, eqb,
  if◌then◌else◌, ◌==◌, is_nil, Outcome, ok, err, panics, ◌>>=◌, deref,
}
use envoyingresscontroller.Constants.{underscore, slash, dash, tls_cert_key, ca_certificate_key}
use envoyingresscontroller.External.{External}
use envoyingresscontroller.Kube.{Service, ServicePort, Secret}

-- min
unfoldable pub min_int : ℕ → ℕ → ℕ
min_int a b = if ltb b a then b else a

-- truncate: the end of `s` gives way to `-suffix`.
unfoldable pub truncate : ℕ → Text → Text → Text
unfolding min_int
truncate l s suffix =
    if leb (length s) l
    then s
    else if leb l (length suffix)
    then take (min_int l (length suffix)) suffix
    else take (l - length suffix - 1) s ++ dash ∷ suffix

-- s[n] = truncate(limit, s[n], suffix)
unfoldable pub truncate_at : ℕ → Text → ℕ → List Text → List Text
truncate_at limit suffix n [] = []
truncate_at limit suffix zero (p ∷ ps) = truncate limit p suffix ∷ ps
truncate_at limit suffix (suc n) (p ∷ ps) = p ∷ truncate_at limit suffix n ps

abbrev pub short_hash : ℕ
short_hash = 6

-- The loop of `Hashname`: the elements below `n` are not truncated yet.
unfoldable pub truncate_parts : ℕ → Text → ℕ → List Text → Text
unfolding truncate_at truncate min_int
truncate_parts l hash zero parts = take (min_int (length hash) l) hash
truncate_parts l hash (suc n) parts =
    let shorter = truncate_at (l / length parts) (take short_hash hash) n parts in
    let rest = truncate_parts l hash n shorter in
    if ltb (length (join underscore shorter)) l then join underscore shorter else rest

-- Hashname
unfoldable pub hashname : External → ℕ → List Text → Text
unfolding truncate_parts
hashname d l parts =
    if ltb (length (join underscore parts)) l
    then join underscore parts
    else truncate_parts l (d.sha256_hex (join underscore parts)) (length parts) parts

-- Secretname
unfoldable pub secret_name : External → Secret → Text
secret_name d s =
    hashname d 60 (s.namespace ∷ s.name ∷ d.sha1_hex_5 (get_text tls_cert_key s.content) ∷ [])

-- ClusterLoadAssignmentName of a service's name and namespace and a port's name.
unfoldable pub cluster_load_assignment_name : Text → Text → Text → Text
cluster_load_assignment_name namespace name port_name =
    if port_name == []
    then join slash (namespace ∷ name ∷ [])
    else join slash (namespace ∷ name ∷ port_name ∷ [])

-- AltStatName
unfoldable pub alt_stat_name : Service → ServicePort → Text
alt_stat_name service service_port =
    join underscore (service.namespace ∷ service.name ∷ itoa service_port.port ∷ [])

-- PeerValidationContext
pub record PeerValidationContext : Type 0 where
  pub ca_certificate : Option Secret
  pub subject_name : Text

-- GetCACertificate: a missing key of the secret's data is a nil slice, as is a missing secret.
unfoldable pub get_ca_certificate : Option PeerValidationContext → Option Text
get_ca_certificate none = none
get_ca_certificate (some pvc) = elim pvc.ca_certificate [
  | none ↦ none
  | some s ↦ lookup ca_certificate_key s.content
]

-- GetSubjectName
unfoldable pub get_subject_name : Option PeerValidationContext → Text
get_subject_name none = []
get_subject_name (some pvc) = pvc.subject_name

-- HTTPHealthCheckPolicy, its durations in whole seconds.
pub record HttpHealthCheckPolicy : Type 0 where
  pub path : Text
  pub host : Text
  pub interval : ℕ
  pub timeout : ℕ
  pub unhealthy_threshold : ℕ
  pub healthy_threshold : ℕ

-- The `String` of a duration of whole seconds.
unfoldable pub duration_string : ℕ → Text
duration_string n =
    if ltb n 60
    then itoa n ++ codes "s"
    else if ltb n 3600
    then itoa (n / 60) ++ codes "m" ++ itoa (n % 60) ++ codes "s"
    else itoa (n / 3600)
      ++ codes "h"
      ++ itoa (n / 60 % 60)
      ++ codes "m"
      ++ itoa (n % 60)
      ++ codes "s"

-- A part of the hashed buffer that is written if the number is positive.
abbrev if_positive : ℕ → Text → Text
if_positive n t = if ltb 0 n then t else []

unfoldable pub health_check_part : Option HttpHealthCheckPolicy → Text
health_check_part none = []
health_check_part (some hc) =
    if_positive hc.timeout (duration_string hc.timeout)
    ++ if_positive hc.interval (duration_string hc.interval)
    ++ if_positive hc.unhealthy_threshold (itoa hc.unhealthy_threshold)
    ++ if_positive hc.healthy_threshold (itoa hc.healthy_threshold)
    ++ hc.path

-- `uv.CACertificate.ObjectMeta.Name` is read without a test.
unfoldable pub validation_part : Option PeerValidationContext → Outcome Text
validation_part none = ok []
validation_part (some uv) = do s ← deref uv.ca_certificate; ok (s.name ++ uv.subject_name)

-- Clustername
unfoldable pub cluster_name :
    External
    → Service
    → ServicePort
    → Text
    → Option HttpHealthCheckPolicy
    → Option PeerValidationContext
    → Outcome Text
cluster_name d service service_port load_balancer_policy policy validation = do
  part ← validation_part validation
  ok (
      hashname d 60 (
        service.namespace
        ∷ service.name
        ∷ itoa service_port.port
        ∷ d.sha1_hex_5 (load_balancer_policy ++ health_check_part policy ++ part)
        ∷ []))
