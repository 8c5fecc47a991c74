-- ===== src/External.antt =====
-- What the controller calls outside the repository, as parameters: the digests of crypto/sha1 and
-- crypto/sha256, the object keys of client-go, protobuf's encoding and base64.
use envoyingresscontroller.Prelude.{Text, Option}
use envoyingresscontroller.Kube.{Ingress}
use envoyingresscontroller.Resource.{Spec}

pub record External : Type 0 where
  -- fmt.Sprintf("%x", sha256.Sum256(b)) and fmt.Sprintf("%x", sha1.Sum(b)[:5])
  pub sha256_hex : Text → Text
  pub sha1_hex_5 : Text → Text
  -- controller.KeyFunc, which gives every object with metadata a key
  pub key_func : Ingress → Text
  -- cache.SplitMetaNamespaceKey, with `none` for an error
  pub split_meta_namespace_key : Text → Option (Text × Text)
  -- proto.Marshal, with `none` for an error, and base64.StdEncoding.EncodeToString
  pub marshal : Spec → Option Text
  pub encode_to_string : Text → Text
