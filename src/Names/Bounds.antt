-- ===== src/Names/Bounds.antt =====
-- contour.go: the length of names.
use envoyingresscontroller.Prelude.{
  ℕ, zero, suc, ◌-◌, ◌≤◌, ◌≡◌, List, ◌∷◌, ◌/◌, Text, length, take, length-take, length-append,
  arith, join,
}
use envoyingresscontroller.Constants.{dash, underscore}
use envoyingresscontroller.External.{External}
use envoyingresscontroller.Names.{truncate, truncate_parts, truncate_at, hashname, short_hash}

-- A truncated text is never longer than its limit, and a text within the limit is unchanged.
pub length-truncate :
    (l : ℕ) (s suffix : Text)
    → (length (truncate l s suffix) ≤ l) × (length s ≤ l → truncate l s suffix ≡ s)
unfolding truncate
length-truncate l s suffix = (
  ground (
    arith,
    length-take l suffix,
    length-take (length suffix) suffix,
    length-take (l - length suffix - 1) s,
    length-append (take (l - length suffix - 1) s) (dash ∷ suffix),
  ),
  λ h. ground arith,
)

length-truncate_parts :
    (l : ℕ) (hash : Text) (n : ℕ) (parts : List Text) → length (truncate_parts l hash n parts) ≤ l
unfolding truncate_parts
length-truncate_parts l hash zero parts =
    ground (arith, length-take l hash, length-take (length hash) hash)
length-truncate_parts l hash (suc n) parts =
    let shorter = truncate_at (l / length parts) (take short_hash hash) n parts in
    ground (arith, length-truncate_parts l hash n shorter)

-- Whatever the digests and the parts, the name that `Hashname` returns has at most `l` bytes.
pub length-hashname : (d : External) (l : ℕ) (parts : List Text) → length (hashname d l parts) ≤ l
unfolding hashname
length-hashname d l parts =
    ground
      (arith, length-truncate_parts l (d.sha256_hex (join underscore parts)) (length parts) parts)
