-- ===== src/Aws/EksCluster/Prefix.antt =====
-- The usage types of clusters and the short names of regions.
use terracost.Prelude.{
  String, ◌≡◌, refl, ◌↔◌, Bool, true, false, not, ◌||◌, Option, none, some, List, [], ◌∷◌, arith,
  ◌==◌, eq_iff, if◌then◌else◌,
}
use terracost.Dict.{lookup, insert}
use terracost.Aws.Text.{split, to_upper}
use terracost.Aws.Region.{code_to_name, valid, get_region_to_short_name}
use terracost.Aws.Region.Table.{every, every_sound, valid-lookup}
use terracost.Aws.EksCluster.{usage_prefix}

abbrev one_of : List String → String → Bool
one_of [] s = false
one_of (t ∷ ts) s = s == t || one_of ts s

-- The regions where the prefix that the component makes is not the short name.
abbrev pub differing : List String
differing =
    "us-east-1" ∷ "us-west-2-lax-1" ∷ "ca-central-1" ∷ "ap-south-1" ∷ "ap-southeast-4"
    ∷ "ap-southeast-5" ∷ "ap-southeast-7" ∷ "ap-south-2" ∷ "cn-northwest-1" ∷ "us-gov-west-1"
    ∷ "us-gov-east-1" ∷ []

abbrev has_prefix : String → Option String → Bool
has_prefix code none = false
has_prefix code (some prefix) = prefix == get_region_to_short_name code

abbrev pub differs : String → Bool
differs code = one_of differing code

abbrev prefix_checked : String → String → Bool
prefix_checked code _ =
    if differs code
    then not (has_prefix code (usage_prefix code))
    else has_prefix code (usage_prefix code)

prefixes_checked : every prefix_checked code_to_name ≡ true
unfolding code_to_name get_region_to_short_name usage_prefix split to_upper lookup insert
prefixes_checked = refl

-- For a valid region the component's prefix is the region's short name exactly where the region is not
-- one of `differing`.
pub usage_prefix_iff :
    (code : String)
    → valid code ≡ true
    → (usage_prefix code ≡ some (get_region_to_short_name code)) ↔ (differs code ≡ false)
usage_prefix_iff code v =
    let (name, e) = valid-lookup code v in
    go (usage_prefix code) (differs code)
      (every_sound prefix_checked code_to_name code name prefixes_checked e)
  where
    go :
        (prefix : Option String) (other : Bool)
        → (if other then not (has_prefix code prefix) else has_prefix code prefix) ≡ true
        → (prefix ≡ some (get_region_to_short_name code)) ↔ (other ≡ false)
    go none other h = ground arith
    go (some prefix) other h = ground (arith, eq_iff prefix (get_region_to_short_name code))
