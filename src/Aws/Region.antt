-- ===== src/Aws/Region.antt =====
-- The package aws/region: regions.go and code.go. A zone is read as ASCII text.
pub mod Table
use terracost.Prelude.{
  ℕ, zero, suc, ◌+◌, ◌-◌, ◌*◌, ◌/◌, ◌%◌, ◌≤◌, ◌<◌, String, ◌≡◌, refl, sym, ap, ◌∙◌, subst, ◌≢◌, ◌↔◌,
  ◌⊎◌, inl, inr, Bool, true, false, not, ◌&&◌, ◌||◌, false≢true, Option, none, some, List, [], ◌∷◌,
  ◌++◌, map, arith, ◌==◌, eq_iff, eq_refl, ltb, leb, eqb, if◌then◌else◌, Bool-cases, Option-cases,
  is_some, length, length-append, All, All-append, List-cases,
}
use Prim.Native.String.{len, slice}
use terracost.Dict.{Dict, lookup, insert}

-- `nameToCode`
abbrev pub name_to_code : Dict String
name_to_code =
    ("US East (N. Virginia)", "us-east-1")
    ∷ ("US East (Ohio)", "us-east-2")
    ∷ ("US West (N. California)", "us-west-1")
    ∷ ("US West (Oregon)", "us-west-2")
    ∷ ("US West (Los Angeles)", "us-west-2-lax-1")
    ∷ ("Canada (Central)", "ca-central-1")
    ∷ ("Canada West (Calgary)", "ca-west-1")
    ∷ ("EU (Stockholm)", "eu-north-1")
    ∷ ("EU (Ireland)", "eu-west-1")
    ∷ ("EU (London)", "eu-west-2")
    ∷ ("EU (Paris)", "eu-west-3")
    ∷ ("EU (Frankfurt)", "eu-central-1")
    ∷ ("EU (Zurich)", "eu-central-2")
    ∷ ("EU (Milan)", "eu-south-1")
    ∷ ("EU (Spain)", "eu-south-2")
    ∷ ("Asia Pacific (Tokyo)", "ap-northeast-1")
    ∷ ("Asia Pacific (Seoul)", "ap-northeast-2")
    ∷ ("Asia Pacific (Osaka-Local)", "ap-northeast-3")
    ∷ ("Asia Pacific (Singapore)", "ap-southeast-1")
    ∷ ("Asia Pacific (Sydney)", "ap-southeast-2")
    ∷ ("Asie Pacific (Jakarta)", "ap-southeast-3")
    ∷ ("Asia Pacific (Melbourne)", "ap-southeast-4")
    ∷ ("Asie Pacific (Malaysia)", "ap-southeast-5")
    ∷ ("Asie Pacific (Thailand)", "ap-southeast-7")
    ∷ ("Asia Pacific (Hong Kong)", "ap-east-1")
    ∷ ("Asia Pacific (Mumbai)", "ap-south-1")
    ∷ ("Asie Pacific (Hyderabad)", "ap-south-2")
    ∷ ("South America (Sao Paulo)", "sa-east-1")
    ∷ ("China (Beijing)", "cn-north-1")
    ∷ ("China (Ningxia)", "cn-northwest-1")
    ∷ ("AWS GovCloud (US-West)", "us-gov-west-1")
    ∷ ("AWS GovCloud (US-East)", "us-gov-east-1")
    ∷ ("Middle East (Bahrain)", "me-south-1")
    ∷ ("Africa (Cape Town)", "af-south-1")
    ∷ ("Israel (Tel Aviv)", "il-central-1")
    ∷ ("Middle East (UAE)", "me-central-1")
    ∷ []

-- `codeToShortName`
abbrev pub code_to_short_name : Dict String
code_to_short_name =
    ("us-east-1", "US")
    ∷ ("us-east-2", "USE2")
    ∷ ("us-west-1", "USW1")
    ∷ ("us-west-2", "USW2")
    ∷ ("us-west-2-lax-1", "LAX1")
    ∷ ("ca-central-1", "CAN1")
    ∷ ("ca-west-1", "CAW1")
    ∷ ("eu-north-1", "EUN1")
    ∷ ("eu-west-1", "EU")
    ∷ ("eu-west-2", "EUW2")
    ∷ ("eu-west-3", "EUW3")
    ∷ ("eu-central-1", "EUC1")
    ∷ ("eu-central-2", "EUC2")
    ∷ ("eu-south-1", "EUS1")
    ∷ ("eu-south-2", "EUS2")
    ∷ ("ap-south-1", "APS3")
    ∷ ("ap-northeast-1", "APN1")
    ∷ ("ap-northeast-2", "APN2")
    ∷ ("ap-northeast-3", "APN3")
    ∷ ("ap-southeast-1", "APS1")
    ∷ ("ap-southeast-2", "APS2")
    ∷ ("ap-southeast-3", "APS3")
    ∷ ("ap-southeast-4", "APS6")
    ∷ ("ap-southeast-5", "APS7")
    ∷ ("ap-southeast-7", "APS9")
    ∷ ("ap-east-1", "APE1")
    ∷ ("ap-south-2", "APS5")
    ∷ ("sa-east-1", "SAE1")
    ∷ ("cn-north-1", "CNN1")
    ∷ ("cn-northwest-1", "CNW1")
    ∷ ("us-gov-west-1", "UGW1")
    ∷ ("us-gov-east-1", "UGE1")
    ∷ ("me-south-1", "MES1")
    ∷ ("af-south-1", "AFS1")
    ∷ ("il-central-1", "ILC1")
    ∷ ("me-central-1", "MEC1")
    ∷ []

-- `for name, code := range nameToCode { codeToName[code] = name }`
abbrev pub invert : Dict String → Dict String → Dict String
invert [] acc = acc
invert ((name, code) ∷ m) acc = invert m (insert code name acc)

-- `codeToName`, as `init` fills it
unfoldable pub code_to_name : Dict String
code_to_name = invert name_to_code []

-- `m[k]` of a map of texts: the empty text where the key is missing
abbrev pub text_at : String → Dict String → String
text_at k m = elim (lookup k m) [ some v ↦ v | none ↦ "" ]

-- `NewFromZone`
unfoldable pub new_from_zone : String → String
new_from_zone zone = if ltb (len zone) 1 then "" else slice zone 0 (len zone - 1)

-- `NewFromName`
unfoldable pub new_from_name : String → String
new_from_name name = text_at name name_to_code

-- `Valid`
unfoldable pub valid : String → Bool
unfolding code_to_name
valid c = if c == "" then false else is_some (lookup c code_to_name)

-- `GetRegionToShortName`
unfoldable pub get_region_to_short_name : String → String
get_region_to_short_name region = text_at region code_to_short_name
