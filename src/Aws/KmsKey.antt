-- ===== src/Aws/KmsKey.antt =====
-- aws/terraform/kms_key.go: KMS keys. Decoding the values is mapstructure's.
use terracost.Prelude.{String, Bool, false, not, ◌||◌, List, [], ◌∷◌, ◌==◌, if◌then◌else◌}
use terracost.Decimal.{Decimal}
use terracost.Query.{ComponentQuery}
use terracost.Aws.Resources.{Provider, by_regex, product_of, priced_by, on_demand_from}

pub record KmsKey : Type 0 where
  pub provider : Provider
  pub region : String
  pub customer_master_key_spec : String

-- `newKMSKey`, of the values' `customer_master_key_spec`
unfoldable pub new_kms_key : Provider → String → KmsKey
new_kms_key p spec = record {
  provider = p;
  region = p.region;
  customer_master_key_spec = if not (spec == "") then spec else "SYMMETRIC_DEFAULT";
}

abbrev pub is_asymmetric : String → Bool
is_asymmetric spec =
    spec == "RSA_3072"
    || spec == "RSA_4096"
    || spec == "ECC_NIST_P256"
    || spec == "ECC_NIST_P384"
    || spec == "ECC_NIST_P521"
    || spec == "ECC_SECG_P256K1"

module _ {D : Type 0} ⦃d : Decimal D⦄ where
  -- `kmsKeyComponent`
  unfoldable pub kms_key_component : KmsKey → ComponentQuery D
  kms_key_component v = record {
    name = "Customer master key";
    hourly_quantity = d.blank;
    monthly_quantity = d.of_int 1;
    unit = "Keys";
    details = "master key" ∷ [];
    usage = false;
    product_filter =
        product_of v.provider.key "awskms" "Encryption Key" v.region
          (by_regex "UsageType" ".*KMS-Keys" ∷ []);
    price_filter = priced_by "Keys" (on_demand_from "0");
  }

  -- `kmsKeyRequestComponent`
  unfoldable pub kms_key_request_component : KmsKey → String → String → String → ComponentQuery D
  kms_key_request_component v name usage_type family = record {
    name = name;
    hourly_quantity = d.blank;
    monthly_quantity = d.of_int 1;
    unit = "Requests";
    details = "Request" ∷ [];
    usage = false;
    product_filter =
        product_of v.provider.key "awskms" family v.region (by_regex "UsageType" usage_type ∷ []);
    price_filter = priced_by "Requests" (on_demand_from "0");
  }

  -- the `switch` on the key's spec
  abbrev request_components : KmsKey → List (ComponentQuery D)
  request_components v =
      if v.customer_master_key_spec == "RSA_2048"
      then kms_key_request_component v "Requests (RSA 2048)" ".*KMS-Requests-Asymmetric-RSA_2048$"
          ""
        ∷ []
      else if is_asymmetric v.customer_master_key_spec
      then kms_key_request_component v "Requests (asymmetric)" ".*KMS-Requests-Asymmetric$" "" ∷ []
      else kms_key_request_component v "Requests" ".*KMS-Requests$" "API Request"
        ∷ kms_key_request_component v "ECC GenerateDataKeyPair requests"
            ".*KMS-Requests-GenerateDatakeyPair-ECC$" ""
        ∷ kms_key_request_component v "RSA GenerateDataKeyPair requests"
            ".*KMS-Requests-GenerateDatakeyPair-RSA$" ""
        ∷ []

  -- `Components`
  unfoldable pub kms_key_components : KmsKey → List (ComponentQuery D)
  unfolding kms_key_component kms_key_request_component
  kms_key_components v = kms_key_component v ∷ request_components v
