-- ===== src/Aws/Ingester.antt =====
-- aws/ingester.go: a row of an offer file becomes a product with a price. A field is named by the title
-- of its column (aws/field); `parse` is `decimal.NewFromString`.
pub mod Attributes
pub mod Tests
use terracost.Prelude.{
  ℕ, zero, suc, ◌+◌, ◌-◌, ◌*◌, ◌/◌, ◌%◌, ◌≤◌, ◌<◌, String, ◌≡◌, refl, sym, ap, ◌∙◌, subst, ◌≢◌, ◌↔◌,
  ◌⊎◌, inl, inr, Bool, true, false, not, ◌&&◌, ◌||◌, false≢true, Option, none, some, List, [], ◌∷◌,
  ◌++◌, map, arith, ◌==◌, eq_iff, eq_refl, ltb, leb, eqb, if◌then◌else◌, Bool-cases, Option-cases,
  is_some, length, length-append, All, All-append, List-cases,
}
use terracost.Errors.{Result, ok, err, wrap, ◌>>=◌}
use terracost.Dict.{Dict, lookup, insert}
use terracost.Query.{Product, Price, WithProduct}
use terracost.Aws.Region.{text_at, new_from_name}

-- `columns[v] = i` for each title, and `nth` for `row[index]`, where `none` is the panic
abbrev positions_from : ℕ → List String → Dict ℕ → Dict ℕ
positions_from i [] columns = columns
positions_from i (v ∷ vs) columns = positions_from (i + 1) vs (insert v i columns)

-- `readColumnPositions`
unfoldable pub read_column_positions : List String → Dict ℕ
read_column_positions titles = positions_from 0 titles []

-- `columnProductToIngest`
abbrev pub column_product_to_ingest : Dict String
column_product_to_ingest =
    ("CapacityStatus", "CapacityStatus")
    ∷ ("Group", "Group")
    ∷ ("Instance Type", "InstanceType")
    ∷ ("Operating System", "OperatingSystem")
    ∷ ("Pre Installed S/W", "PreInstalledSW")
    ∷ ("Tenancy", "Tenancy")
    ∷ ("usageType", "UsageType")
    ∷ ("Volume API Name", "VolumeAPIName")
    ∷ ("Volume Type", "VolumeType")
    ∷ ("Storage Class", "StorageClass")
    ∷ ("Access Type", "AccessType")
    ∷ ("Throughput Class", "ThroughputClass")
    ∷ ("Cache Engine", "CacheEngine")
    ∷ ("Database Engine", "DatabaseEngine")
    ∷ ("Database Edition", "DatabaseEdition")
    ∷ ("Deployment Option", "DeploymentOption")
    ∷ ("License Model", "LicenseModel")
    ∷ ("File system type", "FileSystemType")
    ∷ ("Storage type", "StorageType")
    ∷ ("Throughput capacity", "ThroughputCapacity")
    ∷ ("Deployment option", "Deployment_option")
    ∷ ("Alarm Type", "AlarmType")
    ∷ []

-- `columnPriceToIngest`
abbrev pub column_price_to_ingest : Dict String
column_price_to_ingest = ("StartingRange", "StartingRange") ∷ ("TermType", "TermType") ∷ []

-- `if values[col] != "" { attributes[attr] = values[col] }`
abbrev pub put_attribute : String → String → Dict String → Dict String
put_attribute attr value attributes =
    if value == "" then attributes else insert attr value attributes

-- the loop over one of the tables
unfoldable pub copy_columns : Dict String → Dict String → Dict String → Dict String
copy_columns [] values attributes = attributes
copy_columns ((col, attr) ∷ cols) values attributes =
    copy_columns cols values (put_attribute attr (text_at col values) attributes)

-- `newProduct`
unfoldable pub new_product : Dict String → Product
unfolding copy_columns
new_product values = record {
  id = 0;
  provider = "aws";
  sku = text_at "SKU" values;
  service = text_at "serviceCode" values;
  family = text_at "Product Family" values;
  location = new_from_name (text_at "Location" values);
  attributes = some (copy_columns column_product_to_ingest values []);
}

-- the price and the product of a row whose price is `price_val`
abbrev pub priced_row : {D : Type 0} → Dict String → D → WithProduct D
priced_row values price_val = record {
  price = record {
    id = 0;
    unit = text_at "Unit" values;
    currency = text_at "Currency" values;
    value = price_val;
    attributes = some (copy_columns column_price_to_ingest values []);
  };
  product = new_product values;
}

-- `newPriceWithProduct`
unfoldable pub new_price_with_product :
    {D : Type 0} → (String → Result D) → Dict String → Result (WithProduct D)
unfolding new_product copy_columns
new_price_with_product parse values =
    wrap "failed to parse PricePerUnit: %w" [] (parse (text_at "PricePerUnit" values))
    >>= λ price_val. ok (priced_row values price_val)
