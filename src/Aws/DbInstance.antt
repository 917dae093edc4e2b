-- ===== src/Aws/DbInstance.antt =====
-- aws/terraform/db_instance.go: RDS database instances. Decoding the values is mapstructure's.
use terracost.Prelude.{
  String, Bool, false, not, ◌||◌, Option, none, some, List, [], ◌∷◌, ◌++◌, ◌==◌, if◌then◌else◌,
}
use terracost.Decimal.{Decimal}
use terracost.Dict.{Dict, lookup}
use terracost.Query.{ComponentQuery, AttributeFilter}
use terracost.Aws.Text.{has_prefix}
use terracost.Aws.Resources.{
  Float, Provider, zone_region, by_value, product_of, priced_by, on_demand,
}

pub record DbInstance (D : Type 0) : Type 0 where
  pub provider_key : String
  pub region : String
  pub instance_type : String
  pub database_engine : String
  pub database_edition : String
  pub license_model : String
  pub deployment_option : String
  pub storage_type : String
  pub allocated_storage : D
  pub storage_iops : D

pub record DbInstanceValues (F : Type 0) : Type 0 where
  pub instance_class : String
  pub availability_zone : String
  pub engine : String
  pub license_model : String
  pub multi_az : Bool
  pub allocated_storage : F
  pub storage_type : String
  pub iops : F

-- `dbTypeMap`: the engine and the edition
abbrev pub db_types : Dict (String × String)
db_types =
    ("aurora", ("Aurora MySQL", ""))
    ∷ ("aurora-mysql", ("Aurora MySQL", ""))
    ∷ ("mariadb", ("MariaDB", ""))
    ∷ ("mysql", ("MySQL", ""))
    ∷ ("postgres", ("PostgreSQL", ""))
    ∷ ("oracle-se", ("Oracle", "Standard"))
    ∷ ("oracle-se1", ("Oracle", "Standard One"))
    ∷ ("oracle-se2", ("Oracle", "Standard Two"))
    ∷ ("oracle-ee", ("Oracle", "Enterprise"))
    ∷ ("sqlserver-se", ("SQL Server", "Standard"))
    ∷ ("sqlserver-ee", ("SQL Server", "Enterprise"))
    ∷ ("sqlserver-ex", ("SQL Server", "Express"))
    ∷ ("sqlserver-web", ("SQL Server", "Web"))
    ∷ []

-- `licenseModelMap`
abbrev pub license_models : Dict String
license_models =
    ("license-included", "License included")
    ∷ ("bring-your-own-license", "Bring your own license")
    ∷ []

-- a read of a map of texts, `""` for a key that it does not have
abbrev text_or_empty : Option String → String
text_or_empty none = ""
text_or_empty (some s) = s

abbrev type_or_empty : Option (String × String) → String × String
type_or_empty none = ("", "")
type_or_empty (some t) = t

module _ {D F : Type 0} ⦃f : Float F D⦄ where
  -- `newDBInstance`
  unfoldable pub new_db_instance : Provider → DbInstanceValues F → DbInstance D
  new_db_instance p vals =
      let db_type = type_or_empty (lookup vals.engine db_types) in
      record {
        provider_key = p.key;
        region = zone_region p vals.availability_zone;
        instance_type = vals.instance_class;
        database_engine = db_type.0;
        database_edition = db_type.1;
        license_model = text_or_empty (lookup vals.license_model license_models);
        deployment_option = if vals.multi_az then "Multi-AZ" else "Single-AZ";
        storage_type = vals.storage_type;
        allocated_storage = f.from_float vals.allocated_storage;
        storage_iops = f.from_float vals.iops;
      }

-- a filter by a value that may be empty
abbrev unless_empty : String → String → List AttributeFilter
unless_empty key v = if not (v == "") then by_value key v ∷ [] else []

-- the `switch` on the type of storage
abbrev db_volume_type : String → String
db_volume_type storage_type =
    if storage_type == "standard"
    then "Magnetic"
    else if storage_type == "io1" || storage_type == "io2"
    then "Provisioned IOPS"
    else "General Purpose"

module _ {D : Type 0} ⦃d : Decimal D⦄ where
  -- `databaseInstanceComponent`
  unfoldable pub database_instance_component : DbInstance D → ComponentQuery D
  database_instance_component inst = record {
    name = "Database instance";
    hourly_quantity = d.of_int 1;
    monthly_quantity = d.blank;
    unit = "";
    details = inst.deployment_option ∷ inst.instance_type ∷ [];
    usage = false;
    product_filter = product_of inst.provider_key "AmazonRDS" "Database Instance" inst.region (
        by_value "InstanceType" inst.instance_type
        ∷ by_value "DeploymentOption" inst.deployment_option
        ∷ by_value "DatabaseEngine" inst.database_engine
        ∷ (unless_empty "DatabaseEdition" inst.database_edition
            ++ unless_empty "LicenseModel" inst.license_model));
    price_filter = priced_by "Hrs" on_demand;
  }

  -- `storageComponent`
  unfoldable pub database_storage_component : DbInstance D → ComponentQuery D
  database_storage_component inst = record {
    name = "Database storage";
    hourly_quantity = d.blank;
    monthly_quantity = inst.allocated_storage;
    unit = "GB";
    details = db_volume_type inst.storage_type ∷ [];
    usage = false;
    product_filter = product_of inst.provider_key "AmazonRDS" "Database Storage" inst.region (
        by_value "DeploymentOption" inst.deployment_option
        ∷ by_value "VolumeType" (db_volume_type inst.storage_type)
        ∷ []);
    price_filter = none;
  }

  -- `iopsComponent`
  unfoldable pub database_iops_component : DbInstance D → ComponentQuery D
  database_iops_component inst = record {
    name = "Database IOPS";
    hourly_quantity = d.blank;
    monthly_quantity = inst.storage_iops;
    unit = "IOPS";
    details = [];
    usage = false;
    product_filter =
        product_of inst.provider_key "AmazonRDS" "Provisioned IOPS" inst.region
          (by_value "DeploymentOption" inst.deployment_option ∷ []);
    price_filter = none;
  }

  -- `Components`
  unfoldable pub db_instance_components : DbInstance D → List (ComponentQuery D)
  unfolding database_instance_component database_storage_component database_iops_component
  db_instance_components inst =
      database_instance_component inst
      ∷ database_storage_component inst
      ∷ (if has_prefix "io" inst.storage_type then database_iops_component inst ∷ [] else [])
