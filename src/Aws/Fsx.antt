-- ===== src/Aws/Fsx.antt =====
-- aws/terraform/fsx_x_file_system.go, and the four files of the kinds of file systems, fsx_windows,
-- fsx_lustre, fsx_ontap and fsx_openzfs. Decoding the values is mapstructure's; `greater` and `string` are
-- `decimal.Decimal`'s `GreaterThan` and `String`.
use terracost.Prelude.{
  String, Bool, true, false, not, none, List, [], ◌∷◌, ◌++◌, ◌==◌, if◌then◌else◌,
}
use terracost.Decimal.{Decimal}
use terracost.Query.{ComponentQuery}
use terracost.Aws.Text.{◌<>◌, to_lower}
use terracost.Aws.Resources.{Float, Provider, by_value, by_regex, product_of}

pub record FsxFileSystem (D : Type 0) : Type 0 where
  pub provider : Provider
  pub region : String
  pub storage_capacity : D
  pub storage_type : String
  pub throughput_capacity : D
  pub automatic_backup_retention_days : D
  pub fsx_type : String
  pub deployment_option : String
  pub backup_storage : D

-- The values that all kinds read; `throughput` is the throughput capacity, and for Lustre the throughput
-- per unit of storage.
pub record FsxValues (F : Type 0) : Type 0 where
  pub storage_capacity : F
  pub storage_type : String
  pub deployment_type : String
  pub throughput : F
  pub automatic_backup_retention_days : F
  pub backup_storage_gb : F

-- `getWindowsDeployOption` and `getOntapDeployOption`, and `getOpenzfsDeployOption`, which differ in the
-- option of `single_az_2`
abbrev deploy_option : String → String → String
deploy_option second deployment_type =
    let kind = to_lower deployment_type in
    if kind == "single_az_1"
    then "Single-AZ"
    else if kind == "single_az_2"
    then second
    else "Multi-AZ"

abbrev pub get_windows_deploy_option : String → String
get_windows_deploy_option = deploy_option "Single-AZ_2N"

abbrev pub get_ontap_deploy_option : String → String
get_ontap_deploy_option = deploy_option "Single-AZ_2N"

abbrev pub get_openzfs_deploy_option : String → String
get_openzfs_deploy_option = deploy_option "Single-AZ_2"

module _ {D : Type 0} ⦃d : Decimal D⦄ where
  -- the throughput of Lustre that the values leave open: the storage type is still `"SSD"`
  abbrev lustre_throughput : String → D
  lustre_throughput deployment_type =
      if deployment_type == "PERSISTENT_1" then d.of_int 50 else d.of_int 125

module _ {D F : Type 0} ⦃d : Decimal D⦄ ⦃f : Float F D⦄ where
  abbrev positive_or : F → D → D
  positive_or x default = if f.positive x then f.from_float x else default

  -- a file system of a kind other than Lustre
  abbrev new_file_system : String → (String → String) → Provider → FsxValues F → FsxFileSystem D
  new_file_system kind deploy_option_of p vals = record {
    provider = p;
    region = p.region;
    storage_capacity = positive_or vals.storage_capacity (d.of_int 32);
    storage_type = if not (vals.storage_type == "") then vals.storage_type else "SSD";
    throughput_capacity = f.from_float vals.throughput;
    automatic_backup_retention_days = positive_or vals.automatic_backup_retention_days d.blank;
    fsx_type = kind;
    deployment_option =
        if not (vals.deployment_type == "")
        then deploy_option_of vals.deployment_type
        else "Single-AZ";
    backup_storage = f.from_float vals.backup_storage_gb;
  }

  -- `newFSxWindowsFileSystem`, `newFSxOntapFileSystem` and `newFSxOpenzfsFileSystem`
  unfoldable pub new_fsx_windows_file_system : Provider → FsxValues F → FsxFileSystem D
  unfolding to_lower
  new_fsx_windows_file_system = new_file_system "Windows" get_windows_deploy_option

  unfoldable pub new_fsx_ontap_file_system : Provider → FsxValues F → FsxFileSystem D
  unfolding to_lower
  new_fsx_ontap_file_system = new_file_system "ONTAP" get_ontap_deploy_option

  unfoldable pub new_fsx_openzfs_file_system : Provider → FsxValues F → FsxFileSystem D
  unfolding to_lower
  new_fsx_openzfs_file_system = new_file_system "OpenZFS" get_openzfs_deploy_option

  -- `newFSxLustreFileSystem`
  unfoldable pub new_fsx_lustre_file_system : Provider → FsxValues F → FsxFileSystem D
  new_fsx_lustre_file_system p vals =
      let deployment_type =
        if not (vals.deployment_type == "") then vals.deployment_type else "PERSISTENT_1" in
      record {
        provider = p;
        region = p.region;
        storage_capacity = positive_or vals.storage_capacity (d.of_int 1200);
        storage_type = if not (vals.storage_type == "") then vals.storage_type else "SSD";
        throughput_capacity = positive_or vals.throughput (lustre_throughput deployment_type);
        automatic_backup_retention_days = positive_or vals.automatic_backup_retention_days d.blank;
        fsx_type = "Lustre";
        deployment_option = "Persistent";
        backup_storage = f.from_float vals.backup_storage_gb;
      }

module _ {D : Type 0} ⦃d : Decimal D⦄ (string : D → String) where
  -- `fsxFileSystemStorageCapacityCostComponent`
  unfoldable pub fsx_storage_capacity_component : FsxFileSystem D → ComponentQuery D
  fsx_storage_capacity_component v = record {
    name = v.fsx_type <> " Storage " <> v.storage_type;
    hourly_quantity = d.blank;
    monthly_quantity = v.storage_capacity;
    unit = "GB-Mo";
    details = "Storage" ∷ v.fsx_type ∷ [];
    usage = false;
    product_filter = product_of v.provider.key "AmazonFSx" "Storage" v.region (
        by_value "Deployment_option" v.deployment_option
        ∷ by_value "FileSystemType" v.fsx_type
        ∷ by_value "StorageType" v.storage_type
        ∷ (if v.fsx_type == "Lustre"
            then by_value "ThroughputCapacity" (string v.throughput_capacity) ∷ []
            else []));
    price_filter = none;
  }

-- the deployment option of a backup
abbrev pub backup_option : String → String → String
backup_option fsx_type deployment_option =
    if fsx_type == "ONTAP"
    then "N/A"
    else if fsx_type == "OpenZFS"
    then (if deployment_option == "Multi-AZ" then "Multi-AZ" else "N/A")
    else if fsx_type == "Windows"
    then (if deployment_option == "Multi-AZ" then "Multi-AZ" else "Single-AZ")
    else deployment_option

module _ {D : Type 0} ⦃d : Decimal D⦄ where
  -- `fsxFileSystemThroughputCapacityCostComponent`
  unfoldable pub fsx_throughput_capacity_component : FsxFileSystem D → ComponentQuery D
  fsx_throughput_capacity_component v = record {
    name = "Throughput capacity";
    hourly_quantity = d.blank;
    monthly_quantity = v.throughput_capacity;
    unit = "MiBps-Mo";
    details = "Throughput capacity" ∷ v.fsx_type ∷ [];
    usage = false;
    product_filter = product_of v.provider.key "AmazonFSx" "Provisioned Throughput" v.region (
        by_value "Deployment_option" v.deployment_option
        ∷ by_value "FileSystemType" v.fsx_type
        ∷ []);
    price_filter = none;
  }

  -- `fsxFileSystemBackupGBCostComponent`
  unfoldable pub fsx_backup_component : FsxFileSystem D → ComponentQuery D
  fsx_backup_component v = record {
    name = v.fsx_type <> " Backup storage";
    hourly_quantity = d.blank;
    monthly_quantity = v.storage_capacity;
    unit = "GB-Mo";
    details = "Storage" ∷ v.fsx_type ∷ [];
    usage = true;
    product_filter = product_of v.provider.key "AmazonFSx" "Storage" v.region (
        by_value "Deployment_option" (backup_option v.fsx_type v.deployment_option)
        ∷ by_value "FileSystemType" v.fsx_type
        ∷ by_regex "UsageType" ".*-BackupUsage"
        ∷ []);
    price_filter = none;
  }

module _ {D : Type 0} ⦃d : Decimal D⦄ (greater : D → D → Bool) (string : D → String) where
  -- `Components`
  unfoldable pub fsx_components : FsxFileSystem D → List (ComponentQuery D)
  unfolding fsx_storage_capacity_component fsx_throughput_capacity_component fsx_backup_component
  fsx_components v =
      fsx_storage_capacity_component string v
      ∷ ((if not (v.fsx_type == "Lustre") then fsx_throughput_capacity_component v ∷ [] else [])
          ++ (if greater v.automatic_backup_retention_days (d.of_int 0)
              then fsx_backup_component v ∷ []
              else []))
