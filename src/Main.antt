-- ===== src/Main.antt =====
-- src/cmd/main.go: the roles of the manager, and the options of the destination role from its flags.
pub mod Flags
pub mod Started
use airgap_snapshots.Base.{
  Bool, true, false, not, List, [], ◌∷◌, if◌then◌else◌, Result, ok, err, errorf, wrapf, M, pure,
  fail, lift, with_context, ◌>>=◌, ◌>>◌,
}
use airgap_snapshots.Base.Text.{Text, bytes, text_eq}
use airgap_snapshots.Base.Text.Search.{split}
use airgap_snapshots.Base.Text.Trim.{trim_space}
use airgap_snapshots.Base.{ℕ}
use airgap_snapshots.Objstore.{Config, empty_config}
use airgap_snapshots.Objstore.Credentials.{parse_aws_credentials}
use airgap_snapshots.Manifest.{collection}
use airgap_snapshots.Controller.Import.{ImportOptions}
use airgap_snapshots.Controller.Resolve.{with_credentials}

pub data Role : Type 0 where
  role_source role_destination : Role

-- The check of the flag `--role`; anything else ends the program.
unfoldable pub parse_role : Text → Result Role
unfolding text_eq
parse_role role =
    if text_eq role (bytes "source")
    then ok role_source
    else if text_eq role (bytes "destination")
    then ok role_destination
    else err (errorf "invalid role %q" (role ∷ []))

-- What a manager runs in its role.
pub data Runnable : Type 0 where
  backup_reconciler backup_replication_reconciler : Runnable
  backup_import_reconciler manifest_bridge : ImportOptions → Runnable

-- The loop of `splitCSV`.
unfoldable pub keep_parts : List Text → List Text
unfolding trim_space text_eq
keep_parts [] = []
keep_parts (p ∷ parts) =
    let rest = keep_parts parts in
    let trimmed = trim_space p in if not (text_eq trimmed []) then trimmed ∷ rest else rest

-- `splitCSV`
unfoldable pub split_csv : Text → List Text
unfolding split trim_space keep_parts text_eq
split_csv s = if text_eq (trim_space s) [] then [] else keep_parts (split s b',')

-- The flags of the destination role.
pub record DestinationFlags : Type 0 where
  pub peat_address : Text
  pub inbox_path : Text
  pub manifest_collection : Text
  pub poll_interval : ℕ
  pub endpoint : Text
  pub region : Text
  pub bucket : Text
  pub prefix : Text
  pub force_path_style : Bool
  pub insecure_tls : Bool
  pub creds_file : Text
  pub creds_profile : Text
  pub source_endpoint_id : Text
  pub source_addresses : Text
  pub source_relay_url : Text

-- `os.ReadFile` and `os.Getenv`
pub record System (W : Type 0) : Type 0 where
  pub read_file : Text → M W Text
  pub getenv : Text → M W Text

abbrev store_config : DestinationFlags → Config
store_config flags = record empty_config {
  endpoint = flags.endpoint;
  region = flags.region;
  bucket = flags.bucket;
  prefix = flags.prefix;
  force_path_style = flags.force_path_style;
  insecure_tls = flags.insecure_tls;
}

module _ {W : Type 0} (system : System W) where
  -- `if credsFile != "" { … }`
  unfoldable pub load_credentials : DestinationFlags → Config → M W Config
  unfolding parse_aws_credentials with_credentials text_eq
  load_credentials flags cfg =
      if text_eq flags.creds_file []
      then pure cfg
      else (with_context (wrapf "read dest credentials %q: %w" (flags.creds_file ∷ []))
            (system.read_file flags.creds_file)
          >>= λ body.
              with_context (wrapf "parse dest credentials: %w" [])
                (lift (parse_aws_credentials body flags.creds_profile))
              >>= λ creds. pure (with_credentials cfg creds))

  unfoldable pub options_of : DestinationFlags → Config → Text → ImportOptions
  unfolding split_csv text_eq
  options_of flags cfg namespace = record {
    peat_address = flags.peat_address;
    inbox_root = flags.inbox_path;
    manifest_collection = flags.manifest_collection;
    namespace = if text_eq namespace [] then bytes "snapback" else namespace;
    poll_interval = flags.poll_interval;
    dest_store = cfg;
    source_endpoint_id = flags.source_endpoint_id;
    source_addresses = split_csv flags.source_addresses;
    source_relay_url = flags.source_relay_url;
  }

  -- `buildImportOptions`
  unfoldable pub build_import_options : DestinationFlags → M W ImportOptions
  unfolding load_credentials options_of text_eq
  build_import_options flags =
      if text_eq flags.endpoint []
      then fail (errorf "--dest-endpoint is required for role=destination" [])
      else if text_eq flags.bucket []
      then fail (errorf "--dest-bucket is required for role=destination" [])
      else (load_credentials flags (store_config flags) >>= λ cfg.
          system.getenv (bytes "POD_NAMESPACE") >>= λ namespace.
          pure (options_of flags cfg namespace))

  -- `main`, the runnables of a role
  unfoldable pub runnables : DestinationFlags → Role → M W (List Runnable)
  unfolding build_import_options
  runnables flags role_source = pure (backup_reconciler ∷ backup_replication_reconciler ∷ [])
  runnables flags role_destination = build_import_options flags >>= λ opts.
      pure (backup_import_reconciler opts ∷ manifest_bridge opts ∷ [])

-- The flags of the program.
pub record CommandLine : Type 0 where
  pub metrics_addr : Text
  pub probe_addr : Text
  pub enable_leader_election : Bool
  pub role : Text
  pub destination : DestinationFlags

-- The flags with which the program runs where the command line says nothing.
abbrev pub default_flags : CommandLine
default_flags = record {
  metrics_addr = bytes ":8080";
  probe_addr = bytes ":8081";
  enable_leader_election = false;
  role = bytes "source";
  destination = record {
    peat_address = bytes "localhost:50051";
    inbox_path = bytes "/var/lib/peat/inbox";
    manifest_collection = collection;
    poll_interval = 30;
    endpoint = [];
    region = [];
    bucket = [];
    prefix = [];
    force_path_style = true;
    insecure_tls = false;
    creds_file = [];
    creds_profile = [];
    source_endpoint_id = [];
    source_addresses = [];
    source_relay_url = [];
  };
}

-- The manager of controller-runtime: `NewManager`, the registration of a controller or of a runnable,
-- the two checks, and `Start`.
pub record Manager (W : Type 0) : Type 0 where
  pub new_manager : Text → Text → Bool → Text → M W (Unit {0})
  pub register : Runnable → M W (Unit {0})
  pub add_healthz_check : M W (Unit {0})
  pub add_readyz_check : M W (Unit {0})
  pub start : M W (Unit {0})

module _ {W : Type 0} (system : System W) (manager : Manager W) where
  unfoldable pub register_all : List Runnable → M W (Unit {0})
  register_all [] = pure tt
  register_all (r ∷ rs) = manager.register r >>= λ _. register_all rs

  -- `main`, on the flags; an error is the exit with code 1.
  unfoldable pub run_main : CommandLine → M W (Unit {0})
  unfolding parse_role runnables register_all
  run_main flags = do
    role ← lift (parse_role flags.role)
    manager.new_manager flags.metrics_addr flags.probe_addr flags.enable_leader_election
        (bytes "snapback.uds.dev")
    rs ← runnables system flags.destination role
    register_all rs
    manager.add_healthz_check
    manager.add_readyz_check
    manager.start
