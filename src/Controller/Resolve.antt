-- ===== src/Controller/Resolve.antt =====
-- src/internal/controller/backupreplication_controller.go: the configuration of the object store of a
-- BackupReplication, from the storage location, the policy and their secrets.
use airgap_snapshots.Base.{
  not, [], ◌∷◌, Option, none, some, if◌then◌else◌, errorf, wrapf, M, pure, fail, lift, with_context,
  ◌>>=◌,
}
use airgap_snapshots.Base.Dict.{Dict, lookup, get}
use airgap_snapshots.Base.Text.{Text, bytes, text_eq}
use airgap_snapshots.Api.Policy.{SecretKeyRef, ObjectStoreSpec, ReplicationPolicy}
use airgap_snapshots.Api.Replication.{BackupReplication}
use airgap_snapshots.Api.Velero.{ObjectStorageLocation, SecretKeySelector, BackupStorageLocation}
use airgap_snapshots.Objstore.{Config, empty_config}
use airgap_snapshots.Objstore.Credentials.{Credentials, parse_aws_credentials}
use airgap_snapshots.Controller.{Cluster}

-- `if c := bsl.Spec.Config; c != nil { … }`
unfoldable pub apply_settings : Option (Dict Text) → Config → Config
unfolding get text_eq
apply_settings none cfg = cfg
apply_settings (some c) cfg = record cfg {
  region = get (bytes "region") c;
  endpoint = get (bytes "s3Url") c;
  force_path_style = text_eq (get (bytes "s3ForcePathStyle") c) (bytes "true");
}

abbrev or_default : Text → Text → Text
or_default s default_value = if not (text_eq s []) then s else default_value

-- The overrides of the policy.
unfoldable pub apply_policy : ObjectStoreSpec → Config → Config
apply_policy os cfg = record cfg {
  endpoint = or_default os.endpoint cfg.endpoint;
  region = or_default os.region cfg.region;
  insecure_tls = os.insecure_skip_tls_verify;
}

-- The configuration before the credentials.
unfoldable pub base_config :
    ObjectStorageLocation → BackupStorageLocation → ReplicationPolicy → Config
unfolding apply_settings apply_policy
base_config os bsl policy = apply_policy policy.spec.object_store (
    apply_settings bsl.spec.settings
      (record empty_config { bucket = os.bucket; prefix = os.prefix }))

abbrev profile_of : Option (Dict Text) → Text
profile_of none = []
profile_of (some c) = get (bytes "profile") c

unfoldable pub with_credentials : Config → Credentials → Config
with_credentials cfg c = record cfg {
  access_key_id = c.access_key;
  secret_access_key = c.secret_key;
  session_token = c.session_token;
}

-- `if len(credBytes) > 0 { … }`
unfoldable pub apply_credentials : {W : Type 0} → BackupStorageLocation → Config → Text → M W Config
unfolding with_credentials parse_aws_credentials get
apply_credentials bsl cfg [] = pure cfg
apply_credentials bsl cfg (c ∷ body) =
    with_context (wrapf "BSL %q credentials: %w" (bsl.metadata.name ∷ []))
      (lift (parse_aws_credentials (c ∷ body) (profile_of bsl.spec.settings)))
    >>= λ creds. pure (with_credentials cfg creds)

module _ {W : Type 0} (cluster : Cluster W) where
  -- `getSecretKey`
  unfoldable pub get_secret_key : Text → Text → Text → M W Text
  unfolding lookup
  get_secret_key ns name key =
      with_context (wrapf "get secret %s/%s: %w" (ns ∷ name ∷ [])) (cluster.get_secret ns name)
      >>= λ data_map. elim (lookup key data_map) [
        | none ↦ fail (errorf "secret %s/%s missing key %q" (ns ∷ name ∷ key ∷ []))
        | some v ↦ pure v
      ]

  unfoldable pub location_credentials : Text → Option SecretKeySelector → M W Text
  unfolding get_secret_key
  location_credentials ns none = pure []
  location_credentials ns (some s) = get_secret_key ns s.name s.key

  -- `credBytes`: the reference of the policy wins over the one of the storage location.
  unfoldable pub credential_bytes : Text → Option SecretKeyRef → Option SecretKeySelector → M W Text
  unfolding get_secret_key location_credentials text_eq
  credential_bytes ns none credential = location_credentials ns credential
  credential_bytes ns (some r) credential =
      if not (text_eq r.name [])
      then get_secret_key (if text_eq r.namespace [] then ns else r.namespace) r.name r.key
      else location_credentials ns credential

  -- `resolveStore`
  unfoldable pub resolve_store : BackupReplication → ReplicationPolicy → M W Config
  unfolding base_config credential_bytes apply_credentials
  resolve_store br policy = do
    bsl ←
        with_context (wrapf "get BSL %q: %w" (br.spec.storage_location ∷ []))
          (cluster.get_location br.metadata.namespace br.spec.storage_location)
    elim bsl.spec.object_storage [
      | none ↦ fail (errorf "BSL %q has no objectStorage" (bsl.metadata.name ∷ []))
      | some os ↦
          credential_bytes br.metadata.namespace policy.spec.object_store.credentials_secret_ref
            bsl.spec.credential
          >>= apply_credentials bsl (base_config os bsl policy)
    ]
