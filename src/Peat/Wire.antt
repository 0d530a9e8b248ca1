-- ===== src/Peat/Wire.antt =====
-- src/internal/peat/connect.go: the messages of the Connect protocol, and what they are made of.
use Prim.Native.String.{String}
use airgap_snapshots.Base.{ltb, List, [], ◌∷◌, if◌then◌else◌, length, Result, ok, err, errorf}
use airgap_snapshots.Base.Text.{Text, bytes, text_eq}
use airgap_snapshots.Base.Text.Encode.{decimal, base64, parse_uint}
use airgap_snapshots.Peat.{
  Priority, bulk, low, routine, priority, critical, DistributionStatus, pending, in_progress,
  completed, failed, cancelled, FileSpec, Scope, Progress,
}

-- The values that the requests are made of, a `map[string]any` in the order of its assignments.
mutual
  pub data JsonValue : Type 0 where
    json_string : Text → JsonValue
    json_array : JsonValues → JsonValue
    json_object : JsonFields → JsonValue

  pub data JsonValues : Type 0 where
    no_values : JsonValues
    one_more : JsonValue → JsonValues → JsonValues

  pub data JsonFields : Type 0 where
    no_fields : JsonFields
    with_field : String → JsonValue → JsonFields → JsonFields

unfoldable pub strings : List Text → JsonValues
strings [] = no_values
strings (s ∷ texts) = one_more (json_string s) (strings texts)

-- `m[name] = s`, if the text is not empty.
unfoldable pub with_text : String → Text → JsonFields → JsonFields
unfolding text_eq
with_text name s fields = if text_eq s [] then fields else with_field name (json_string s) fields

-- `protoPriority`
unfoldable pub proto_priority : Priority → Text
proto_priority low = bytes "ATTACHMENT_PRIORITY_LOW"
proto_priority routine = bytes "ATTACHMENT_PRIORITY_ROUTINE"
proto_priority priority = bytes "ATTACHMENT_PRIORITY_PRIORITY"
proto_priority critical = bytes "ATTACHMENT_PRIORITY_CRITICAL"
proto_priority bulk = bytes "ATTACHMENT_PRIORITY_BULK"

-- `fromProtoStatus`
unfoldable pub from_proto_status : Text → DistributionStatus
unfolding text_eq
from_proto_status s =
    if text_eq s (bytes "DISTRIBUTION_STATUS_IN_PROGRESS")
    then in_progress
    else if text_eq s (bytes "DISTRIBUTION_STATUS_COMPLETED")
    then completed
    else if text_eq s (bytes "DISTRIBUTION_STATUS_FAILED")
    then failed
    else if text_eq s (bytes "DISTRIBUTION_STATUS_CANCELLED")
    then cancelled
    else pending

-- `scopeJSON`
unfoldable pub scope_json : Scope → Result JsonValue
scope_json scope =
    if scope.all_nodes
    then ok (json_object (with_field "allNodes" (json_object no_fields) no_fields))
    else if ltb 0 (length scope.node_ids)
    then ok (
        json_object (
          with_field "nodeList"
            (json_object (with_field "nodeIds" (json_array (strings scope.node_ids)) no_fields))
            no_fields))
    else err (errorf "peat: SendAttachments requires a scope (AllNodes or NodeIDs)" [])

unfoldable pub file_json : FileSpec → JsonValue
unfolding with_text decimal base64
file_json f = json_object (
    with_field "rootName" (json_string f.root_name) (
      with_field "relativePath" (json_string f.relative_path) (
        with_field "sizeBytes" (json_string (decimal f.size)) (
          with_field "sha256" (json_string (base64 f.sha256)) (
            with_text "contentType" f.content_type
              (with_text "displayName" f.display_name no_fields))))))

unfoldable pub files_json : List FileSpec → JsonValues
unfolding file_json
files_json [] = no_values
files_json (f ∷ files) = one_more (file_json f) (files_json files)

-- The request of `SendAttachments`, for a scope.
unfoldable pub send_request : Text → List FileSpec → Priority → JsonValue → JsonValue
unfolding files_json proto_priority with_text
send_request bundle_id files p scope = json_object (
    with_field "files" (json_array (files_json files)) (
      with_field "scope" scope (
        with_field "priority" (json_string (proto_priority p))
          (with_text "bundleId" bundle_id no_fields))))

-- The request of `EnsurePeer`.
unfoldable pub peer_request : Text → List Text → Text → JsonValue
unfolding strings with_text
peer_request endpoint_id addresses relay_url = json_object (
    with_field "endpointId" (json_string endpoint_id) (
      let rest = with_text "relayUrl" relay_url no_fields in
      if ltb 0 (length addresses)
      then with_field "addresses" (json_array (strings addresses)) rest
      else rest))

-- The answer to `GetAttachmentDistribution`.
pub record DistributionAnswer : Type 0 where
  pub status : Text
  pub bytes_transferred : Text
  pub bytes_total : Text
  pub error : Text

-- The progress of a distribution; `parseU64` drops the error of the parser.
unfoldable pub progress_of : Text → DistributionAnswer → Progress
unfolding from_proto_status parse_uint
progress_of distribution_id r = record {
  distribution_id = distribution_id;
  status = from_proto_status r.status;
  bytes_transferred = parse_uint r.bytes_transferred;
  bytes_total = parse_uint r.bytes_total;
  message = r.error;
}
