-- ===== src/Peat/Connect.antt =====
-- src/internal/peat/connect.go: the client of the peat sidecar over the Connect protocol. The HTTP
-- transport and Go's encoding/json are arguments.
pub mod Wait
pub mod Settle
use airgap_snapshots.Base.{
  ℕ, zero, suc, ◌/◌, Bool, true, false, not, ◌&&◌, ◌||◌, ◌==◌, ltb, List, [], ◌∷◌, ◌++◌, Option,
  none, some, map, if◌then◌else◌, length, Failure, external, errorf, wrapf, Result, ok, err, M,
  pure, fail, lift, with_context, map_m, ◌>>=◌, ◌>>◌,
}
use airgap_snapshots.Base.Dict.{Dict, lookup, insert}
use airgap_snapshots.Base.Text.{Text, bytes, text_eq}
use airgap_snapshots.Base.Text.Search.{has_prefix}
use airgap_snapshots.Base.Text.Trim.{trim_right}
use airgap_snapshots.Base.Text.FilePath.{slash}
use airgap_snapshots.Base.Text.Encode.{decimal}
use airgap_snapshots.Peat.{
  Client, NodeStatus, SendResult, AttachmentHandle, Progress, FileSpec, Scope, Priority, terminal,
}
use airgap_snapshots.Peat.Wire.{
  JsonValue, json_string, json_object, with_field, no_fields, scope_json, send_request,
  peer_request, DistributionAnswer, progress_of,
}

-- An HTTP answer: the status code, and as much of the body as could be read.
pub record Response : Type 0 where
  pub status_code : ℕ
  pub body : Text

-- The package net/http, and the JSON codec at the types of the answers. `check_url` is the error of
-- `http.NewRequestWithContext`; `decode_error` gives the code and the message of an error envelope.
pub record Transport (W : Type 0) : Type 0 where
  pub check_url : Text → Result (Unit {0})
  pub post : Text → Text → M W Response
  pub marshal : JsonValue → Result Text
  pub decode_error : Text → Text × Text
  pub decode_node_status : Text → Result NodeStatus
  pub decode_sent : Text → Result SendResult
  pub decode_distribution : Text → Result DistributionAnswer
  pub decode_document : Text → Result (Option Text)
  pub decode_documents : Text → Result (List Text)

-- The field `bundles` of one client, in the world.
pub record Bundles (W : Type 0) : Type 0 where
  pub read : W → Dict (List Text)
  pub write : Dict (List Text) → W → W

-- `New`, the address
unfoldable pub base_url : Text → Text
unfolding has_prefix trim_right
base_url address =
    trim_right
      (if not (has_prefix address (bytes "http://")) && not (has_prefix address (bytes "https://"))
        then bytes "http://" ++ address
        else address)
      slash

-- The error of an answer that is not 2xx.
unfoldable pub answer_error : Text → Response → Text × Text → Failure
unfolding text_eq decimal
answer_error method response (code, message) =
    if not (text_eq code []) || not (text_eq message [])
    then errorf "peat: %s: %s: %s" (method ∷ code ∷ message ∷ [])
    else errorf "peat: %s: http %d: %s" (method ∷ decimal response.status_code ∷ response.body ∷ [])

module _ {W : Type 0} (transport : Transport W) (url : Text) where
  -- `call`, up to the body of the answer
  unfoldable pub call : Text → JsonValue → M W Text
  unfolding answer_error
  call method request = do
    body ←
        with_context (wrapf "peat: marshal %s: %w" (method ∷ [])) (lift (transport.marshal request))
    let target = url ++ bytes "/peat.sidecar.v1.PeatSidecar/" ++ method
    lift (transport.check_url target)
    response ← with_context (wrapf "peat: %s: %w" (method ∷ [])) (transport.post target body)
    if not (response.status_code / 100 == 2)
        then fail (answer_error method response (transport.decode_error response.body))
        else pure response.body

  -- `call`, with an answer that is decoded
  unfoldable pub call_for : {A : Type 0} → Text → (Text → Result A) → JsonValue → M W A
  unfolding call
  call_for method decode request = call method request >>= λ body.
      with_context (wrapf "peat: unmarshal %s: %w" (method ∷ [])) (lift (decode body))

  -- `call`, with an answer that is dropped
  unfoldable pub call_only : Text → JsonValue → M W (Unit {0})
  unfolding call
  call_only method request = call method request >>= λ _. pure tt

  -- `GetDistribution`
  unfoldable pub get_distribution : Text → M W Progress
  unfolding call_for progress_of
  get_distribution id =
      call_for (bytes "GetAttachmentDistribution") transport.decode_distribution
        (json_object (with_field "distributionId" (json_string id) no_fields))
      >>= λ r. pure (progress_of id r)

  module _ (bundles : Bundles W) where
    -- `c.bundles[r.BundleID] = dists`
    unfoldable pub remember : SendResult → M W (Unit {0})
    unfolding insert
    remember r w = (
      ok tt,
      bundles.write
          (insert r.bundle_id (map (λ (h : AttachmentHandle). h.distribution_id) r.handles)
            (bundles.read w))
          w,
    )

    -- `SendAttachments`
    unfoldable pub send_attachments : Text → List FileSpec → Scope → Priority → M W SendResult
    unfolding scope_json send_request call_for remember
    send_attachments bundle_id files scope p = do
      scope_value ← lift (scope_json scope)
      r ←
          call_for (bytes "SendAttachments") transport.decode_sent
            (send_request bundle_id files p scope_value)
      remember r
      pure r

    -- The distributions that this client knows of a bundle.
    unfoldable pub known : Text → W → List Text
    unfolding lookup
    known bundle_id w = elim (lookup bundle_id (bundles.read w)) [ none ↦ [] | some ids ↦ ids ]

    unfoldable pub all_terminal : List Progress → Bool
    unfolding terminal
    all_terminal [] = true
    all_terminal (p ∷ progs) = terminal p.status && all_terminal progs

    -- The polls of `WaitBundle`. The first argument is how many ticks come before the context ends.
    unfoldable pub wait_rounds : ℕ → List Text → M W (List Progress)
    unfolding get_distribution all_terminal
    wait_rounds zero ids = map_m get_distribution ids >>= λ progs.
        if all_terminal progs then pure progs else fail (external "context canceled")
    wait_rounds (suc ticks) ids = map_m get_distribution ids >>= λ progs.
        if all_terminal progs then pure progs else wait_rounds ticks ids

    -- `WaitBundle` on the distributions of the bundle
    unfoldable pub wait_known : ℕ → Text → List Text → M W (List Progress)
    unfolding wait_rounds
    wait_known ticks bundle_id [] = fail (
        errorf "peat: no known distributions for bundle %q (re-send to repopulate)"
          (bundle_id ∷ []))
    wait_known ticks bundle_id (id ∷ ids) = wait_rounds ticks (id ∷ ids)

    -- `WaitBundle`
    unfoldable pub wait_bundle : ℕ → Text → M W (List Progress)
    unfolding known wait_known
    wait_bundle ticks bundle_id w = wait_known ticks bundle_id (known bundle_id w) w

    -- The methods of the client, with the ticks that come before the context ends.
    abbrev pub connect_client : ℕ → Client W
    connect_client ticks = record {
      node_status =
          call_for (bytes "GetStatus") transport.decode_node_status (json_object no_fields);
      ensure_peer = λ endpoint_id addresses relay_url.
          call_only (bytes "ConnectPeer") (peer_request endpoint_id addresses relay_url);
      send_attachments = send_attachments;
      get_distribution = get_distribution;
      wait_bundle = wait_bundle ticks;
      put_document = λ collection id text. call_only (bytes "PutDocument") (
          json_object (
            with_field "collection" (json_string collection) (
              with_field "docId" (json_string id)
                (with_field "jsonData" (json_string text) no_fields))));
      get_document = λ collection id. call_for (bytes "GetDocument") transport.decode_document (
          json_object (
            with_field "collection" (json_string collection)
              (with_field "docId" (json_string id) no_fields)));
      list_documents = λ collection.
          call_for (bytes "ListDocuments") transport.decode_documents
            (json_object (with_field "collection" (json_string collection) no_fields));
    }

module _ {W : Type 0} (transport : Transport W) (bundles : Bundles W) where
  -- `New`: a client that knows of no bundle
  unfoldable pub new_client : ℕ → Text → M W (Client W)
  unfolding base_url
  new_client ticks address w =
      (ok (connect_client transport (base_url address) bundles ticks), bundles.write [] w)
