-- ===== src/Tests/Peat.antt =====
-- A sidecar that answers every poll with a completed distribution.
use airgap_snapshots.Base.{refl, List, [], ◌∷◌, none, ok, err, external}
use airgap_snapshots.Base.Dict.{Dict, lookup}
use airgap_snapshots.Base.Text.{Text, bytes, text_eq}
use airgap_snapshots.Peat.{Progress, completed}
use airgap_snapshots.Peat.Wire.{progress_of}
use airgap_snapshots.Peat.Connect.{Transport, Bundles, known, wait_bundle}
use airgap_snapshots.Peat.Connect.Wait.{IsSettled, wait_bundle-IsSettled}

-- The world is the record of bundles of one client.
abbrev Memory : Type 0
Memory = Dict (List Text)

abbrev memory : Bundles Memory
memory = record { read = λ w. w; write = λ d w. d }

abbrev transport : Transport Memory
transport = record {
  check_url = λ url. ok tt;
  post = λ url body w. (ok (record { status_code = 200; body = [] }), w);
  marshal = λ request. ok [];
  decode_error = λ text. ([], []);
  decode_node_status = λ text. err (external "unused");
  decode_sent = λ text. err (external "unused");
  decode_distribution = λ text. ok (record {
    status = bytes "DISTRIBUTION_STATUS_COMPLETED";
    bytes_transferred = bytes "5";
    bytes_total = bytes "5";
    error = [];
  });
  decode_document = λ text. ok none;
  decode_documents = λ text. ok [];
}

abbrev two_sent : Memory
two_sent = (bytes "b-0000", bytes "d1" ∷ bytes "d2" ∷ []) ∷ []

abbrev done : Text → Progress
done id = record {
  distribution_id = id;
  status = completed;
  bytes_transferred = 5;
  bytes_total = 5;
  message = [];
}

wait_bundle-IsSettled_example :
    IsSettled transport [] memory
      (known transport [] memory (bytes "b-0000") two_sent)
      (done (bytes "d1") ∷ done (bytes "d2") ∷ [])
unfolding wait_bundle known lookup text_eq progress_of
wait_bundle-IsSettled_example =
    wait_bundle-IsSettled transport [] memory 3 (bytes "b-0000") two_sent
      (done (bytes "d1") ∷ done (bytes "d2") ∷ []) refl
