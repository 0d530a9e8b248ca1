-- ===== src/Lib.antt =====
-- Snapback replicates Velero backups across an air gap. On the source, the backup controller makes
-- a BackupReplication for each completed backup that a policy matches; its reconciler lists the
-- objects of the backup, stages them into the outbox of a peat sidecar, packs them into bundles,
-- sends those and, once all are completed, publishes a manifest document and records the keys in a
-- ledger. On the destination, a bridge polls the manifests and makes a BackupImport for each; its
-- reconciler verifies the files that have landed in the inbox and puts them into the destination
-- store, the object by which Velero discovers the backup last.
--
-- How the files correspond to the code:
--   Api         src/api/v1alpha1, src/api/velero/v1: the Kubernetes objects, fields in snake case
--   Peat        src/internal/peat: client.go (types and the interface Client), Peat/Wire and
--               Peat/Connect for connect.go (requests, `call`, the map of bundles, `WaitBundle`)
--   Batching    src/internal/batching/batching.go: `Pack`; its closure `flush` and one round of its
--               loop are functions on the record Packing of its variables
--   Objstore    src/internal/objstore: objstore.go (the interface Store), Objstore/Credentials for
--               creds.go, Objstore/Keys, Objstore/Endpoint, Objstore/Minio and Objstore/Minio/Open
--               (`New`) for minio.go
--   Manifest    src/internal/manifest/manifest.go
--   Staging     src/internal/staging/outbox.go
--   Importer    src/internal/importer/importer.go: `importOne` in Importer, and in Importer/Pass
--               `Import`, which is import_files; its first loop is data_phase, its second
--               commit_phase; the pointer to the index is an optional index that is passed along
--   Controller  src/internal/controller: Controller/Matching for backup_controller.go,
--               Controller/Replication (its children Send, Publish and Reconcile) with
--               Controller/Report, Resolve, Ledger and Bundles for backupreplication_controller.go,
--               Controller/Import and Controller/Bridge for backupimport_controller.go; the proofs
--               on whole passes are in Controller/Replication/Reconciled,
--               Controller/Import/Reconciled and Controller/Bridge/Start, and what the source and
--               the destination do together is in Controller/Handover. A long function is a chain
--               of functions, each for the rest of the body from one point on
--   Main        src/cmd/main.go: `main` from the parsed flags on, the options of the destination
--               role, `splitCSV`
--   Base        helpers, and the functions of Go's standard library that the code calls
--   Tests       runs on concrete inputs, and the theorems applied there
--
-- Effects are functions W → Result A × W on an unknown world W (Base/Effects); a Go pair of a value
-- and an error is a Result, and what was done before an error stays done. Code outside the
-- repository is an argument: the Kubernetes client and clock (Cluster), the manager of
-- controller-runtime (Manager), minio-go (MinioLibrary, Bucket), the HTTP transport, JSON codecs,
-- SHA-256, the file system (Disk, Inbox, System). What the theorems on the importer assume of the
-- store and of the inbox is in Importer/Laws: an upload is atomic, and a file is not written to
-- while it is read. That peat answers the files of a request in order, as the code's comment says,
-- is the hypothesis AnswersInOrder.
--
-- Bounds: sizes are uint64 or int64 with their wrap-around. `WaitBundle` polls until the context
-- ends; the number of ticks before that is its argument, so no result depends on a chosen fuel. The
-- bridge polls once for each change in a list, which is what others do to the world before a tick.
-- The digits of a decimal number n have n + 1 as fuel, which is more than their number.
--
-- Not modelled: log lines, Close methods (no-ops), generated deep copies, scheme registration, the
-- parsing of the command line and the set-up of the logger. Go strings are lists of bytes, and
-- white space is that of ASCII. The order of the fields in a request is that of their assignments.
-- A deletion timestamp that is set counts as not zero.
pub mod Base
pub mod Api
pub mod Peat
pub mod Batching
pub mod Objstore
pub mod Manifest
pub mod Staging
pub mod Importer
pub mod Controller
pub mod Main
pub mod Tests
