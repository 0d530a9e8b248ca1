-- ===== src/Controller/Replication/Send.antt =====
-- src/internal/controller/backupreplication_controller.go: the loop over the bundles.
use Prim.Native.String.{String}
use airgap_snapshots.Base.{
  ℕ, suc, ◌≡◌, refl, sym, ap, ◌∙◌, ◌⊎◌, inl, inr, Bool, true, false, not, List, [], ◌∷◌, ◌++◌,
  append_assoc, append-nil, map, All, All-append, if◌then◌else◌, Failure, Result, ok, err, M,
  recover,
}
use airgap_snapshots.Base.Integer.{ℤ}
use airgap_snapshots.Base.Text.{Text}
use airgap_snapshots.Api.Meta.{ReconcileResult}
use airgap_snapshots.Api.Policy.{ReplicationPolicy}
use airgap_snapshots.Api.Replication.{BackupReplication}
use airgap_snapshots.Batching.{Batch, pack}
use airgap_snapshots.Batching.Order.{batch_files, batch_files-pack}
use airgap_snapshots.Manifest.{FileEntry, Manifest, Json}
use airgap_snapshots.Objstore.{Config, Store}
use airgap_snapshots.Peat.{
  FileSpec, AttachmentHandle, Scope, Priority, SendResult, Progress, Client,
}
use airgap_snapshots.Staging.{Disk}
use airgap_snapshots.Controller.{Cluster, Services}
use airgap_snapshots.Controller.Report.{transient_err}
use airgap_snapshots.Controller.Ledger.{Ledger}
use airgap_snapshots.Controller.Bundles.{bundle_name, map_priority, entries_of, status_of, is_done}
use airgap_snapshots.Controller.Bundles.Entries.{InOrder, zip_entries, indices, entries_of-InOrder}
use airgap_snapshots.Controller.Replication.{
  Sent, nothing_sent, add_bundle, all_nodes, finish, send_loop,
}

abbrev pub entry_keys : List FileEntry → List Text
entry_keys = map (λ (e : FileEntry). e.key)

abbrev pub paths : List FileSpec → List Text
paths = map (λ (f : FileSpec). f.relative_path)

map-append_keys : (xs ys : List FileEntry) → entry_keys (xs ++ ys) ≡ entry_keys xs ++ entry_keys ys
map-append_keys [] ys = refl
map-append_keys (x ∷ xs) ys = ap (◌∷◌ x.key) (map-append_keys xs ys)

map-append_paths : (xs ys : List FileSpec) → paths (xs ++ ys) ≡ paths xs ++ paths ys
map-append_paths [] ys = refl
map-append_paths (x ∷ xs) ys = ap (◌∷◌ x.relative_path) (map-append_paths xs ys)

zip_entries-keys :
    (i : ℕ) (files : List FileSpec) (handles : List AttachmentHandle)
    → map (λ (h : AttachmentHandle). h.file_index) handles ≡ indices i files
    → entry_keys (zip_entries files handles) ≡ paths files
zip_entries-keys i [] handles h = refl
zip_entries-keys i (f ∷ files) [] h = cc h
zip_entries-keys i (f ∷ files) (x ∷ handles) h =
    ap (◌∷◌ f.relative_path) (zip_entries-keys (suc i) files handles (cc h))

-- From `sent` to `sent'` over these bundles: the manifest has gained one entry for each of their
-- files, in order, and if all is done then it was before, and each new bundle is completed.
pub record Shipped (batches : List Batch) (sent sent' : Sent) : Type 0 where
  pub keys : entry_keys sent'.entries ≡ entry_keys sent.entries ++ paths (batch_files batches)
  pub was_done : sent'.all_done ≡ true → sent.all_done ≡ true
  pub completed :
      sent'.all_done ≡ true
      → All (λ bs. is_done bs ≡ true) sent.statuses
      → All (λ bs. is_done bs ≡ true) sent'.statuses

still_done : (b d : Bool) → (if not b then false else d) ≡ true → (b ≡ true) × (d ≡ true)
still_done true d h = (refl, h)
still_done false d h = cc h

add_bundle-Shipped :
    (name : Text) (b : Batch) (res : SendResult) (progs : List Progress) (sent : Sent)
    → InOrder b.files res.handles
    → Shipped (b ∷ []) sent (add_bundle name b res progs sent)
unfolding add_bundle
add_bundle-Shipped name b res progs sent h = record {
  keys =
      map-append_keys sent.entries (entries_of b.files res.handles)
      ∙ ap (λ ks. entry_keys sent.entries ++ ks)
          (ap entry_keys (entries_of-InOrder b.files res.handles h)
            ∙ zip_entries-keys 0 b.files res.handles h
            ∙ ap paths (sym (append-nil b.files)));
  was_done = λ d. (still_done (is_done (status_of name b progs)) sent.all_done d).1;
  completed = λ d a.
      All-append (λ bs. is_done bs ≡ true) sent.statuses (status_of name b progs ∷ []) a
        ((still_done (is_done (status_of name b progs)) sent.all_done d).0, tt);
}

Shipped-trans :
    (b : Batch) (batches : List Batch) (s t u : Sent)
    → Shipped (b ∷ []) s t
    → Shipped batches t u
    → Shipped (b ∷ batches) s u
Shipped-trans b batches s t u x y = record {
  keys =
      y.keys
      ∙ ap (λ ks. ks ++ paths (batch_files batches)) x.keys
      ∙ append_assoc (entry_keys s.entries) (paths (b.files ++ [])) (paths (batch_files batches))
      ∙ ap (λ ks. entry_keys s.entries ++ ks)
          (ap (λ fs. paths fs ++ paths (batch_files batches)) (append-nil b.files)
            ∙ sym (map-append_paths b.files (batch_files batches)));
  was_done = λ d. x.was_done (y.was_done d);
  completed = λ d a. y.completed d (x.completed (y.was_done d) a);
}

module _ {W : Type 0} (cluster : Cluster W) (services : Services W) (sha256 : Text → Text)
    (disk : Disk W) (manifest_json : Json Manifest) (ledger_json : Json Ledger) where
  module _ (store : Store W) (pc : Client W) (cfg : Config) (keys : List Text) (total : ℕ)
      (policy : ReplicationPolicy) (br : BackupReplication) where
    -- How the loop ends: it reports an error, or goes on to `finish` with what it has gathered.
    pub data Ends (batches : List Batch) (sent : Sent) (r : Result ReconcileResult × W)
        : Type 0 where
      reported :
          (reason : String) (e : Failure) (w : W)
          → r ≡ transient_err cluster br reason e w
          → Ends batches sent r
      finished :
          (sent' : Sent) (w : W)
          → Shipped batches sent sent'
          → r
            ≡ finish cluster services sha256 disk manifest_json ledger_json store pc cfg keys total
                br sent' w
          → Ends batches sent r

    -- Peat answers the files of a request one by one, in order.
    abbrev pub AnswersInOrder : Type 0
    AnswersInOrder =
        (name : Text) (files : List FileSpec) (scope : Scope) (p : Priority) (w : W)
        (res : SendResult)
        → (pc.send_attachments name files scope p w).0 ≡ ok res
        → InOrder files res.handles

    Ends-cons :
        (b : Batch) (batches : List Batch) (sent t : Sent) (r : Result ReconcileResult × W)
        → Shipped (b ∷ []) sent t
        → Ends batches t r
        → Ends (b ∷ batches) sent r
    Ends-cons b batches sent t r x (reported reason e w h) = reported reason e w h
    Ends-cons b batches sent t r x (finished sent' w y h) =
        finished sent' w (Shipped-trans b batches sent t sent' x y) h

    abbrev pub loop : ℕ → List Batch → Sent → M W ReconcileResult
    loop =
        send_loop cluster services sha256 disk manifest_json ledger_json store pc cfg keys total
          policy br

    after_wait :
        (i : ℕ) (b : Batch) (batches : List Batch) (sent : Sent) (res : SendResult)
        (answer : Result (List Progress)) (w w' : W)
        → (pc.wait_bundle (bundle_name br.metadata.name i) w) ≡ (answer, w')
        → InOrder b.files res.handles
        → ((t : Sent) (v : W) → Ends batches t (loop (suc i) batches t v))
        → Ends (b ∷ batches) sent (
            recover
              (transient_err cluster br "WaitFailed")
              (pc.wait_bundle (bundle_name br.metadata.name i))
              (λ progs.
                loop (suc i) batches (add_bundle (bundle_name br.metadata.name i) b res progs sent))
              w)
    after_wait i b batches sent res (err e) w w' h o ih = rw h (reported "WaitFailed" e w' refl)
    after_wait i b batches sent res (ok progs) w w' h o ih =
        let name = bundle_name br.metadata.name i in
        let t = add_bundle name b res progs sent in
        rw h (
          Ends-cons b batches sent t (loop (suc i) batches t w')
            (add_bundle-Shipped name b res progs sent o) (ih t w'))

    after_send :
        (i : ℕ) (b : Batch) (batches : List Batch) (sent : Sent) (answer : Result SendResult)
        (w w' : W)
        → pc.send_attachments
            (bundle_name br.metadata.name i)
            b.files
            all_nodes
            (map_priority policy.spec.priority)
            w
          ≡ (answer, w')
        → AnswersInOrder
        → ((t : Sent) (v : W) → Ends batches t (loop (suc i) batches t v))
        → Ends (b ∷ batches) sent (loop i (b ∷ batches) sent w)
    unfolding send_loop
    after_send i b batches sent (err e) w w' h o ih = rw h (reported "SendFailed" e w' refl)
    after_send i b batches sent (ok res) w w' h o ih = rw h (
        after_wait i b batches sent res (pc.wait_bundle (bundle_name br.metadata.name i) w').0 w'
          (pc.wait_bundle (bundle_name br.metadata.name i) w').1 refl
          (o (bundle_name br.metadata.name i) b.files all_nodes (map_priority policy.spec.priority)
            w res (ap (λ (r : Result SendResult × W). r.0) h))
          ih)

    send_loop-Ends :
        AnswersInOrder
        → (i : ℕ) (batches : List Batch) (sent : Sent) (w : W)
        → Ends batches sent (loop i batches sent w)
    unfolding send_loop
    send_loop-Ends o i [] sent w =
        finished sent w
          (record {
            keys = sym (append-nil (entry_keys sent.entries));
            was_done = λ d. d;
            completed = λ d a. a;
          })
          refl
    send_loop-Ends o i (b ∷ batches) sent w =
        let sending =
          pc.send_attachments (bundle_name br.metadata.name i) b.files all_nodes
            (map_priority policy.spec.priority) w in
        after_send i b batches sent sending.0 w sending.1 refl o
          (λ t v. send_loop-Ends o (suc i) batches t v)

    -- Either an error of peat is reported, or `finish` gets one entry for each of the files, in
    -- order, and is told that all is done only if every bundle is completed.
    abbrev pub Through : List FileSpec → Result ReconcileResult × W → Type 0
    Through specs r =
        ((reason : String) × (e : Failure) × (v : W) × (r ≡ transient_err cluster br reason e v))
        ⊎ ((sent : Sent) × (v : W) × (entry_keys sent.entries ≡ paths specs)
            × (sent.all_done ≡ true → All (λ bs. is_done bs ≡ true) sent.statuses)
            × (r
                ≡ finish cluster services sha256 disk manifest_json ledger_json store pc cfg keys
                    total br sent v))

    -- On the bundles that the staged files were packed into, and if peat answers the files of each
    -- request in order, the loop either reports an error of peat, or ends with one manifest entry
    -- for each staged file, keyed by its path, in the order of staging; and it counts all as done
    -- only if every bundle is completed.
    pub send_loop-packed :
        AnswersInOrder
        → (specs : List FileSpec) (max_files : ℤ) (max_bytes : ℕ) (w : W)
        → Through specs (loop 0 (pack specs max_files max_bytes) nothing_sent w)
    send_loop-packed o specs max_files max_bytes w =
        elim (send_loop-Ends o 0 (pack specs max_files max_bytes) nothing_sent w) [
          | reported reason e v h ↦ inl (reason, e, v, h)
          | finished sent v x h ↦ inr (
            sent,
            v,
            x.keys ∙ ap paths (batch_files-pack specs max_files max_bytes),
            (λ d. x.completed d tt),
            h,
          )
        ]
