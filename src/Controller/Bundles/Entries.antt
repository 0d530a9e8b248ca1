-- ===== src/Controller/Bundles/Entries.antt =====
-- src/internal/controller/backupreplication_controller.go: the manifest entries of a bundle.
use airgap_snapshots.Base.{
  ℕ, suc, ◌≡◌, refl, sym, ap, ◌∙◌, append_assoc, length-append, some, List, [], ◌∷◌, ◌++◌, map,
  arith, length, get_elem?,
}
use airgap_snapshots.Peat.{FileSpec, AttachmentHandle}
use airgap_snapshots.Manifest.{FileEntry}
use airgap_snapshots.Controller.Bundles.{entry_of, add_entry, entries_of}

-- `i`, `i + 1`, …, as many as there are files.
abbrev pub indices : ℕ → List FileSpec → List ℕ
indices i [] = []
indices i (f ∷ files) = i ∷ indices (suc i) files

-- The handles answer the files one by one, in the order of the request.
abbrev pub InOrder : List FileSpec → List AttachmentHandle → Type 0
InOrder files handles = map (λ (h : AttachmentHandle). h.file_index) handles ≡ indices 0 files

abbrev pub zip_entries : List FileSpec → List AttachmentHandle → List FileEntry
zip_entries [] handles = []
zip_entries (f ∷ files) [] = []
zip_entries (f ∷ files) (h ∷ handles) = entry_of f h ∷ zip_entries files handles

get_elem?-length :
    (before : List FileSpec) (f : FileSpec) (rest : List FileSpec)
    → get_elem? (before ++ f ∷ rest) (length before) ≡ some f
get_elem?-length [] f rest = refl
get_elem?-length (x ∷ before) f rest = get_elem?-length before f rest

entries_of-suffix :
    (all before files : List FileSpec) (handles : List AttachmentHandle)
    → all ≡ before ++ files
    → map (λ (h : AttachmentHandle). h.file_index) handles ≡ indices (length before) files
    → entries_of all handles ≡ zip_entries files handles
unfolding entries_of add_entry
entries_of-suffix all before [] [] e h = refl
entries_of-suffix all before [] (x ∷ handles) e h = cc h
entries_of-suffix all before (f ∷ files) [] e h = cc h
entries_of-suffix all before (f ∷ files) (x ∷ handles) e h =
    let i : x.file_index ≡ length before = cc h in
    let rest : map (λ (h : AttachmentHandle). h.file_index) handles
        ≡ indices (suc (length before)) files =
      cc h in
    let here : get_elem? all x.file_index ≡ some f = rw (e, i) (get_elem?-length before f files) in
    let there =
      entries_of-suffix all (before ++ f ∷ []) files handles
        (e ∙ sym (append_assoc before (f ∷ []) files))
        (rest ∙ ap (λ i. indices i files) (next before f)) in
    rw (here, there) refl
  where
    next : (before : List FileSpec) (f : FileSpec) → suc (length before) ≡ length (before ++ f ∷ [])
    next before f = omega (arith, length-append before (f ∷ []))

pub entries_of-InOrder :
    (files : List FileSpec) (handles : List AttachmentHandle)
    → InOrder files handles
    → entries_of files handles ≡ zip_entries files handles
entries_of-InOrder files handles h = entries_of-suffix files [] files handles refl h
