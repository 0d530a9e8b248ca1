-- ===== src/Manifest/Names.antt =====
-- src/internal/manifest/manifest.go: the document ids of `DocID`.
use airgap_snapshots.Base.{ℕ, ◌≡◌, [], ◌∷◌, ◌++◌, arith}
use airgap_snapshots.Base.Text.{Text}
use airgap_snapshots.Base.Text.Search.{Lacks}
use airgap_snapshots.Base.Text.FilePath.{slash}
use airgap_snapshots.Manifest.{doc_id}

-- Two texts that lack the separator, each followed by it, end at the same place.
pub cut_unique :
    (sep : ℕ) (a b x y : Text)
    → Lacks sep a
    → Lacks sep b
    → a ++ sep ∷ x ≡ b ++ sep ∷ y
    → (a ≡ b) × (x ≡ y)
cut_unique sep [] [] x y h k e = ground arith
cut_unique sep [] (d ∷ b) x y h k e = ground arith
cut_unique sep (c ∷ a) [] x y h k e = ground arith
cut_unique sep (c ∷ a) (d ∷ b) x y h k e = ground (arith, cut_unique sep a b x y)

-- Storage locations without a slash, as Kubernetes names are, keep the ids of different backups
-- apart: the document id determines the storage location and the backup.
pub doc_id_injective :
    (s s' b b' : Text)
    → Lacks slash s
    → Lacks slash s'
    → doc_id s b ≡ doc_id s' b'
    → (s ≡ s') × (b ≡ b')
unfolding doc_id
doc_id_injective s s' b b' h k e = cut_unique slash s s' b b' h k e
