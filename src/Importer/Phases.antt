-- ===== src/Importer/Phases.antt =====
-- src/internal/importer/importer.go: the two loops of `Import`.
use mathlib.Core.Path.{subst}
use mathlib.Core.List.{Memᴰ}
use airgap_snapshots.Base.{
  ◌≡◌, refl, sym, inl, inr, Bool, true, false, List, [], ◌∷◌, Bool-cases, M, pure, if◌then◌else◌,
  Option,
}
use airgap_snapshots.Base.Keeps.{bind-pure-world}
use airgap_snapshots.Base.Text.{Text}
use airgap_snapshots.Objstore.{Store}
use airgap_snapshots.Manifest.{FileEntry}
use airgap_snapshots.Importer.{Inbox, Index, Imported, Summary, is_discovery, import_one}
use airgap_snapshots.Importer.Pass.{Pass, count_one, data_step, data_phase, commit_phase}
use airgap_snapshots.Importer.Counts.{}
use airgap_snapshots.Importer.Laws.{Observed, InboxLaws, StoreLaws}
use airgap_snapshots.Importer.Effect.{Outcome, import_one-Outcome}
use airgap_snapshots.Importer.Change.{Change, Change-refl, Change-imp, Effect-Change, bind-Change}

-- The entries of the first loop.
abbrev pub IsData : List FileEntry → FileEntry → Type 0
IsData files e = Memᴰ e files × (is_discovery e ≡ false)

IsData-tail :
    (e₀ : FileEntry) (files : List FileEntry) (e : FileEntry)
    → IsData files e
    → IsData (e₀ ∷ files) e
IsData-tail e₀ files e (m, d) = (Memᴰ.tail m, d)

module _ {W : Type 0} (sha256_hex : Text → Text) (inbox : Inbox W) (root : Text) (store : Store W)
    (observe : W → Observed) (inbox_laws : InboxLaws observe inbox)
    (store_laws : StoreLaws observe store) where
  pub outcome :
      (e : FileEntry) (index : Option Index) (w : W)
      → Outcome sha256_hex inbox root observe inbox_laws store store_laws e w
          (import_one sha256_hex inbox root store e index w)
  outcome = import_one-Outcome sha256_hex inbox root observe inbox_laws store store_laws

  import_one-Change :
      (P : FileEntry → Type 0) (e : FileEntry) (index : Option Index) (w : W)
      → P e
      → Change sha256_hex P
          (observe w)
          (observe (import_one sha256_hex inbox root store e index w).1)
  import_one-Change P e index w p =
      Change-imp sha256_hex (λ e'. e' ≡ e) P (λ e' k. subst P (sym k) p)
        (Effect-Change sha256_hex e (outcome e index w).effect)

  data_step-Change :
      (P : FileEntry → Type 0) (e : FileEntry) (s : Pass) (w : W)
      → (is_discovery e ≡ false → P e)
      → Change sha256_hex P (observe w) (observe (data_step sha256_hex inbox root store e s w).1)
  unfolding data_step
  data_step-Change P e s w p = elim (Bool-cases (is_discovery e)) [
    | inl y ↦ rw y (Change-refl sha256_hex P refl)
    | inr n ↦ rw n (
        rw (bind-pure-world (import_one sha256_hex inbox root store e s.index) (count_one s) w)
          (import_one-Change P e s.index w (p n)))
  ]

  -- The first loop writes verified content of data entries, whatever comes of it.
  pub data_phase-Change :
      (P : FileEntry → Type 0) (files : List FileEntry) (s : Pass) (w : W)
      → ((e : FileEntry) → IsData files e → P e)
      → Change sha256_hex P
          (observe w)
          (observe (data_phase sha256_hex inbox root store files s w).1)
  unfolding data_phase
  data_phase-Change P [] s w p = Change-refl sha256_hex P refl
  data_phase-Change P (e ∷ files) s w p =
      bind-Change sha256_hex observe P (data_step sha256_hex inbox root store e s)
        (data_phase sha256_hex inbox root store files) w
        (data_step-Change P e s w (λ d. p e (Memᴰ.head refl, d)))
        (λ s' _. data_phase-Change P files s' _ (λ e' d. p e' (IsData-tail e files e' d)))

  unfoldable pub commit_step : List FileEntry → Pass → Imported → M W Summary
  commit_step files s one =
      if one.done
      then commit_phase sha256_hex inbox root store files (count_one s one)
      else pure (count_one s one).res

  if-Change :
      {A : Type 0} (P : FileEntry → Type 0) (b : Bool) (m n : M W A) (w : W)
      → Change sha256_hex P (observe w) (observe (m w).1)
      → Change sha256_hex P (observe w) (observe (n w).1)
      → Change sha256_hex P (observe w) (observe ((if b then m else n) w).1)
  if-Change P true m n w c d = c
  if-Change P false m n w c d = d

  -- So does the second loop, of the deferred entries.
  pub commit_phase-Change :
      (P : FileEntry → Type 0) (files : List FileEntry) (s : Pass) (w : W)
      → ((e : FileEntry) → Memᴰ e files → P e)
      → Change sha256_hex P
          (observe w)
          (observe (commit_phase sha256_hex inbox root store files s w).1)
  unfolding commit_phase commit_step
  commit_phase-Change P [] s w p = Change-refl sha256_hex P refl
  commit_phase-Change P (e ∷ files) s w p =
      bind-Change sha256_hex observe P (import_one sha256_hex inbox root store e s.index)
        (commit_step files s) w (import_one-Change P e s.index w (p e (Memᴰ.head refl)))
        (λ one _.
          if-Change P one.done (commit_phase sha256_hex inbox root store files (count_one s one))
            (pure (count_one s one).res) (import_one sha256_hex inbox root store e s.index w).1
            (commit_phase-Change P files (count_one s one) _ (λ e' m. p e' (Memᴰ.tail m)))
            (Change-refl sha256_hex P refl))
