-- ===== src/Importer/Reading.antt =====
-- src/internal/importer/importer.go: `locate`, `verify` and what they call.
use airgap_snapshots.Base.{
  ℕ, ◌≡◌, refl, sym, ap, ◌∙◌, Bool, true, false, not, List, [], ◌∷◌, Option, none, some, arith,
  if◌then◌else◌, length, ok, M, with_context, attempt, ◌>>=◌, pure,
}
use airgap_snapshots.Base.Integer.{pos, int_eq_sound}
use airgap_snapshots.Base.Keeps.{bind-eq-ok, with_context-eq-ok, Keeps, bind-Keeps, if-Keeps}
use airgap_snapshots.Base.Text.{Text, text_eq, text_eq_iff}
use airgap_snapshots.Objstore.{Reader}
use airgap_snapshots.Manifest.{FileEntry}
use airgap_snapshots.Importer.{
  has_primary, locate_indexed, locate_after, primary, Inbox, Index, candidates, hash_file,
  file_exists, get_index, find_candidate, locate, check_content, verify, has_content,
}
use airgap_snapshots.Importer.Laws.{Observed, InboxLaws}

module _ {W : Type 0} (sha256_hex : Text → Text) (inbox : Inbox W) (root : Text)
    (observe : W → Observed) (laws : InboxLaws observe inbox) where
  open_then_read-Keeps :
      {A : Type 0} (p : Text) (g : Reader W → M W A)
      → ((w : W) (r : Reader W) → (inbox.open_file p w).0 ≡ ok r → Keeps observe (g r))
      → Keeps observe (inbox.open_file p >>= g)
  open_then_read-Keeps p g h = bind-Keeps observe (inbox.open_file p) g (laws.open_file-observe p) h

  pub hash_file-Keeps : (p : Text) → Keeps observe (hash_file sha256_hex inbox root p)
  unfolding hash_file
  hash_file-Keeps p =
      open_then_read-Keeps p _
        (λ w r e. bind-Keeps observe r _ (laws.reader-observe p w r e) (λ _ c _ w'. refl))

  -- A hash that was computed is that of the file as it stands in the inbox.
  hash_file-landed :
      (p : Text) (w : W) (sum : Text) (n : ℕ)
      → (hash_file sha256_hex inbox root p w).0 ≡ ok (sum, n)
      → (c : Text) × ((observe w).landed p ≡ some c) × (sum ≡ sha256_hex c) × (n ≡ length c)
  unfolding hash_file
  hash_file-landed p w sum n h =
      let (r, opened, rest, _) = bind-eq-ok (inbox.open_file p) _ w (sum, n) h in
      let (c, was_read, out, _) = bind-eq-ok r _ (inbox.open_file p w).1 (sum, n) rest in
      let found = laws.reader-landed p w (inbox.open_file p w).1 r c opened was_read in
      (
        c,
        ap (λ (o : Observed). o.landed p) (sym (laws.open_file-observe p w)) ∙ found,
        ground arith,
        ground arith,
      )

  file_exists-Keeps : (p : Text) → Keeps observe (file_exists sha256_hex inbox root p)
  unfolding file_exists
  file_exists-Keeps p w = laws.stat_file-observe p w

  get_index-Keeps : (index : Option Index) → Keeps observe (get_index sha256_hex inbox root index)
  unfolding get_index
  get_index-Keeps (some index) = λ w. refl
  get_index-Keeps none = λ w. laws.walk_dir-observe root w

  find_candidate-Keeps :
      (e : FileEntry) (paths : List Text)
      → Keeps observe (find_candidate sha256_hex inbox root e paths)
  unfolding find_candidate
  find_candidate-Keeps e [] = λ w. refl
  find_candidate-Keeps e (p ∷ paths) =
      bind-Keeps observe (attempt (hash_file sha256_hex inbox root p))
        (λ r.
          if has_content sha256_hex inbox root e r
          then pure (some p)
          else find_candidate sha256_hex inbox root e paths)
        (hash_file-Keeps p)
        (λ w r _.
          if-Keeps observe (has_content sha256_hex inbox root e r) (pure (some p))
            (find_candidate sha256_hex inbox root e paths) (λ _. refl)
            (find_candidate-Keeps e paths))

  pub has_primary-Keeps : (e : FileEntry) → Keeps observe (has_primary sha256_hex inbox root e)
  unfolding has_primary
  has_primary-Keeps e =
      if-Keeps observe (not (text_eq e.distribution_id []))
        (file_exists sha256_hex inbox root (primary sha256_hex inbox root e)) (pure false)
        (file_exists-Keeps (primary sha256_hex inbox root e)) (λ w. refl)

  locate_indexed-Keeps :
      (e : FileEntry) (built : Index) → Keeps observe (locate_indexed sha256_hex inbox root e built)
  unfolding locate_indexed
  locate_indexed-Keeps e built =
      bind-Keeps observe (find_candidate sha256_hex inbox root e (candidates e.basename built))
        (λ path. pure {A = Option Text × Option Index} (path, some built))
        (find_candidate-Keeps e (candidates e.basename built)) (λ _ path _ w. refl)

  locate_after-Keeps :
      (e : FileEntry) (index : Option Index) (found : Bool)
      → Keeps observe (locate_after sha256_hex inbox root e index found)
  unfolding locate_after
  locate_after-Keeps e index true = λ w. refl
  locate_after-Keeps e index false =
      bind-Keeps observe (get_index sha256_hex inbox root index)
        (locate_indexed sha256_hex inbox root e) (get_index-Keeps index)
        (λ _ built _. locate_indexed-Keeps e built)

  pub locate-Keeps :
      (e : FileEntry) (index : Option Index) → Keeps observe (locate sha256_hex inbox root e index)
  unfolding locate
  locate-Keeps e index =
      bind-Keeps observe (has_primary sha256_hex inbox root e)
        (locate_after sha256_hex inbox root e index) (has_primary-Keeps e)
        (λ _ found _. locate_after-Keeps e index found)

  pub verify-Keeps : (p : Text) (e : FileEntry) → Keeps observe (verify sha256_hex inbox root p e)
  unfolding verify
  verify-Keeps p e =
      bind-Keeps observe (with_context _ (hash_file sha256_hex inbox root p)) _ (hash_file-Keeps p)
        (λ w hashed _ w'. refl)

  check_content_sound :
      (p : Text) (e : FileEntry) (sum : Text) (n : ℕ)
      → check_content sha256_hex inbox root p e (sum, n) ≡ ok tt
      → (pos n ≡ e.size) × (sum ≡ e.sha256)
  unfolding check_content
  check_content_sound p e sum n h =
      ground (arith, int_eq_sound (pos n) e.size, text_eq_iff sum e.sha256)

  -- A file that `verify` lets pass has the size and the hash of the entry.
  pub verify_sound :
      (p : Text) (e : FileEntry) (w : W)
      → (verify sha256_hex inbox root p e w).0 ≡ ok tt
      → (c : Text) × ((observe w).landed p ≡ some c)
        × (pos (length c) ≡ e.size)
        × (sha256_hex c ≡ e.sha256)
  unfolding verify
  verify_sound p e w h =
      let (hashed, e₁, rest, _) =
        bind-eq-ok (with_context _ (hash_file sha256_hex inbox root p)) _ w tt h in
      let e₂ = with_context-eq-ok _ (hash_file sha256_hex inbox root p) w hashed e₁ in
      let (c, l, s, n) = hash_file-landed p w hashed.0 hashed.1 e₂ in
      let (size, sum) = check_content_sound p e hashed.0 hashed.1 rest in
      (c, l, ap pos (sym n) ∙ size, sym s ∙ sum)
