-- ===== src/Importer/Progress.antt =====
-- src/internal/importer/importer.go: `Import` once all files have landed.
use mathlib.Core.Path.{subst}
use airgap_snapshots.Base.{
  ◌≡◌, ◌≢◌, refl, sym, ap, ◌∙◌, inl, inr, true, false, [], Option, some, Bool-cases, length, ok, M,
  Failure, with_context, ◌>>=◌,
}
use airgap_snapshots.Base.Integer.{pos, int_eq_refl}
use airgap_snapshots.Base.Text.{Text, text_eq, text_eq_iff, text_eq_refl}
use airgap_snapshots.Objstore.{Store, Reader, ObjectInfo}
use airgap_snapshots.Manifest.{FileEntry}
use airgap_snapshots.Importer.{
  Inbox, Index, Imported, primary, hash_file, file_exists, has_primary, locate_after, locate,
  check_content, verify, put_file, publish, fetch_from, already_there, import_missing, import_one,
}
use airgap_snapshots.Importer.Laws.{Observed, InboxLaws, StoreLaws}
use airgap_snapshots.Importer.Reading.{locate-Keeps, verify-Keeps}

bind_ok :
    {W A B : Type 0} (m : M W A) (g : A → M W B) (w : W) (a : A) (b : B)
    → (m w).0 ≡ ok a
    → (g a (m w).1).0 ≡ ok b
    → ((m >>= g) w).0 ≡ ok b
bind_ok m g w a b e h = rw e h

with_context_ok :
    {W A : Type 0} (f : Failure → Failure) (m : M W A) (w : W) (a : A)
    → (m w).0 ≡ ok a
    → (with_context f m w).0 ≡ ok a
with_context_ok f m w a e = rw e refl

-- In the destination and in the inbox, the calls that the importer makes do not fail.
pub record Works {W : Type 0} (observe : W → Observed) (inbox : Inbox W) (store : Store W)
    : Type 0 where
  pub stat : (k : Text) (w : W) → (info : Option ObjectInfo) × ((store.stat k w).0 ≡ ok info)
  pub stat_file :
      (p c : Text) (w : W) → (observe w).landed p ≡ some c → (inbox.stat_file p w).0 ≡ ok false
  pub open_file :
      (p c : Text) (w : W)
      → (observe w).landed p ≡ some c
      → (r : Reader W) × ((inbox.open_file p w).0 ≡ ok r)
  pub reads :
      (p c : Text) (w w' : W) (r : Reader W)
      → (inbox.open_file p w).0 ≡ ok r
      → (observe w').landed p ≡ some c
      → (r w').0 ≡ ok c
  pub put :
      (k : Text) (r : Reader W) (t c : Text) (w : W)
      → (r w).0 ≡ ok c
      → (store.put k r (pos (length c)) t w).0 ≡ ok tt

module _ {W : Type 0} (sha256_hex : Text → Text) (inbox : Inbox W) (root : Text) (store : Store W)
    (observe : W → Observed) (inbox_laws : InboxLaws observe inbox)
    (store_laws : StoreLaws observe store) (works : Works observe inbox store) where
  -- The file of the entry stands at its place in the inbox, with the content that the entry says.
  pub record HasLanded (e : FileEntry) (v : Observed) : Type 0 where
    pub delivered : e.distribution_id ≢ []
    pub content : Text
    pub there : v.landed (primary sha256_hex inbox root e) ≡ some content
    pub size : e.size ≡ pos (length content)
    pub sum : e.sha256 ≡ sha256_hex content

  pub HasLanded-landed :
      (e : FileEntry) (v v' : Observed) → v'.landed ≡ v.landed → HasLanded e v → HasLanded e v'
  HasLanded-landed e v v' h l = record {
    delivered = l.delivered;
    content = l.content;
    there = ap (λ (f : Text → Option Text). f (primary sha256_hex inbox root e)) h ∙ l.there;
    size = l.size;
    sum = l.sum;
  }

  HasLanded-observe :
      (e : FileEntry) (w w' : W)
      → observe w' ≡ observe w
      → HasLanded e (observe w)
      → HasLanded e (observe w')
  HasLanded-observe e w w' h =
      HasLanded-landed e (observe w) (observe w') (ap (λ (o : Observed). o.landed) h)

  hash_file_ok :
      (p c : Text) (w : W)
      → (observe w).landed p ≡ some c
      → (hash_file sha256_hex inbox root p w).0 ≡ ok (sha256_hex c, length c)
  unfolding hash_file
  hash_file_ok p c w h =
      let (r, opened) = works.open_file p c w h in
      let w₁ = (inbox.open_file p w).1 in
      let still = ap (λ (o : Observed). o.landed p) (inbox_laws.open_file-observe p w) ∙ h in
      rw opened (rw (works.reads p c w w₁ r opened still) refl)

  verify_ok :
      (e : FileEntry) (w : W)
      → HasLanded e (observe w)
      → (verify sha256_hex inbox root (primary sha256_hex inbox root e) e w).0 ≡ ok tt
  unfolding verify check_content
  verify_ok e w l =
      rw (hash_file_ok (primary sha256_hex inbox root e) l.content w l.there)
        (simp (l.size, l.sum, int_eq_refl, text_eq_refl))

  has_primary_ok :
      (e : FileEntry) (w : W)
      → HasLanded e (observe w)
      → (has_primary sha256_hex inbox root e w).0 ≡ ok true
  unfolding has_primary file_exists
  has_primary_ok e w l = elim (Bool-cases (text_eq e.distribution_id [])) [
    | inl y ↦ absurd (l.delivered ((text_eq_iff e.distribution_id []).0 y))
    | inr n ↦ rw n (rw (works.stat_file (primary sha256_hex inbox root e) l.content w l.there) refl)
  ]

  locate_ok :
      (e : FileEntry) (index : Option Index) (w : W)
      → HasLanded e (observe w)
      → (locate sha256_hex inbox root e index w).0
        ≡ ok (some (primary sha256_hex inbox root e), index)
  unfolding locate locate_after
  locate_ok e index w l = rw (has_primary_ok e w l) refl

  abbrev written : FileEntry → Option Index → Imported
  written e index = record { done = true; written = e.size; index = index }

  publish_ok :
      (e : FileEntry) (index : Option Index) (w : W)
      → HasLanded e (observe w)
      → (publish sha256_hex inbox root store (primary sha256_hex inbox root e) e index (ok tt) w).0
        ≡ ok (written e index)
  unfolding publish put_file
  publish_ok e index w l =
      let p = primary sha256_hex inbox root e in
      let (r, opened) = works.open_file p l.content w l.there in
      let w₁ = (inbox.open_file p w).1 in
      let still = ap (λ (o : Observed). o.landed p) (inbox_laws.open_file-observe p w) ∙ l.there in
      let read = works.reads p l.content w w₁ r opened still in
      let put : (store.put e.key r e.size [] w₁).0 ≡ ok tt =
        subst (λ n. (store.put e.key r n [] w₁).0 ≡ ok tt) (sym l.size)
          (works.put e.key r [] l.content w₁ read) in
      rw opened (rw put refl)

  fetch_from_ok :
      (e : FileEntry) (index : Option Index) (w : W)
      → HasLanded e (observe w)
      → (fetch_from sha256_hex inbox root store e
          (some (primary sha256_hex inbox root e), index)
          w).0
        ≡ ok (written e index)
  unfolding fetch_from
  fetch_from_ok e index w l =
      let p = primary sha256_hex inbox root e in
      rw (verify_ok e w l) (
        publish_ok e index (verify sha256_hex inbox root p e w).1
          (HasLanded-observe e w _ (verify-Keeps sha256_hex inbox root observe inbox_laws p e w) l))

  -- `importOne` is done with an entry whose file has landed.
  pub import_one_done :
      (e : FileEntry) (index : Option Index) (w : W)
      → HasLanded e (observe w)
      → (one : Imported) × ((import_one sha256_hex inbox root store e index w).0 ≡ ok one)
        × (one.done ≡ true)
  unfolding import_one import_missing
  import_one_done e index w l =
      let (info, found) = works.stat e.key w in
      let w₁ = (store.stat e.key w).1 in
      let l₁ = HasLanded-observe e w w₁ (store_laws.stat-observe e.key w) l in
      elim (Bool-cases (already_there info e)) [
        | inl y ↦
            (record { done = true; written = pos 0; index = index }, rw found (rw y refl), refl)
        | inr n ↦ (
          written e index,
          rw found (
              rw n (
                rw (locate_ok e index w₁ l₁) (
                  fetch_from_ok e index (locate sha256_hex inbox root e index w₁).1 (
                    HasLanded-observe e w₁ _
                      (locate-Keeps sha256_hex inbox root observe inbox_laws e index w₁) l₁)))),
          refl,
        )
      ]
