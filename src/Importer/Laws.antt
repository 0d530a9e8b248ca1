-- ===== src/Importer/Laws.antt =====
-- What the importer relies on of the destination store and of the inbox, over what can be observed
-- of the world: the objects of the destination and the files of the inbox.
use airgap_snapshots.Base.{◌≡◌, ◌≢◌, ◌⊎◌, Option, some, length, ok}
use airgap_snapshots.Base.Integer.{ℤ, pos}
use airgap_snapshots.Base.Keeps.{Keeps}
use airgap_snapshots.Base.Text.{Text}
use airgap_snapshots.Objstore.{Store, Reader, ObjectInfo}
use airgap_snapshots.Importer.{Inbox}

pub record Observed : Type 0 where
  pub stored : Text → Option Text
  pub landed : Text → Option Text

module _ {W : Type 0} (observe : W → Observed) where
  -- In the world `v`, which looks like `w`, the reader gave the content `c`.
  pub record ReadsFrom (r : Reader W) (w : W) (c : Text) : Type 0 where
    pub world : W
    pub alike : observe world ≡ observe w
    pub reads : (r world).0 ≡ ok c

  -- Calls on the inbox change nothing, and an opened file is read as it stands: peat does not write
  -- to a file of the inbox while the pass reads it.
  pub record InboxLaws (inbox : Inbox W) : Type 0 where
    pub stat_file-observe : (p : Text) → Keeps observe (inbox.stat_file p)
    pub open_file-observe : (p : Text) → Keeps observe (inbox.open_file p)
    pub walk_dir-observe : (p : Text) (w : W) → observe (inbox.walk_dir p w).1 ≡ observe w
    pub reader-observe :
        (p : Text) (w : W) (r : Reader W) → (inbox.open_file p w).0 ≡ ok r → Keeps observe r
    pub reader-landed :
        (p : Text) (w w' : W) (r : Reader W) (c : Text)
        → (inbox.open_file p w).0 ≡ ok r
        → (r w').0 ≡ ok c
        → (observe w').landed p ≡ some c

  -- A put is atomic: the object is what it was, or what was read. A put that succeeds has written.
  pub record StoreLaws (store : Store W) : Type 0 where
    pub stat-observe : (k : Text) → Keeps observe (store.stat k)
    pub stat-stored :
        (k : Text) (w : W) (info : ObjectInfo)
        → (store.stat k w).0 ≡ ok (some info)
        → (c : Text) × ((observe w).stored k ≡ some c) × (info.size ≡ pos (length c))
    pub put-landed :
        (k : Text) (r : Reader W) (n : ℤ) (t : Text) (w : W)
        → Keeps observe r
        → (observe (store.put k r n t w).1).landed ≡ (observe w).landed
    pub put-other :
        (k : Text) (r : Reader W) (n : ℤ) (t : Text) (w : W) (j : Text)
        → Keeps observe r
        → j ≢ k
        → (observe (store.put k r n t w).1).stored j ≡ (observe w).stored j
    pub put-stored :
        (k : Text) (r : Reader W) (n : ℤ) (t : Text) (w : W)
        → Keeps observe r
        → ((c : Text) → ReadsFrom r w c → pos (length c) ≡ n)
        → ((observe (store.put k r n t w).1).stored k ≡ (observe w).stored k)
          ⊎ ((c : Text) × ReadsFrom r w c × ((observe (store.put k r n t w).1).stored k ≡ some c))
    pub put-ok :
        (k : Text) (r : Reader W) (n : ℤ) (t : Text) (w : W)
        → Keeps observe r
        → ((c : Text) → ReadsFrom r w c → pos (length c) ≡ n)
        → (store.put k r n t w).0 ≡ ok tt
        → (c : Text) × ReadsFrom r w c × ((observe (store.put k r n t w).1).stored k ≡ some c)
