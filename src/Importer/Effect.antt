-- ===== src/Importer/Effect.antt =====
-- src/internal/importer/importer.go: `importOne`, on every outcome.
use mathlib.Core.Path.{subst}
use airgap_snapshots.Base.{
  ◌≡◌, ◌≢◌, refl, sym, ap, ◌∙◌, ◌⊎◌, inl, inr, true, false, [], ◌∷◌, Option, none, some, arith,
  length, Result, ok, err, Bool-cases, M, bind_result, with_context, attempt, ◌>>=◌, wrapf, pure,
}
use airgap_snapshots.Base.Integer.{pos, int_eq_sound}
use mathlib.Core.Option.{some-injective}
use airgap_snapshots.Base.Keeps.{bind-pure-world, bind-eq-ok, with_context-eq-ok, Keeps}
use airgap_snapshots.Base.Text.{Text}
use airgap_snapshots.Objstore.{Store, Reader, ObjectInfo}
use airgap_snapshots.Manifest.{FileEntry}
use airgap_snapshots.Importer.{
  put_file, import_missing, Inbox, Index, Imported, already_there, locate, verify, publish,
  fetch_from, import_one, is_not_landed,
}
use airgap_snapshots.Importer.Laws.{Observed, ReadsFrom, InboxLaws, StoreLaws}
use airgap_snapshots.Importer.Reading.{locate-Keeps, verify-Keeps, verify_sound}

module _ (sha256_hex : Text → Text) where
  -- The object of the entry is in the store, with the size that the manifest says.
  abbrev pub Present : FileEntry → Observed → Type 0
  Present e v = (c : Text) × (v.stored e.key ≡ some c) × (pos (length c) ≡ e.size)

  -- The object at this key has the size and the hash of the entry.
  abbrev pub Verified : FileEntry → Observed → Type 0
  Verified e v =
      (c : Text) × (v.stored e.key ≡ some c) × (pos (length c) ≡ e.size) × (sha256_hex c ≡ e.sha256)

  -- Only the entry's own object may have changed, and then to verified content.
  pub record Effect (e : FileEntry) (v v' : Observed) : Type 0 where
    pub landed : v'.landed ≡ v.landed
    pub others : (j : Text) → j ≢ e.key → v'.stored j ≡ v.stored j
    pub own : (v'.stored e.key ≡ v.stored e.key) ⊎ Verified e v'

  no-Effect : (e : FileEntry) {v v' : Observed} → v' ≡ v → Effect e v v'
  no-Effect e {v} {v'} h = record {
    landed = ap (λ (o : Observed). o.landed) h;
    others = λ j _. ap (λ (o : Observed). o.stored j) h;
    own = inl (ap (λ (o : Observed). o.stored e.key) h);
  }

module _ {W : Type 0} (sha256_hex : Text → Text) (inbox : Inbox W) (root : Text)
    (observe : W → Observed) (laws : InboxLaws observe inbox) where
  module _ (store : Store W) (store_laws : StoreLaws observe store) where
    -- What is claimed of an action that imports `e`, at one world.
    pub record Outcome (e : FileEntry) (w : W) (r : Result Imported × W) : Type 0 where
      pub effect : Effect sha256_hex e (observe w) (observe r.1)
      pub present :
          (one : Imported) → r.0 ≡ ok one → one.done ≡ true → Present sha256_hex e (observe r.1)

    -- An action that observes only, and does not say `done`.
    quiet :
        (e : FileEntry) (w : W) (r : Result Imported × W)
        → observe r.1 ≡ observe w
        → ((one : Imported) → r.0 ≡ ok one → one.done ≡ false)
        → Outcome e w r
    quiet e w r h k = record {
      effect = no-Effect sha256_hex e h;
      present = λ one o d. ground (arith, k one o);
    }

    -- An action behind one that observes only.
    after :
        (e : FileEntry) (w w' : W) (r : Result Imported × W)
        → observe w' ≡ observe w
        → Outcome e w' r
        → Outcome e w r
    after e w w' r h o = record {
      effect = subst (λ v. Effect sha256_hex e v (observe r.1)) h o.effect;
      present = o.present;
    }

    module _ (p : Text) (e : FileEntry) (index : Option Index) (reader : Reader W) (w₀ w : W)
        (c : Text) (opened : (inbox.open_file p w₀).0 ≡ ok reader)
        (there : (observe w).landed p ≡ some c) (size : pos (length c) ≡ e.size)
        (sum : sha256_hex c ≡ e.sha256) where
      reader-Keeps : Keeps observe reader
      reader-Keeps = laws.reader-observe p w₀ reader opened

      reads_same : (c' : Text) → ReadsFrom observe reader w c' → c' ≡ c
      reads_same c' r = some-injective c' c (
          sym (laws.reader-landed p w₀ r.world reader c' opened r.reads)
          ∙ ap (λ (o : Observed). o.landed p) r.alike
          ∙ there)

      reads_sized : (c' : Text) → ReadsFrom observe reader w c' → pos (length c') ≡ e.size
      reads_sized c' r = rw (reads_same c' r) size

      abbrev put_now : M W (Unit {0})
      put_now = store.put e.key reader e.size []

      put_own :
          ((observe (put_now w).1).stored e.key ≡ (observe w).stored e.key)
          ⊎ Verified sha256_hex e (observe (put_now w).1)
      put_own = elim (store_laws.put-stored e.key reader e.size [] w reader-Keeps reads_sized) [
        | inl same ↦ inl same
        | inr (c', r, st) ↦ inr (c', st, reads_sized c' r, rw (reads_same c' r) sum)
      ]

      put_world : (put_file sha256_hex inbox root store e index reader w).1 ≡ (put_now w).1
      unfolding put_file
      put_world = bind-pure-world (with_context _ put_now) _ w

      put-Present :
          (one : Imported)
          → (put_file sha256_hex inbox root store e index reader w).0 ≡ ok one
          → Present sha256_hex e (observe (put_file sha256_hex inbox root store e index reader w).1)
      put-Present one o =
          let (u, e₁, _, _) =
            bind-eq-ok (with_context (wrapf "put dest %q: %w" (e.key ∷ [])) put_now)
              (λ _. pure (record { done = true; written = e.size; index = index })) w one
              (unfold put_file in o) in
          let e₂ = with_context-eq-ok (wrapf "put dest %q: %w" (e.key ∷ [])) put_now w u e₁ in
          let (c', r, st) =
            store_laws.put-ok e.key reader e.size [] w reader-Keeps reads_sized e₂ in
          rw put_world (c', st, reads_sized c' r)

      -- The upload of a file whose content, as it stands in the inbox, is that of the entry.
      put_file-Outcome : Outcome e w (put_file sha256_hex inbox root store e index reader w)
      put_file-Outcome = record {
        effect = rw put_world (record {
          landed = store_laws.put-landed e.key reader e.size [] w reader-Keeps;
          others = λ j ne. store_laws.put-other e.key reader e.size [] w j reader-Keeps ne;
          own = put_own;
        });
        present = λ one o d. put-Present one o;
      }

    bind_result-Outcome :
        {A : Type 0} (g : A → M W Imported) (e : FileEntry) (r : Result A) (w : W)
        → ((a : A) → r ≡ ok a → Outcome e w (g a w))
        → Outcome e w (bind_result g r w)
    bind_result-Outcome g e (ok a) w h = h a refl
    bind_result-Outcome g e (err f) w h = quiet e w (err f, w) refl (λ one o. cc)

    -- An action that observes only, and then an import.
    bind-Outcome :
        {A : Type 0} (m : M W A) (g : A → M W Imported) (e : FileEntry) (w : W)
        → Keeps observe m
        → ((a : A) → (m w).0 ≡ ok a → Outcome e (m w).1 (g a (m w).1))
        → Outcome e w ((m >>= g) w)
    bind-Outcome m g e w k h =
        after e w (m w).1 ((m >>= g) w) (k w) (bind_result-Outcome g e (m w).0 (m w).1 h)

    publish-Outcome :
        (p : Text) (e : FileEntry) (index : Option Index) (v : Result (Unit {0})) (w : W)
        → (v ≡ ok tt
            → (c : Text) × ((observe w).landed p ≡ some c)
              × (pos (length c) ≡ e.size)
              × (sha256_hex c ≡ e.sha256))
        → Outcome e w (publish sha256_hex inbox root store p e index v w)
    unfolding publish
    publish-Outcome p e index (err f) w h = elim (Bool-cases (is_not_landed f)) [
      | inl y ↦ rw y (quiet e w _ refl (λ one o. ground arith))
      | inr y ↦ rw y (quiet e w (err f, w) refl (λ one o. cc))
    ]
    publish-Outcome p e index (ok u) w h =
        let (c, there, size, sum) = h refl in
        let open_it = with_context (wrapf "open inbox %q: %w" (p ∷ [])) (inbox.open_file p) in
        bind-Outcome open_it (put_file sha256_hex inbox root store e index) e w
          (laws.open_file-observe p)
          (λ reader opened.
            put_file-Outcome p e index reader w (open_it w).1 c
              (with_context-eq-ok (wrapf "open inbox %q: %w" (p ∷ [])) (inbox.open_file p) w reader
                opened)
              (ap (λ (o : Observed). o.landed p) (laws.open_file-observe p w) ∙ there) size sum)

    fetch_from-Outcome :
        (e : FileEntry) (found : Option Text × Option Index) (w : W)
        → Outcome e w (fetch_from sha256_hex inbox root store e found w)
    unfolding fetch_from
    fetch_from-Outcome e (none, index) w = quiet e w _ refl (λ one o. ground arith)
    fetch_from-Outcome e (some p, index) w =
        let check = verify sha256_hex inbox root p e in
        bind-Outcome (attempt check) (publish sha256_hex inbox root store p e index) e w
          (verify-Keeps sha256_hex inbox root observe laws p e)
          (λ v checked. publish-Outcome p e index v (check w).1 (λ good.
            let passed : (check w).0 ≡ ok tt = cc in
            let (c, there, size, sum) =
              verify_sound sha256_hex inbox root observe laws p e w passed in
            (
              c,
              ap (λ (o : Observed). o.landed p)
                    (verify-Keeps sha256_hex inbox root observe laws p e w)
                  ∙ there,
              size,
              sum,
            )))

    already_there-Present :
        (e : FileEntry) (info : Option ObjectInfo) (w : W)
        → (store.stat e.key w).0 ≡ ok info
        → already_there info e ≡ true
        → Present sha256_hex e (observe w)
    unfolding already_there
    already_there-Present e none w h t = cc
    already_there-Present e (some info) w h t =
        let (c, there, size) = store_laws.stat-stored e.key w info h in
        (c, there, sym size ∙ int_eq_sound info.size e.size t)

    import_missing-Outcome :
        (e : FileEntry) (index : Option Index) (info : Option ObjectInfo) (w : W)
        → (already_there info e ≡ true → Present sha256_hex e (observe w))
        → Outcome e w (import_missing sha256_hex inbox root store e index info w)
    unfolding import_missing
    import_missing-Outcome e index info w h = elim (Bool-cases (already_there info e)) [
      | inl y ↦ rw y (record { effect = no-Effect sha256_hex e refl; present = λ one o d. h y })
      | inr y ↦ rw y (
          bind-Outcome (locate sha256_hex inbox root e index)
            (fetch_from sha256_hex inbox root store e) e w
            (locate-Keeps sha256_hex inbox root observe laws e index)
            (λ found _. fetch_from-Outcome e found (locate sha256_hex inbox root e index w).1))
    ]

    -- `importOne`, at every world: it writes nothing but the entry's object, and that verified; and
    -- after a `done` the object is there.
    pub import_one-Outcome :
        (e : FileEntry) (index : Option Index) (w : W)
        → Outcome e w (import_one sha256_hex inbox root store e index w)
    unfolding import_one
    import_one-Outcome e index w =
        let look = with_context (wrapf "stat dest %q: %w" (e.key ∷ [])) (store.stat e.key) in
        bind-Outcome look (import_missing sha256_hex inbox root store e index) e w
          (store_laws.stat-observe e.key)
          (λ info found. import_missing-Outcome e index info (look w).1 (λ y.
            subst (Present sha256_hex e) (sym (store_laws.stat-observe e.key w)) (
              already_there-Present e info w
                (with_context-eq-ok (wrapf "stat dest %q: %w" (e.key ∷ [])) (store.stat e.key) w
                  info found)
                y)))
