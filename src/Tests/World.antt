-- ===== src/Tests/World.antt =====
-- A destination store and an inbox in memory, to run the importer on; a put writes only what has the
-- announced size, as an upload of a known length does.
use mathlib.Core.Path.{subst}
use airgap_snapshots.Base.{
  ◌≡◌, ◌≢◌, refl, sym, ap, ◌∙◌, ◌⊎◌, inl, inr, Bool, true, false, [], Option, none, some, map,
  length, if◌then◌else◌, Bool-cases, Result, ok, err, external, M,
}
use airgap_snapshots.Base.Integer.{ℤ, pos, int_eq}
use airgap_snapshots.Base.Keeps.{Keeps}
use airgap_snapshots.Base.Dict.{Dict, lookup, insert, lookup-insert}
use airgap_snapshots.Base.Text.{Text, text_eq, text_eq_iff, text_eq_refl}
use airgap_snapshots.Objstore.{Store, Reader, ObjectInfo}
use airgap_snapshots.Importer.{Inbox, walk_file}
use airgap_snapshots.Importer.Laws.{Observed, InboxLaws, StoreLaws}

pub record World : Type 0 where
  pub objects : Dict Text
  pub files : Dict Text

abbrev pub observe : World → Observed
observe w = record { stored = λ k. lookup k w.objects; landed = λ p. lookup p w.files }

abbrev found : {A : Type 0} → Option A → Result A
found none = err (external "not found")
found (some a) = ok a

abbrev pub read_file : Text → Reader World
read_file p w = (found (lookup p w.files), w)

abbrev pub opened : Text → Option Text → Result (Reader World)
opened p none = err (external "not found")
opened p (some c) = ok (read_file p)

abbrev is_directory : Option Text → Result Bool
is_directory none = err (external "not found")
is_directory (some c) = ok false

abbrev pub inbox : Inbox World
inbox = record {
  stat_file = λ p w. (is_directory (lookup p w.files), w);
  open_file = λ p w. (opened p (lookup p w.files), w);
  walk_dir = λ root w. (map (λ (e : Text × Text). walk_file e.0) w.files, w);
}

abbrev info_of : Text → Option Text → Option ObjectInfo
info_of k none = none
info_of k (some c) = some (record { key = k; size = pos (length c); etag = []; last_modified = 0 })

abbrev write : Text → ℤ → Result Text → World → Result (Unit {0}) × World
write k n (err e) w = (err e, w)
write k n (ok c) w =
    if int_eq (pos (length c)) n
    then (ok tt, record w { objects = insert k c w.objects })
    else (err (external "short read"), w)

abbrev pub put : Text → Reader World → ℤ → Text → M World (Unit {0})
put k r n t w = write k n (r w).0 (r w).1

abbrev pub store : Store World
store = record {
  list = λ prefix w. (ok [], w);
  open_object = λ k w. (err (external "unused"), w);
  put = put;
  stat = λ k w. (ok (info_of k (lookup k w.objects)), w);
  get_ledger = λ k w. (ok ([], []), w);
  put_ledger = λ k body etag w. (ok [], w);
}

pub opened-reader :
    (p : Text) (o : Option Text) (r : Reader World) → opened p o ≡ ok r → read_file p ≡ r
opened-reader p none r h = cc h
opened-reader p (some c) r h = cc h

found-some : (o : Option Text) (c : Text) → found o ≡ ok c → o ≡ some c
found-some none c h = cc h
found-some (some d) c h = cc h

pub inbox_laws : InboxLaws observe inbox
inbox_laws = record {
  stat_file-observe = λ p w. refl;
  open_file-observe = λ p w. refl;
  walk_dir-observe = λ p w. refl;
  reader-observe =
      λ p w r h. subst (Keeps observe) (opened-reader p (lookup p w.files) r h) (λ v. refl);
  reader-landed = λ p w v r c h k. found-some (lookup p v.files) c (
      subst (λ (r : Reader World). (r v).0 ≡ ok c) (sym (opened-reader p (lookup p w.files) r h))
        k);
}

-- What a write does, by the result of the reader.
record Written (k : Text) (n : ℤ) (r : Result Text) (w : World) (out : Result (Unit {0}) × World)
    : Type 0 where
  landed : out.1.files ≡ w.files
  other : (j : Text) → j ≢ k → lookup j out.1.objects ≡ lookup j w.objects
  own :
      ((out.1.objects ≡ w.objects) × (out.0 ≢ ok tt))
      ⊎ ((c : Text) × (r ≡ ok c) × (lookup k out.1.objects ≡ some c))

write-Written : (k : Text) (n : ℤ) (r : Result Text) (w : World) → Written k n r w (write k n r w)
write-Written k n (err e) w = record {
  landed = refl;
  other = λ j h. refl;
  own = inl (refl, λ h. cc h);
}
write-Written k n (ok c) w = go (int_eq (pos (length c)) n)
  where
    same : (j : Text) → j ≢ k → text_eq k j ≡ false
    same j h = elim (Bool-cases (text_eq k j)) [
      | inl y ↦ absurd (h (sym ((text_eq_iff k j).0 y)))
      | inr unlike ↦ unlike
    ]

    go :
        (b : Bool)
        → Written k n (ok c) w (
            if b
            then (ok tt, record w { objects = insert k c w.objects })
            else (err (external "short read"), w))
    go true = record {
      landed = refl;
      other = λ j h. lookup-insert k j c w.objects ∙ (rw (same j h) refl);
      own = inr (c, refl, lookup-insert k k c w.objects ∙ (rw (text_eq_refl k) refl));
    }
    go false = record { landed = refl; other = λ j h. refl; own = inl (refl, λ h. cc h) }

put-Written :
    (k : Text) (r : Reader World) (n : ℤ) (t : Text) (w : World)
    → Written k n (r w).0 (r w).1 (put k r n t w)
put-Written k r n t w = write-Written k n (r w).0 (r w).1

info_of-some :
    (k : Text) (o : Option Text) (info : ObjectInfo)
    → info_of k o ≡ some info
    → (c : Text) × (o ≡ some c) × (info.size ≡ pos (length c))
info_of-some k none info h = cc h
info_of-some k (some c) info h = (c, refl, sym (ap size_of h))
  where
    size_of : Option ObjectInfo → ℤ
    size_of none = pos 0
    size_of (some i) = i.size

pub store_laws : StoreLaws observe store
store_laws = record {
  stat-observe = λ k w. refl;
  stat-stored = λ k w info h. info_of-some k (lookup k w.objects) info (cc h);
  put-landed = λ k r n t w keeps.
      ap (λ files p. lookup p files) (put-Written k r n t w).landed
      ∙ ap (λ (o : Observed). o.landed) (keeps w);
  put-other = λ k r n t w j keeps h.
      (put-Written k r n t w).other j h ∙ ap (λ (o : Observed). o.stored j) (keeps w);
  put-stored = λ k r n t w keeps h. elim (put-Written k r n t w).own [
    | inl (same, _) ↦ inl (ap (lookup k) same ∙ ap (λ (o : Observed). o.stored k) (keeps w))
    | inr (c, e, there) ↦ inr (c, record { world = w; alike = refl; reads = e }, there)
  ];
  put-ok = λ k r n t w keeps h done. elim (put-Written k r n t w).own [
    | inl (_, failed) ↦ absurd (failed done)
    | inr (c, e, there) ↦ (c, record { world = w; alike = refl; reads = e }, there)
  ];
}

pub stat_answers :
    (k : Text) (w : World) (c : Text)
    → (observe w).stored k ≡ some c
    → (info : ObjectInfo) × ((store.stat k w).0 ≡ ok (some info)) × (info.size ≡ pos (length c))
stat_answers k w c h = (
  record { key = k; size = pos (length c); etag = []; last_modified = 0 },
  ap (λ o. ok (info_of k o)) h,
  refl,
)
