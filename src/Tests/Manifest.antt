-- ===== src/Tests/Manifest.antt =====
-- A manifest through a codec, and document ids.
use airgap_snapshots.Base.{
  ◌≡◌, refl, Bool, true, false, ◌&&◌, List, [], ◌∷◌, ◌==◌, ==_iff, arith, if◌then◌else◌, Bool-cases,
  inl, inr, ok, err, external,
}
use airgap_snapshots.Base.Integer.{pos, int_eq, int_eq_sound}
use airgap_snapshots.Base.Text.{Text, bytes, text_eq, text_eq_iff}
use airgap_snapshots.Manifest.{FileEntry, Manifest, Json, parse}
use airgap_snapshots.Manifest.Codec.{IsFaithful, parse-version}
use airgap_snapshots.Manifest.Names.{doc_id_injective}

-- A manifest without files, in which only the backup's name varies.
abbrev named : Text → Manifest
named name = record {
  version = pos 1;
  backup_name = name;
  storage_location = [];
  bsl_prefix = [];
  object_count = 0;
  total_bytes = pos 0;
  completed_at = [];
  complete = true;
  files = [];
}

abbrev is_nil : List FileEntry → Bool
is_nil [] = true
is_nil (e ∷ files) = false

is_nil_lem : (files : List FileEntry) → is_nil files ≡ true → files ≡ []
is_nil_lem [] h = refl
is_nil_lem (e ∷ files) h = cc h

abbrev is_named : Manifest → Bool
is_named m =
    int_eq m.version (pos 1)
    && (text_eq m.storage_location []
        && (text_eq m.bsl_prefix []
            && (m.object_count == 0
                && (int_eq m.total_bytes (pos 0)
                    && (text_eq m.completed_at [] && (m.complete && is_nil m.files))))))

-- A codec of such manifests.
abbrev pub codec : Json Manifest
codec = record {
  encode = λ m. if is_named m then ok m.backup_name else err (external "unsupported");
  decode = λ t. ok (named t);
}

is_named_lem : (m : Manifest) → is_named m ≡ true → named m.backup_name ≡ m
is_named_lem m h =
    let a : int_eq m.version (pos 1) ≡ true = ground arith in
    let b : text_eq m.storage_location [] ≡ true = ground arith in
    let c : text_eq m.bsl_prefix [] ≡ true = ground arith in
    let d : (m.object_count == 0) ≡ true = ground arith in
    let e : int_eq m.total_bytes (pos 0) ≡ true = ground arith in
    let f : text_eq m.completed_at [] ≡ true = ground arith in
    let g : m.complete ≡ true = ground arith in
    let i : is_nil m.files ≡ true = ground arith in
    cc (
      int_eq_sound m.version (pos 1) a,
      (text_eq_iff m.storage_location []).0 b,
      (text_eq_iff m.bsl_prefix []).0 c,
      (==_iff m.object_count 0).0 d,
      int_eq_sound m.total_bytes (pos 0) e,
      (text_eq_iff m.completed_at []).0 f,
      g,
      is_nil_lem m.files i,
    )

pub codec-IsFaithful : IsFaithful codec
codec-IsFaithful = record {
  decode-encode = λ m t h. elim (Bool-cases (is_named m)) [
    | inl y ↦ cc (is_named_lem m y, encoded m t y h)
    | inr n ↦ absurd (refused m t n h)
  ];
}
  where
    encoded :
        (m : Manifest) (t : Text) → is_named m ≡ true → codec.encode m ≡ ok t → m.backup_name ≡ t
    encoded m t y h = ground arith

    refused : (m : Manifest) (t : Text) → is_named m ≡ false → codec.encode m ≡ ok t → ⊥
    refused m t n h = ground arith

parse-version_example :
    (ok (named (bytes "nightly")) ≡ ok (named (bytes "nightly"))) × (pos 1 ≡ pos 1)
unfolding parse int_eq
parse-version_example = parse-version codec (bytes "nightly") (named (bytes "nightly")) refl

doc_id_injective_example : (bytes "default" ≡ bytes "default") × (bytes "nightly" ≡ bytes "nightly")
doc_id_injective_example =
    doc_id_injective (bytes "default") (bytes "default") (bytes "nightly") (bytes "nightly")
      (refl, (refl, (refl, (refl, (refl, (refl, (refl, tt)))))))
      (refl, (refl, (refl, (refl, (refl, (refl, (refl, tt))))))) refl
