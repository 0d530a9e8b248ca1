-- ===== src/Manifest/Codec.antt =====
-- src/internal/manifest/manifest.go: `Marshal` and `Parse` against each other.
use airgap_snapshots.Base.{Result-cases, inl, inr, ◌≡◌, ok, arith}
use airgap_snapshots.Base.Integer.{int_eq_refl, int_eq_sound}
use airgap_snapshots.Base.Text.{Text}
use airgap_snapshots.Manifest.{Manifest, Json, marshal, parse, schema_version}

-- What `encoding/json` documents of a type with these fields: decoding undoes encoding.
pub record IsFaithful (json : Json Manifest) : Type 0 where
  pub decode-encode : (m : Manifest) (t : Text) → json.encode m ≡ ok t → json.decode t ≡ ok m

module _ (json : Json Manifest) where
  pub parse-marshal :
      IsFaithful json
      → (m : Manifest) (t : Text) → marshal json m ≡ ok t
      → m.version ≡ schema_version
      → parse json t ≡ ok m
  unfolding parse marshal
  parse-marshal law m t e v = ground (arith, law.decode-encode m t, int_eq_refl m.version)

  -- A document that `Parse` accepts decodes to the manifest that it returns, which has the supported
  -- schema version.
  pub parse-version :
      (t : Text) (m : Manifest)
      → parse json t ≡ ok m
      → (json.decode t ≡ ok m) × (m.version ≡ schema_version)
  unfolding parse
  parse-version t m e = elim (Result-cases (json.decode t)) [
    | inl (a, d) ↦ ground (arith, int_eq_sound a.version schema_version)
    | inr (f, d) ↦ ground arith
  ]
