-- ===== src/Objstore/Credentials/Render.antt =====
-- src/internal/objstore/creds.go: the file that the comment on `ParseAWSCredentials` shows.
use airgap_snapshots.Base.{
  ℕ, ◌≡◌, ◌≢◌, refl, sym, ap, ◌∙◌, true, false, List, [], ◌∷◌, ◌++◌, none, some, arith, ◌==◌,
}
use airgap_snapshots.Base.Dict.{Dict, lookup, insert}
use airgap_snapshots.Base.Text.{Text, bytes, text_eq_refl}
use airgap_snapshots.Base.Text.Search.{cut, join}
use airgap_snapshots.Base.Text.Trim.{is_space, trim_space, to_lower}
use airgap_snapshots.Objstore.Credentials.{
  Scan, Credentials, ends_with_bracket, section_of, filled_section, named_sections, pick_profile,
  inner, is_skipped, is_header, open_section, set_entry, scan_trimmed, scan_line,
}
use airgap_snapshots.Base.Text.Words.{
  IsWord, trim_space-solid, trim_space-word, bracket-IsWord, last?-concat, take_all_but_last,
  text_eq_nil,
}

-- `[profile]`
abbrev pub header : Text → Text
header profile = b'[' ∷ (profile ++ b']' ∷ [])

-- `key = value`
abbrev pub entry : Text → Text → Text
entry key value = key ++ (bytes " = " ++ value)

abbrev pub access_name : Text
access_name = bytes "aws_access_key_id"

abbrev pub secret_name : Text
secret_name = bytes "aws_secret_access_key"

abbrev pub token_name : Text
token_name = bytes "aws_session_token"

-- The line of the session token is left out if there is none.
abbrev pub token_lines : Text → List Text
token_lines [] = []
token_lines (c ∷ token) = entry token_name (c ∷ token) ∷ []

abbrev pub lines_of : Text → Credentials → List Text
lines_of profile c =
    header profile
    ∷ entry access_name c.access_key
    ∷ entry secret_name c.secret_key
    ∷ token_lines c.session_token

-- The file that holds these credentials under a profile.
abbrev pub render : Text → Credentials → Text
render profile c = join (lines_of profile c) b'\n'

scan_line_trimmed : (s : Scan) (raw : Text) → scan_line s raw ≡ scan_trimmed s (trim_space raw)
unfolding scan_line
scan_line_trimmed s raw = refl

-- What the scan starts with.
abbrev pub first : Scan
first = record { sections = ([], []) ∷ []; current = [] }

header-ends_with_bracket : (profile : Text) → ends_with_bracket (header profile) ≡ true
header-ends_with_bracket profile =
    ap (λ o. elim o [ none ↦ false | some c ↦ c == b']' ]) (last?-concat (b'[' ∷ profile) b']')

header-is_header : (profile : Text) → is_header (header profile) ≡ true
unfolding is_header
header-is_header profile = header-ends_with_bracket profile

scan_trimmed-header :
    (s : Scan) (profile : Text)
    → scan_trimmed s (header profile) ≡ open_section (trim_space (inner (header profile))) s
unfolding scan_trimmed
scan_trimmed-header s profile =
    let no : is_skipped (header profile) ≡ false = unfold is_skipped in refl in
    rw no (rw (header-is_header profile) refl)

open_section-new :
    (profile : Text)
    → profile ≢ []
    → open_section profile first
      ≡ record { sections = ([], []) ∷ (profile, []) ∷ []; current = profile }
unfolding open_section
open_section-new profile n = let other = text_eq_nil profile n in rw other (rw other refl)

module _ (profile : Text) (w : IsWord profile) where
  trim_header : trim_space (header profile) ≡ header profile
  unfolding is_space
  trim_header = trim_space-word b'[' profile (b']' ∷ []) refl bracket-IsWord

  -- A header opens the section of a profile.
  pub scan-header :
      scan_line (record { sections = ([], []) ∷ []; current = [] }) (header profile)
      ≡ record { sections = ([], []) ∷ (profile, []) ∷ []; current = profile }
  scan-header =
      scan_line_trimmed first (header profile)
      ∙ ap (scan_trimmed first) trim_header
      ∙ scan_trimmed-header first profile
      ∙ ap (λ name. open_section name first)
          (ap trim_space (take_all_but_last profile b']') ∙ trim_space-solid profile w.solid)
      ∙ open_section-new profile w.nonempty

  -- The scan within the section of the profile.
  abbrev pub within : Dict Text → Scan
  within kv = record { sections = ([], []) ∷ (profile, kv) ∷ []; current = profile }

  own_section-lookup : (kv : Dict Text) → lookup profile (([], []) ∷ (profile, kv) ∷ []) ≡ some kv
  unfolding lookup
  own_section-lookup kv =
      let other = text_eq_nil profile w.nonempty in
      let own = text_eq_refl profile in rw other (rw own refl)

  own_section : (kv : Dict Text) → section_of profile (([], []) ∷ (profile, kv) ∷ []) ≡ kv
  unfolding section_of
  own_section kv = ap (λ o. elim o [ none ↦ [] | some d ↦ d ]) (own_section-lookup kv)

  own_section-insert :
      (kv x : Dict Text)
      → insert profile x (([], []) ∷ (profile, kv) ∷ []) ≡ ([], []) ∷ (profile, x) ∷ []
  unfolding insert
  own_section-insert kv x =
      let other = text_eq_nil profile w.nonempty in
      let own = text_eq_refl profile in rw other (rw own refl)

  set_entry-within :
      (k v key : Text) (kv : Dict Text)
      → to_lower (trim_space k) ≡ key
      → set_entry (some (k, v)) (within kv) ≡ within (insert key (trim_space v) kv)
  unfolding set_entry
  set_entry-within k v key kv e = rw e (
      ap
        (λ d. record {
          sections = insert profile (insert key (trim_space v) d) (([], []) ∷ (profile, kv) ∷ []);
          current = profile;
        })
        (own_section kv)
      ∙ ap (λ d. record { sections = d; current = profile })
          (own_section-insert kv (insert key (trim_space v) kv)))

  module _ (value : Text) (v : IsWord value) where
    value-trimmed : trim_space (b' ' ∷ value) ≡ value
    unfolding trim_space is_space
    value-trimmed = trim_space-solid value v.solid

    scan-entry :
        (c : ℕ) (key rest : Text) (kv : Dict Text)
        → entry key value ≡ c ∷ (rest ++ value)
        → is_space c ≡ false
        → is_skipped (entry key value) ≡ false
        → is_header (entry key value) ≡ false
        → cut (entry key value) b'=' ≡ some (key ++ bytes " ", b' ' ∷ value)
        → to_lower (trim_space (key ++ bytes " ")) ≡ key
        → scan_line (within kv) (entry key value) ≡ within (insert key value kv)
    unfolding scan_trimmed
    scan-entry c key rest kv shape solid skipped header cuts lower =
        scan_line_trimmed (within kv) (entry key value)
        ∙ ap (scan_trimmed (within kv))
            (ap trim_space shape ∙ trim_space-word c rest value solid v ∙ sym shape)
        ∙ (rw skipped (
            rw header (
              rw cuts (
                set_entry-within (key ++ bytes " ") (b' ' ∷ value) key kv lower
                ∙ ap (λ t. within (insert key t kv)) value-trimmed))))

  pub scan-access :
      (value : Text) (kv : Dict Text)
      → IsWord value
      → scan_line (within kv) (entry access_name value) ≡ within (insert access_name value kv)
  unfolding is_skipped is_header cut to_lower trim_space
  scan-access value kv v =
      scan-entry value v b'a' access_name (bytes "ws_access_key_id = ") kv refl refl refl refl refl
        refl

  pub scan-secret :
      (value : Text) (kv : Dict Text)
      → IsWord value
      → scan_line (within kv) (entry secret_name value) ≡ within (insert secret_name value kv)
  unfolding is_skipped is_header cut to_lower trim_space
  scan-secret value kv v =
      scan-entry value v b'a' secret_name (bytes "ws_secret_access_key = ") kv refl refl refl refl
        refl refl

  pub scan-token :
      (value : Text) (kv : Dict Text)
      → IsWord value
      → scan_line (within kv) (entry token_name value) ≡ within (insert token_name value kv)
  unfolding is_skipped is_header cut to_lower trim_space
  scan-token value kv v =
      scan-entry value v b'a' token_name (bytes "ws_session_token = ") kv refl refl refl refl refl
        refl

  -- Every name finds the lone section.
  pub pick-lone :
      (q : Text) (e : Text × Text) (kv : Dict Text)
      → pick_profile (([], []) ∷ (profile, e ∷ kv) ∷ []) q ≡ some (e ∷ kv)
  unfolding pick_profile filled_section named_sections lookup
  pick-lone q e kv = let other = text_eq_nil profile w.nonempty in ground (arith, other)
