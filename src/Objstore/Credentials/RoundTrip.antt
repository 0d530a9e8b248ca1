-- ===== src/Objstore/Credentials/RoundTrip.antt =====
-- src/internal/objstore/creds.go: rendering credentials and parsing the file.
use airgap_snapshots.Base.{
  ◌<◌, ◌≡◌, ◌≢◌, refl, ap, ◌∙◌, false, List, [], ◌∷◌, ◌++◌, some, arith, All, All-append, All-imp,
  ◌==◌, length, if◌then◌else◌, ok,
}
use airgap_snapshots.Base.Dict.{Dict, insert, get, lookup}
use airgap_snapshots.Base.Text.{Text, bytes, text_eq}
use airgap_snapshots.Base.Text.Search.{split, split-join, split-Lacks, Lacks}
use airgap_snapshots.Base.Text.Trim.{is_space}
use airgap_snapshots.Objstore.Credentials.{
  Scan, Credentials, max_line, credentials_of, scan_line, scan_lines, parse_scanned,
  parse_aws_credentials,
}
use airgap_snapshots.Base.Text.Words.{IsWord}
use airgap_snapshots.Objstore.Credentials.Render.{
  first, header, entry, access_name, secret_name, token_name, token_lines, lines_of, render, within,
  scan-header, scan-access, scan-secret, scan-token, pick-lone,
}

-- Credentials that fit the format: words, on lines that fit the scanner's buffer.
pub record IsRenderable (profile : Text) (c : Credentials) : Type 0 where
  pub profile_word : IsWord profile
  pub access_word : IsWord c.access_key
  pub secret_word : IsWord c.secret_key
  pub token_solid : All (λ x. is_space x ≡ false) c.session_token
  pub fits : All (λ l. length l < max_line) (lines_of profile c)

-- What the section holds of a session token.
abbrev token_entries : Text → Dict Text
token_entries [] = []
token_entries (x ∷ token) = (token_name, x ∷ token) ∷ []

abbrev entries_of : Credentials → Dict Text
entries_of c =
    (access_name, c.access_key) ∷ (secret_name, c.secret_key) ∷ token_entries c.session_token

scan_lines-step :
    (s t : Scan) (line : Text) (lines : List Text)
    → length line < max_line
    → scan_line s line ≡ t
    → scan_lines s (line ∷ lines) ≡ scan_lines t lines
unfolding scan_lines
scan_lines-step s t line lines h e = ground (arith, h, e)

scan-token_lines :
    (profile : Text) (w : IsWord profile) (a s token : Text)
    → All (λ x. is_space x ≡ false) token
    → All (λ l. length l < max_line) (token_lines token)
    → scan_lines (within profile w ((access_name, a) ∷ (secret_name, s) ∷ [])) (token_lines token)
      ≡ ok (within profile w ((access_name, a) ∷ (secret_name, s) ∷ token_entries token))
unfolding scan_lines insert text_eq
scan-token_lines profile w a s [] h fits = refl
scan-token_lines profile w a s (x ∷ token) h (fit, _) =
    scan_lines-step (within profile w ((access_name, a) ∷ (secret_name, s) ∷ [])) _
      (entry token_name (x ∷ token)) [] fit
      (scan-token profile w (x ∷ token) ((access_name, a) ∷ (secret_name, s) ∷ [])
        (record { nonempty = λ e. cc e; solid = h }))

-- The scan of the lines leaves one section with the credentials.
scan-lines_of :
    (profile : Text) (c : Credentials) (r : IsRenderable profile c)
    → scan_lines first (lines_of profile c) ≡ ok (within profile r.profile_word (entries_of c))
unfolding insert text_eq
scan-lines_of profile c r =
    let w = r.profile_word in
    let (header_fits, (access_fits, (secret_fits, token_fits))) = r.fits in
    scan_lines-step first (within profile w []) (header profile) _ header_fits
      (scan-header profile w)
    ∙ scan_lines-step (within profile w []) (within profile w ((access_name, c.access_key) ∷ []))
        (entry access_name c.access_key) _ access_fits
        (scan-access profile w c.access_key [] r.access_word)
    ∙ scan_lines-step (within profile w ((access_name, c.access_key) ∷ []))
        (within profile w ((access_name, c.access_key) ∷ (secret_name, c.secret_key) ∷ []))
        (entry secret_name c.secret_key) _ secret_fits
        (scan-secret profile w c.secret_key ((access_name, c.access_key) ∷ []) r.secret_word)
    ∙ scan-token_lines profile w c.access_key c.secret_key c.session_token r.token_solid token_fits

solid-Lacks : (t : Text) → All (λ x. is_space x ≡ false) t → Lacks b'\n' t
unfolding is_space
solid-Lacks t h =
    All-imp (λ x. is_space x ≡ false) (λ x. (x == b'\n') ≡ false) t (λ x p. ground (arith, p)) h

entry-Lacks :
    (key value : Text)
    → Lacks b'\n' key
    → All (λ x. is_space x ≡ false) value
    → Lacks b'\n' (entry key value)
entry-Lacks key value k v =
    All-append (λ x. (x == b'\n') ≡ false) key (bytes " = " ++ value) k
      (refl, (refl, (refl, solid-Lacks value v)))

name-Lacks : Lacks b'\n' access_name × (Lacks b'\n' secret_name × Lacks b'\n' token_name)
unfolding split
name-Lacks =
    let (a, _) = split-Lacks access_name b'\n' in
    let (s, _) = split-Lacks secret_name b'\n' in
    let (t, _) = split-Lacks token_name b'\n' in (a, (s, t))

token_lines-Lacks :
    (token : Text) → All (λ x. is_space x ≡ false) token → All (Lacks b'\n') (token_lines token)
token_lines-Lacks [] h = tt
token_lines-Lacks (x ∷ token) h =
    let (_, (_, t)) = name-Lacks in (entry-Lacks token_name (x ∷ token) t h, tt)

-- No line has a line break in it.
lines_of-Lacks :
    (profile : Text) (c : Credentials)
    → IsRenderable profile c
    → All (Lacks b'\n') (lines_of profile c)
lines_of-Lacks profile c r =
    let (a, (s, _)) = name-Lacks in
    (
      (
        refl,
        All-append (λ x. (x == b'\n') ≡ false) profile (b']' ∷ [])
            (solid-Lacks profile r.profile_word.solid) (refl, tt),
      ),
      (
        entry-Lacks access_name c.access_key a r.access_word.solid,
        (
          entry-Lacks secret_name c.secret_key s r.secret_word.solid,
          token_lines-Lacks c.session_token r.token_solid,
        ),
      ),
    )

credentials_of-entries_of :
    (q access secret token : Text)
    → access ≢ []
    → secret ≢ []
    → credentials_of q (some ((access_name, access) ∷ (secret_name, secret) ∷ token_entries token))
      ≡ ok (record { access_key = access; secret_key = secret; session_token = token })
unfolding credentials_of get lookup text_eq
credentials_of-entries_of q [] secret token a s = absurd (a refl)
credentials_of-entries_of q (x ∷ access) [] token a s = absurd (s refl)
credentials_of-entries_of q (x ∷ access) (y ∷ secret) [] a s = refl
credentials_of-entries_of q (x ∷ access) (y ∷ secret) (z ∷ token) a s = refl

-- Credentials rendered as a file of one profile are parsed back, under whatever profile is asked
-- for: the section is the named one, or the lone one that a missing name falls back to. The profile
-- and both keys are words, the session token has no white space, and each line fits the buffer.
pub parse_aws_credentials-render :
    (profile q : Text) (c : Credentials)
    → IsRenderable profile c
    → parse_aws_credentials (render profile c) q ≡ ok c
unfolding parse_aws_credentials parse_scanned
parse_aws_credentials-render profile q c r =
    let name = if text_eq q [] then bytes "default" else q in
    rw (split-join (header profile) _ b'\n' (lines_of-Lacks profile c r)) (
      rw (scan-lines_of profile c r) (
        ap (credentials_of name) (
          pick-lone profile r.profile_word name (access_name, c.access_key)
            ((secret_name, c.secret_key) ∷ token_entries c.session_token))
        ∙ credentials_of-entries_of name c.access_key c.secret_key c.session_token
            r.access_word.nonempty r.secret_word.nonempty))
