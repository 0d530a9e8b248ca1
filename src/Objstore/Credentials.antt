-- ===== src/Objstore/Credentials.antt =====
-- src/internal/objstore/creds.go: the AWS shared-credentials file that Velero keeps in a secret.
pub mod Complete
pub mod Render
pub mod RoundTrip
use airgap_snapshots.Base.{
  ℕ, ◌-◌, Bool, false, ◌&&◌, ◌||◌, List, [], ◌∷◌, Option, none, some, ◌==◌, leb, if◌then◌else◌,
  length, take, errorf, wrapf, external, Result, ok, err,
}
use airgap_snapshots.Base.Dict.{Dict, lookup, insert, get}
use airgap_snapshots.Base.Text.{Text, bytes, text_eq}
use airgap_snapshots.Base.Text.Search.{has_prefix, last?, cut, split}
use airgap_snapshots.Base.Text.Trim.{trim_space, to_lower}

abbrev pub Sections : Type 0
Sections = Dict (Dict Text)

-- The variables of the loop: `sections` and `current`.
pub record Scan : Type 0 where
  pub sections : Sections
  pub current : Text

abbrev pub ends_with_bracket : Text → Bool
ends_with_bracket line = elim (last? line) [ none ↦ false | some c ↦ c == b']' ]

-- `line[1 : len(line)-1]`, of a line with a bracket at each end.
abbrev pub inner : Text → Text
inner [] = []
inner (c ∷ rest) = take (length rest - 1) rest

section_of : Text → Sections → Dict Text
unfolding lookup
section_of name sections = elim (lookup name sections) [ none ↦ [] | some kv ↦ kv ]

-- A blank line or a comment.
unfoldable pub is_skipped : Text → Bool
unfolding text_eq has_prefix
is_skipped line = text_eq line [] || has_prefix line (b'#' ∷ []) || has_prefix line (b';' ∷ [])

unfoldable pub is_header : Text → Bool
unfolding has_prefix
is_header line = has_prefix line (b'[' ∷ []) && ends_with_bracket line

-- What a header does: the section of that name is the current one, and is made if need be.
unfoldable pub open_section : Text → Scan → Scan
unfolding lookup insert
open_section name s = record {
  sections = elim (lookup name s.sections) [
    | none ↦ insert name [] s.sections
    | some _ ↦ s.sections
  ];
  current = name;
}

-- What a line `k = v` does, given the answer of `strings.Cut`.
unfoldable pub set_entry : Option (Text × Text) → Scan → Scan
unfolding insert to_lower trim_space section_of
set_entry none s = s
set_entry (some (k, v)) s = record s {
  sections =
      insert s.current
        (insert (to_lower (trim_space k)) (trim_space v) (section_of s.current s.sections))
        s.sections;
}

-- One line, trimmed.
unfoldable pub scan_trimmed : Scan → Text → Scan
scan_trimmed s line =
    if is_skipped line
    then s
    else if is_header line
    then open_section (trim_space (inner line)) s
    else set_entry (cut line b'=') s

-- The body of the loop.
unfoldable pub scan_line : Scan → Text → Scan
unfolding trim_space scan_trimmed is_skipped is_header last? open_section set_entry cut
scan_line s raw = scan_trimmed s (trim_space raw)

-- The scanner's buffer is 1 MiB: a line that fills it is `bufio.ErrTooLong`.
abbrev max_line : ℕ
max_line = 1048576

unfoldable pub scan_lines : Scan → List Text → Result Scan
unfolding scan_line
scan_lines s [] = ok s
scan_lines s (line ∷ lines) =
    let rest = scan_lines (scan_line s line) lines in
    if leb max_line (length line) then err (external "bufio.Scanner: token too long") else rest

-- The non-empty named sections.
unfoldable pub named_sections : Sections → List (Dict Text)
unfolding text_eq
named_sections [] = []
named_sections ((name, kv) ∷ sections) =
    let rest = named_sections sections in
    if text_eq name [] || length kv == 0 then rest else kv ∷ rest

-- `if kv, ok := sections[name]; ok && len(kv) > 0`
unfoldable pub filled_section : Text → Sections → Option (Dict Text)
unfolding lookup
filled_section name sections = elim (lookup name sections) [
  | none ↦ none
  | some [] ↦ none
  | some (e ∷ kv) ↦ some (e ∷ kv)
]

abbrev lone_section : List (Dict Text) → Option (Dict Text)
lone_section [] = none
lone_section (kv ∷ []) = some kv
lone_section (kv ∷ kv' ∷ rest) = none

-- `pickProfile`: the named profile, else the keys before any header, else a lone section.
unfoldable pub pick_profile : Sections → Text → Option (Dict Text)
unfolding filled_section named_sections
pick_profile sections profile = elim (filled_section profile sections) [
  | some kv ↦ some kv
  | none ↦ elim (filled_section [] sections) [
    | some kv ↦ some kv
    | none ↦ lone_section (named_sections sections)
  ]
]

pub record Credentials : Type 0 where
  pub access_key : Text
  pub secret_key : Text
  pub session_token : Text

unfoldable pub credentials_of : Text → Option (Dict Text) → Result Credentials
unfolding get text_eq
credentials_of profile none =
    err (errorf "objstore: credentials profile %q not found" (profile ∷ []))
credentials_of profile (some kv) =
    let access = get (bytes "aws_access_key_id") kv in
    let secret = get (bytes "aws_secret_access_key") kv in
    let token = get (bytes "aws_session_token") kv in
    if text_eq access [] || text_eq secret []
    then err (
        errorf "objstore: credentials profile %q missing access key id or secret access key"
          (profile ∷ []))
    else ok (record { access_key = access; secret_key = secret; session_token = token })

-- `ParseAWSCredentials`, behind the scan, for the named profile
unfoldable pub parse_scanned : Text → Result Scan → Result Credentials
unfolding pick_profile credentials_of
parse_scanned name (err e) = err (wrapf "objstore: scan credentials: %w" [] e)
parse_scanned name (ok s) = credentials_of name (pick_profile s.sections name)

-- `ParseAWSCredentials`
unfoldable pub parse_aws_credentials : Text → Text → Result Credentials
unfolding scan_lines parse_scanned split text_eq
parse_aws_credentials body profile =
    parse_scanned (if text_eq profile [] then bytes "default" else profile)
      (scan_lines (record { sections = ([], []) ∷ []; current = [] }) (split body b'\n'))
