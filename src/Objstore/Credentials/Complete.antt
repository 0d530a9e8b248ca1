-- ===== src/Objstore/Credentials/Complete.antt =====
-- src/internal/objstore/creds.go: the credentials that `ParseAWSCredentials` returns.
use mathlib.Core.Path.{subst}
use airgap_snapshots.Base.{
  ◌≡◌, ◌≢◌, refl, Bool, true, false, ◌||◌, [], ◌∷◌, Option, none, some, arith, if◌then◌else◌,
  Failure, errorf, Result, ok, err,
}
use airgap_snapshots.Base.Dict.{Dict, get}
use airgap_snapshots.Base.Text.{Text, bytes, text_eq, text_eq_iff}
use airgap_snapshots.Objstore.Credentials.{
  Scan, Credentials, credentials_of, parse_scanned, parse_aws_credentials, pick_profile,
}

-- Neither key is empty.
pub record IsComplete (c : Credentials) : Type 0 where
  pub access : c.access_key ≢ []
  pub secret : c.secret_key ≢ []

nonempty : (t : Text) → text_eq t [] ≡ false → t ≢ []
nonempty t h e = ground (arith, text_eq_iff t [])

checked :
    (a b : Bool) (e : Failure) (made c : Credentials)
    → text_eq made.access_key [] ≡ a
    → text_eq made.secret_key [] ≡ b
    → (if a || b then err e else ok made) ≡ ok c
    → IsComplete c
checked true b e made c h k r = cc r
checked false true e made c h k r = cc r
checked false false e made c h k r =
    let same : made ≡ c = cc r in
    subst IsComplete same
      (record { access = nonempty made.access_key h; secret = nonempty made.secret_key k })

credentials_of-IsComplete :
    (profile : Text) (kv : Option (Dict Text)) (c : Credentials)
    → credentials_of profile kv ≡ ok c
    → IsComplete c
unfolding credentials_of
credentials_of-IsComplete profile none c h = cc h
credentials_of-IsComplete profile (some kv) c h =
    let made : Credentials = record {
      access_key = get (bytes "aws_access_key_id") kv;
      secret_key = get (bytes "aws_secret_access_key") kv;
      session_token = get (bytes "aws_session_token") kv;
    } in
    checked (text_eq made.access_key []) (text_eq made.secret_key [])
      (errorf "objstore: credentials profile %q missing access key id or secret access key"
        (profile ∷ []))
      made c refl refl h

-- Credentials that are returned without an error have an access key and a secret key, neither empty,
-- whatever the file and the profile.
pub parse_aws_credentials-IsComplete :
    (body profile : Text) (c : Credentials)
    → parse_aws_credentials body profile ≡ ok c
    → IsComplete c
unfolding parse_aws_credentials parse_scanned
parse_aws_credentials-IsComplete body profile c h =
    go (if text_eq profile [] then bytes "default" else profile) _ h
  where
    go : (name : Text) (r : Result Scan) → parse_scanned name r ≡ ok c → IsComplete c
    go name (err e) k = cc k
    go name (ok s) k = credentials_of-IsComplete name (pick_profile s.sections name) c k
