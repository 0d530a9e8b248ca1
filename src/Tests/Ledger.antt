-- ===== src/Tests/Ledger.antt =====
-- A bucket of one object with conditional uploads, credentials, and flags.
use airgap_snapshots.Base.{
  ◌≡◌, refl, sym, ap, Bool, true, false, ◌&&◌, [], ◌∷◌, Option, none, some, arith, Result, ok, err,
  external,
}
use airgap_snapshots.Base.Integer.{pos}
use airgap_snapshots.Base.Text.{Text, bytes, text_eq, text_eq_iff}
use airgap_snapshots.Base.Text.Search.{join}
use airgap_snapshots.Base.Text.Trim.{is_space}
use airgap_snapshots.Objstore.{ObjectInfo}
use airgap_snapshots.Objstore.Credentials.{Credentials, parse_aws_credentials}
use airgap_snapshots.Objstore.Credentials.Complete.{IsComplete, parse_aws_credentials-IsComplete}
use airgap_snapshots.Objstore.Minio.{MinioLibrary, Bucket, unquote, ledger_options, put_ledger}
use airgap_snapshots.Objstore.Minio.Ledger.{Conditional, IsCurrent, put_ledger-IsCurrent}
use airgap_snapshots.Main.{split_csv}
use airgap_snapshots.Main.Flags.{split_csv-join}

-- The etag of the object, if there is one.
abbrev Slot : Type 0
Slot = Option Text

abbrev matches : Option Text → Slot → Bool
matches none w = true
matches (some t) none = false
matches (some t) (some s) = text_eq t s

abbrev is_free : Option Text → Slot → Bool
is_free none w = true
is_free (some t) none = true
is_free (some t) (some s) = false

abbrev info : ObjectInfo
info = record { key = []; size = pos 0; etag = bytes "\"e2\""; last_modified = 0 }

abbrev uploaded : Bool → Slot → Result ObjectInfo × Slot
uploaded true w = (ok info, some (bytes "e2"))
uploaded false w = (err (external "precondition"), w)

abbrev bucket : Bucket Slot
bucket = record {
  list_objects = λ prefix w. ([], w);
  get_object = λ key w. (err (external "unused"), w);
  put_object = λ key r n options w.
      uploaded (matches options.match_etag w && is_free options.match_etag_except w) w;
  stat_object = λ key w. (err (external "unused"), w);
}

abbrev library : MinioLibrary Slot
library = record {
  default_transport = ok tt;
  has_certificates = λ pem. true;
  connect = λ host options name. err (external "unused");
  error_response = λ e. record { code = bytes "PreconditionFailed"; status_code = 412 };
}

succeeded : (b : Bool) (w : Slot) (i : ObjectInfo) → (uploaded b w).0 ≡ ok i → b ≡ true
succeeded true w i h = refl
succeeded false w i h = cc h

matches-some : (t : Text) (w : Slot) → matches (some t) w ≡ true → w ≡ some t
matches-some t none h = cc h
matches-some t (some s) h = ap some (sym ((text_eq_iff t s).0 h))

is_free-some : (t : Text) (w : Slot) → is_free (some t) w ≡ true → w ≡ none
is_free-some t none h = refl
is_free-some t (some s) h = cc h

both : (a b : Bool) → (a && b) ≡ true → (a ≡ true) × (b ≡ true)
both a b h = (ground arith, ground arith)

conditional : Conditional library bucket [] (λ w key. w)
conditional = record {
  match = λ key r n options w i t h e.
      let (m, f) =
        both (matches options.match_etag w) (is_free options.match_etag_except w)
          (succeeded _ w i h) in
      matches-some t w (rw e at m);
  absent = λ key r n options w i h e.
      let (m, f) =
        both (matches options.match_etag w) (is_free options.match_etag_except w)
          (succeeded _ w i h) in
      is_free-some (bytes "*") w (rw e at f);
}

put_ledger-IsCurrent_example :
    IsCurrent library bucket [] (λ w key. w) (bytes "l") (bytes "e1") (some (bytes "e1"))
unfolding put_ledger ledger_options text_eq unquote
put_ledger-IsCurrent_example =
    put_ledger-IsCurrent library bucket [] (λ w key. w) conditional (bytes "l") (bytes "{}")
      (bytes "e1") (some (bytes "e1")) (bytes "e2") refl

abbrev credentials : Credentials
credentials = record { access_key = bytes "AKIA"; secret_key = bytes "s"; session_token = [] }

parse_aws_credentials-IsComplete_example : IsComplete credentials
unfolding parse_aws_credentials
parse_aws_credentials-IsComplete_example =
    parse_aws_credentials-IsComplete
      (bytes "[p]\naws_access_key_id=AKIA\naws_secret_access_key = s\n") [] credentials refl

split_csv-join_example :
    split_csv (join (bytes "a:1" ∷ bytes "b" ∷ []) b',') ≡ bytes "a:1" ∷ bytes "b" ∷ []
unfolding is_space
split_csv-join_example =
    split_csv-join (bytes "a:1" ∷ bytes "b" ∷ [])
      (
        record { nonempty = λ e. cc e; solid = (refl, (refl, (refl, tt))) },
        (record { nonempty = λ e. cc e; solid = (refl, tt) }, tt),
      )
      ((refl, (refl, (refl, tt))), ((refl, tt), tt))

two_addresses : split_csv (bytes "a:1, ,b:2") ≡ bytes "a:1" ∷ bytes "b:2" ∷ []
unfolding split_csv
two_addresses = refl
