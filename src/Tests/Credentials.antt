-- ===== src/Tests/Credentials.antt =====
-- src/internal/objstore/objstore_test.go: the credentials file.
use airgap_snapshots.Base.{◌≡◌, refl, ok, arith}
use airgap_snapshots.Base.Text.{bytes}
use airgap_snapshots.Base.Text.Trim.{is_space}
use airgap_snapshots.Objstore.Credentials.{parse_aws_credentials}
use airgap_snapshots.Objstore.Credentials.Render.{render}
use airgap_snapshots.Objstore.Credentials.RoundTrip.{parse_aws_credentials-render}

parse_aws_credentials-render_example :
    parse_aws_credentials
      (render
        (bytes "dr")
        (record { access_key = bytes "AK"; secret_key = bytes "s=k"; session_token = bytes "t#" }))
      (bytes "velero")
    ≡ ok (record { access_key = bytes "AK"; secret_key = bytes "s=k"; session_token = bytes "t#" })
unfolding is_space
parse_aws_credentials-render_example =
    parse_aws_credentials-render (bytes "dr") (bytes "velero")
      (record { access_key = bytes "AK"; secret_key = bytes "s=k"; session_token = bytes "t#" })
      (record {
        profile_word = record { nonempty = λ e. cc e; solid = (refl, (refl, tt)) };
        access_word = record { nonempty = λ e. cc e; solid = (refl, (refl, tt)) };
        secret_word = record { nonempty = λ e. cc e; solid = (refl, (refl, (refl, tt))) };
        token_solid = (refl, (refl, tt));
        fits = (omega arith, (omega arith, (omega arith, (omega arith, tt))));
      })
