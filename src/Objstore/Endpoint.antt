-- ===== src/Objstore/Endpoint.antt =====
-- src/internal/objstore/minio.go: `normalizeEndpoint`. `url.Parse` of Go's net/url is an argument: it
-- gives the host and the scheme, or nothing on an error.
use airgap_snapshots.Base.{Bool, false, [], Option, none, some, if◌then◌else◌, not}
use airgap_snapshots.Base.Text.{Text, bytes, text_eq}
use airgap_snapshots.Base.Text.Search.{contains}
use airgap_snapshots.Base.Text.Trim.{trim_right}
use airgap_snapshots.Base.Text.FilePath.{slash}

abbrev pub UrlParser : Type 0
UrlParser = Text → Option (record { host : Text; scheme : Text })

-- The fall-back: a bare host:port is plain text.
unfoldable pub bare_endpoint : Text → Text × Bool
unfolding trim_right
bare_endpoint raw = (trim_right raw slash, false)

module _ (url_parse : UrlParser) where
  unfoldable pub normalize_endpoint : Text → Text × Bool
  unfolding bare_endpoint contains text_eq
  normalize_endpoint raw =
      if text_eq raw []
      then ([], false)
      else if contains raw (bytes "://")
      then (elim (url_parse raw) [
        | none ↦ bare_endpoint raw
        | some u ↦
            if not (text_eq u.host [])
            then (u.host, text_eq u.scheme (bytes "https"))
            else bare_endpoint raw
      ])
      else bare_endpoint raw
