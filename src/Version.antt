-- ===== src/Version.antt =====
-- internal/version/version.go: the text of the build metadata.
use paperless_ngx_operator.Prelude.{String, ◌<>◌, ◌==◌, if◌then◌else◌}

-- `String`, where the linker has stamped the version and the commit.
unfoldable pub version_string : String → String → String
version_string version commit =
    let v = if version == "" then "dev" else version in
    let c = if commit == "" then "unknown" else commit in v <> (" (" <> (c <> ")"))
