-- ===== src/Sessions/Keys.antt =====
-- The session key that both trackers build.
use Prim.Native.String.{◌++◌ as ◌<>◌}
use avengers_fyp_is.Common.{String, Option, none, some, string_eq, ◌==◌, if◌then◌else◌}

-- `name or '?'`
abbrev or_unknown : Option String → String
or_unknown none = "?"
or_unknown (some name) = if name == "" then "?" else name

unfoldable pub session_key : Option String → Option String → String → String
session_key sender target direction =
    or_unknown sender <> "->" <> or_unknown target <> ":" <> direction
