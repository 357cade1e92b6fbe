-- ===== src/Pipeline/Offsets/Tests.antt =====
-- The law of the offsets at a concrete registry.
use avengers_fyp_is.Common.{[], ◌∷◌}
use avengers_fyp_is.Pipeline.Offsets.{FileId, Offsets}

abbrev log_file : FileId
log_file = record { dev = 1; ino = 7 }

abbrev registry : Offsets
registry = (log_file, record { source = "/var/magic.log"; offset = 40; timestamp = 5 }) ∷ []
