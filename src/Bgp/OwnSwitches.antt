-- ===== src/Bgp/OwnSwitches.antt =====
-- That `teardownAll` of microovn/bgp/redirect.go deletes the logical switches of the local chassis.
use microovn.Prelude.{String}
use microovn.Text.{◌<>◌}
use microovn.Effect.{Error, errorf}

abbrev failure : String → Error → Error
failure switch e = errorf (("failed to delete Logical Switch '" <> switch <> "': ") <> e.message)
