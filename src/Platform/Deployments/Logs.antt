-- ===== src/Platform/Deployments/Logs.antt =====
-- Appending to the log of a deployment.
use Prim.Native.String
use sarra.Common.{String, if◌then◌else◌}
use sarra.Common.Dict
use sarra.Platform.Codec.{Row}
use sarra.Platform.Table.{has_uuid}
use sarra.Platform.Deployments.{with_logs}

module _ (uuid line now : String) where
  abbrev logged : Row → Row
  logged row = if has_uuid uuid row then with_logs line now row else row
