-- ===== src/Platform/Cascade/Orphans.antt =====
-- What `delete_resource_cascade` of syte/platform/store.py leaves behind.
use sarra.Value.{Value}
use sarra.Platform.Cascade.Gone.{Gone}
