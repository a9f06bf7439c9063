-- ===== src/Stack/DriveBounds.antt =====
-- native/smolnet_core/src/stack.rs: one drive stays within the limits of its call.
use smolnet.Prelude.Map.{Map}
use smolnet.Limits.{Limits}
