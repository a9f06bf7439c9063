-- ===== src/Stack.antt =====
-- native/smolnet_core/src/stack.rs: the stack that owns the tables, the device and smoltcp. Its child
-- modules model the parts that decide what is let in, what it costs and who is told.
pub mod Config
pub mod Configured
pub mod State
pub mod Packet
pub mod Whole
pub mod Admission
pub mod Ports
pub mod Bind
pub mod Sharing
pub mod History
pub mod Connections
pub mod Native
pub mod Shutdown
pub mod Reaping
pub mod Driving
pub mod DriveBounds
pub mod Removals
pub mod Dismantle
pub mod Drops
pub mod Ends
pub mod Clears
pub mod Slices
pub mod Farewell
pub mod Termination
pub mod Calls
pub mod Delivery
pub mod Tracking
pub mod Completion
pub mod Wakeups
pub mod Effort
pub mod Selects
pub mod Aborts
pub mod Deliveries
pub mod Waiting
pub mod Told
pub mod Listeners
pub mod Refresh
pub mod Members
pub mod Capacity
pub mod Opening
