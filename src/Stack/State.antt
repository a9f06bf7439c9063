-- ===== src/Stack/State.antt =====
-- native/smolnet_core/src/stack.rs: the part of `NativeStack` that opening and naming sockets reads and
-- writes. Of smoltcp's `SocketSet` it keeps the handles; a map of the source is
-- its entries in key order, `closing_tcp` its ids.
use smolnet.Prelude.{ℕ, ◌≡◌, Bool, true, false, List, [], ◌∷◌, if◌then◌else◌, ◌==◌, arith}
use smolnet.Prelude.Map.{Map}
use smolnet.Limits.{Limits}
use smolnet.SocketTable.{State}
use smolnet.Tcp.{TcpRecord, ListenerRecord}
use smolnet.Udp.{UdpRecord}

pub data Lifecycle : Type 0 where
  running shutting_down shutdown : Lifecycle

-- `matches!(self.lifecycle, Lifecycle::Running)`.
abbrev pub is_running : Lifecycle → Bool
is_running running = true
is_running shutting_down = false
is_running shutdown = false

pub record StackSockets : Type 0 where
  pub limits : Limits
  pub lifecycle : Lifecycle
  pub sockets : List ℕ
  pub socket_table : State
  pub tcp_records : Map TcpRecord
  pub tcp_listeners : Map ListenerRecord
  pub udp_records : Map UdpRecord
  pub closing_tcp : List ℕ
  pub next_ephemeral_port : ℕ
  pub next_udp_ephemeral_port : ℕ

-- `SocketSet::remove`.
unfoldable pub remove_handle : ℕ → List ℕ → List ℕ
remove_handle h [] = []
remove_handle h (x ∷ xs) = if x == h then xs else x ∷ remove_handle h xs

pub remove_handle-cons : (h : ℕ) (xs : List ℕ) → remove_handle h (h ∷ xs) ≡ xs
unfolding remove_handle
remove_handle-cons h xs = ground arith
