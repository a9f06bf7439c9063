-- ===== src/Stack/Connections.antt =====
-- native/smolnet_core/src/stack.rs: the indices of the TCP records of a stack (connections, closing
-- sockets and their deadlines), and the sweep that reaps closing sockets. A map is its entries in key
-- order. What the kernel of smoltcp knows of a socket is the argument `Tcp`.
use smolnet.Prelude.{
  ℕ, Bool, true, false, not, ◌&&◌, Option, none, some, List, [], ◌∷◌, ◌++◌, ◌==◌, if◌then◌else◌,
  replicate,
}
use smolnet.Prelude.Int.{ℤ, ltb_ℤ}
use smolnet.Waiter.{SocketIdentity}
use smolnet.Tcp.{AddressFamily, inet, inet6, IpAddress, ipv4, ipv6, IpEndpoint}

pub record ConnectionKey : Type 0 where
  pub family : AddressFamily
  pub local_address : List ℕ
  pub local_port : ℕ
  pub remote_address : List ℕ
  pub remote_port : ℕ

-- An IPv4 address has four octets: its key is 16 long.
unfoldable pub address_key : IpAddress → List ℕ
address_key (ipv4 octets) = octets ++ replicate 12 0
address_key (ipv6 octets) = octets

abbrev pub key_family : IpAddress → AddressFamily
key_family (ipv4 octets) = inet
key_family (ipv6 octets) = inet6

unfoldable pub connection_key : IpEndpoint → IpEndpoint → ConnectionKey
connection_key local remote = record {
  family = key_family local.addr;
  local_address = address_key local.addr;
  local_port = local.port;
  remote_address = address_key remote.addr;
  remote_port = remote.port;
}

abbrev pub family_eq : AddressFamily → AddressFamily → Bool
family_eq inet inet = true
family_eq inet inet6 = false
family_eq inet6 inet = false
family_eq inet6 inet6 = true

unfoldable pub octets_eq : List ℕ → List ℕ → Bool
octets_eq [] [] = true
octets_eq [] (y ∷ ys) = false
octets_eq (x ∷ xs) [] = false
octets_eq (x ∷ xs) (y ∷ ys) = x == y && octets_eq xs ys

-- The derived equality.
unfoldable pub connection_eq : ConnectionKey → ConnectionKey → Bool
unfolding octets_eq
connection_eq a b =
    family_eq a.family b.family
    && (octets_eq a.local_address b.local_address
        && (a.local_port == b.local_port
            && (octets_eq a.remote_address b.remote_address && a.remote_port == b.remote_port)))

unfoldable pub remove_connection :
    ConnectionKey → List (ConnectionKey × SocketIdentity) → List (ConnectionKey × SocketIdentity)
unfolding connection_eq
remove_connection k [] = []
remove_connection k ((j, i) ∷ m) = if connection_eq j k then m else (j, i) ∷ remove_connection k m

-- `closing_tcp.remove`.
unfoldable pub remove_id : ℕ → List ℕ → List ℕ
remove_id k [] = []
remove_id k (j ∷ js) = if j == k then js else j ∷ remove_id k js

-- The derived equality of an instant.
unfoldable pub instant_eq : ℤ → ℤ → Bool
instant_eq a b = not (ltb_ℤ a b) && not (ltb_ℤ b a)

unfoldable pub remove_deadline : ℤ → ℕ → List (ℤ × ℕ) → List (ℤ × ℕ)
unfolding instant_eq
remove_deadline at k [] = []
remove_deadline at k ((t, j) ∷ ds) =
    if instant_eq t at && j == k then ds else (t, j) ∷ remove_deadline at k ds

unfoldable pub next_close_deadline : List (ℤ × ℕ) → Option ℤ
next_close_deadline [] = none
next_close_deadline ((t, j) ∷ ds) = some t

-- `closing_sweep_cursor`, `closing_cleanup_pending` and `closing_cleanup_resweep`.
pub record ClosingSweep : Type 0 where
  pub cursor : Option ℕ
  pub pending : Bool
  pub resweep : Bool

abbrev pub no_closing : List ℕ → Bool
no_closing [] = true
no_closing (i ∷ is) = false

unfoldable pub request_closing_cleanup : List ℕ → ClosingSweep → ClosingSweep
request_closing_cleanup closing sweep =
    if no_closing closing
    then sweep
    else if sweep.pending
    then record sweep { resweep = true }
    else record sweep { pending = true; cursor = none }
