-- ===== src/Waiter.antt =====
-- native/smolnet_core/src/waiter.rs: directions, operations, identities, and what a waiter is.
-- A pid and a reference are BEAM terms that the source only compares for equality, so numbers
-- stand for them. The ready flags are `Arc<AtomicBool>`s that a socket entry and its wakers share:
-- `Flags` is the memory that holds them, and a flag is a place in it.
pub mod Queue
pub mod Pending
pub mod Drain
use smolnet.Prelude.{
  ℕ, suc, ◌+◌, ◌≡◌, refl, Bool, true, false, ◌&&◌, ◌||◌, ltb, ◌==◌, arith, if◌then◌else◌,
}

pub data Direction : Type 0 where
  read write : Direction

pub data Operation : Type 0 where
  recv recvfrom accept send sendto connect : Operation

unfoldable pub direction : Operation → Direction
direction recv = read
direction recvfrom = read
direction accept = read
direction send = write
direction sendto = write
direction connect = write

-- The derived order and equality of the two enums.
abbrev pub direction_code : Direction → ℕ
direction_code read = 0
direction_code write = 1

abbrev pub operation_code : Operation → ℕ
operation_code recv = 0
operation_code recvfrom = 1
operation_code accept = 2
operation_code send = 3
operation_code sendto = 4
operation_code connect = 5

pub record SocketIdentity : Type 0 where
  pub id : ℕ
  pub generation : ℕ

pub record ReadyKey : Type 0 where
  pub identity : SocketIdentity
  pub direction : Direction

-- The derived order: by id, then by generation, then reads first.
unfoldable pub key_lt : ReadyKey → ReadyKey → Bool
key_lt a b =
    ltb a.identity.id b.identity.id
    || (a.identity.id == b.identity.id
        && (ltb a.identity.generation b.identity.generation
            || (a.identity.generation == b.identity.generation
                && ltb (direction_code a.direction) (direction_code b.direction))))

unfoldable pub key_eq : ReadyKey → ReadyKey → Bool
key_eq a b =
    a.identity.id == b.identity.id
    && (a.identity.generation == b.identity.generation
        && direction_code a.direction == direction_code b.direction)

pub key_eq_refl : (k : ReadyKey) → key_eq k k ≡ true
unfolding key_eq
key_eq_refl k = ground arith

pub key_eq→eq : (a b : ReadyKey) → key_eq a b ≡ true → a ≡ b
unfolding key_eq
key_eq→eq a b h = ground arith

pub record Waiter : Type 0 where
  pub pid : ℕ
  pub operation : Operation
  pub reference : ℕ

unfoldable pub matches : Waiter → Operation → ℕ → Bool
matches w operation reference =
    operation_code w.operation == operation_code operation && w.reference == reference

pub record Flags : Type 0 where
  pub fresh : ℕ
  pub cell : ℕ → Bool

-- `flag.store(v)`; `flag.swap(v)` also returns what `cell` held.
unfoldable pub store : ℕ → Bool → Flags → Flags
store a v f = record f { cell = λ b. if b == a then v else f.cell b }

-- `Arc::new(AtomicBool::new(false))`.
unfoldable pub new_flag : Flags → ℕ × Flags
unfolding store
new_flag f = (f.fresh, store f.fresh false (record f { fresh = suc f.fresh }))

pub cell-store :
    (a b : ℕ) (v : Bool) (f : Flags) → (store a v f).cell b ≡ (if b == a then v else f.cell b)
unfolding store
cell-store a b v f = refl
