-- ===== src/Tcp/Address.antt =====
-- native/smolnet_core/src/{tcp,stack}.rs: which octets are an address, said apart from the decoders.
use smolnet.Prelude.{
  ℕ, zero, suc, ◌<◌, ◌≡◌, ◌↔◌, refl, true, false, List, [], ◌∷◌, length, take, get_or, arith, inl,
  inr, Bool-cases,
}
use smolnet.Tcp.{IpAddress, ipv4, ipv6, all_zero, ipv4_mapped}

-- An IPv6 form of an IPv4 address: ten octets of 0, then two of 255.
abbrev pub IsMapped : List ℕ → Type 0
IsMapped bytes =
    ((i : ℕ) → i < 10 → get_or bytes i 0 ≡ 0)
    × (get_or bytes 10 0 ≡ 255)
    × (get_or bytes 11 0 ≡ 255)

-- Four octets are an IPv4 address, and sixteen are an IPv6 address unless they map an IPv4 address.
abbrev pub IsAddress : List ℕ → IpAddress → Type 0
IsAddress bytes (ipv4 octets) = (octets ≡ bytes) × (length bytes ≡ 4)
IsAddress bytes (ipv6 octets) = (octets ≡ bytes) × (length bytes ≡ 16) × ¬ IsMapped bytes

take-zeros :
    (n : ℕ) (xs : List ℕ) → all_zero (take n xs) ≡ true → (i : ℕ) → i < n → get_or xs i 0 ≡ 0
take-zeros zero xs h i l = absurd (omega arith)
take-zeros (suc n) [] h i l = refl
take-zeros (suc n) (x ∷ xs) h zero l = ground arith
take-zeros (suc n) (x ∷ xs) h (suc i) l = take-zeros n xs (ground arith) i (omega arith)

zeros-take :
    (n : ℕ) (xs : List ℕ) → ((i : ℕ) → i < n → get_or xs i 0 ≡ 0) → all_zero (take n xs) ≡ true
zeros-take zero xs h = refl
zeros-take (suc n) [] h = refl
zeros-take (suc n) (x ∷ xs) h =
    let first : x ≡ 0 = h 0 (omega arith) in
    let rest = zeros-take n xs (λ i l. h (suc i) (omega arith)) in ground (arith, first, rest)

ipv4_mapped-IsMapped : (bytes : List ℕ) → (ipv4_mapped bytes ≡ true) ↔ IsMapped bytes
unfolding ipv4_mapped
ipv4_mapped-IsMapped bytes = (
  λ h. (take-zeros 10 bytes (ground arith), ground arith, ground arith),
  λ m. let zeros = zeros-take 10 bytes m.0 in ground (arith, zeros, m.1, m.2),
)

pub unmapped : (bytes : List ℕ) → (ipv4_mapped bytes ≡ false) ↔ ¬ IsMapped bytes
unmapped bytes =
    let m = ipv4_mapped-IsMapped bytes in
    (
      λ h mapped. let e = m.1 mapped in cc,
      λ h. elim (Bool-cases (ipv4_mapped bytes)) [ inl e ↦ absurd (h (m.0 e)) | inr e ↦ e ],
    )
