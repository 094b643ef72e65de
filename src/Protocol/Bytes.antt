-- ===== src/Protocol/Bytes.antt =====
-- Byte slices as the protocol uses them: `get(..n)`, comparison, and the little-endian offset that
-- stands before a packet (`UOffsetT`, a `u32`).
use vita_oxi_pad.Base.{
  ℕ, ◌+◌, ◌*◌, ◌/◌, ◌%◌, ◌^◌, ◌≤◌, ◌<◌, ◌≡◌, refl, ◌↔◌, Bool, true, false, ◌&&◌, List, [], ◌∷◌,
  ◌++◌, arith, leb, ◌==◌, length, take, length-append, take-append_le, inl, inr, Bool-cases,
}

-- `size_of::<UOffsetT>()`
abbrev pub offset_size : ℕ
offset_size = 4

-- `HEARTBEAT_MAGIC` of client/packages/protocol/src/lib.rs.
abbrev pub heartbeat_magic : List ℕ
heartbeat_magic = 0xff ∷ 0xff ∷ 0xff ∷ 0xff ∷ 0x42 ∷ 0x54 ∷ []

abbrev pub heartbeat_size : ℕ
heartbeat_size = length heartbeat_magic

-- `xs == ys` on slices.
abbrev pub eq_bytes : List ℕ → List ℕ → Bool
eq_bytes [] [] = true
eq_bytes [] (y ∷ ys) = false
eq_bytes (x ∷ xs) [] = false
eq_bytes (x ∷ xs) (y ∷ ys) = x == y && eq_bytes xs ys

-- `data.get(..n) == Some(ys)`
unfoldable pub front_is : ℕ → List ℕ → List ℕ → Bool
front_is n ys xs = leb n (length xs) && eq_bytes (take n xs) ys

-- `UOffsetT::from_le_bytes`, of a slice of four bytes.
unfoldable pub from_le_bytes : List ℕ → ℕ
from_le_bytes [] = 0
from_le_bytes (b ∷ bs) = b + 256 * from_le_bytes bs

-- The four bytes of a `u32`, lowest first.
unfoldable pub to_le_bytes : ℕ → List ℕ
to_le_bytes n = (n % 256) ∷ (n / 256 % 256) ∷ (n / 65536 % 256) ∷ (n / 16777216 % 256) ∷ []

abbrev pub IsByte : ℕ → Type 0
IsByte b = b < 256

pub from_le_bytes-to_le_bytes : (n : ℕ) → n < 2 ^ 32 → from_le_bytes (to_le_bytes n) ≡ n
unfolding from_le_bytes to_le_bytes
from_le_bytes-to_le_bytes n h = omega arith

pub length-to_le_bytes : (n : ℕ) → length (to_le_bytes n) ≡ 4
unfolding to_le_bytes
length-to_le_bytes n = refl

pub eq_bytes_iff : (xs ys : List ℕ) → (eq_bytes xs ys ≡ true) ↔ (xs ≡ ys)
eq_bytes_iff [] [] = ground arith
eq_bytes_iff [] (y ∷ ys) = ground arith
eq_bytes_iff (x ∷ xs) [] = ground arith
eq_bytes_iff (x ∷ xs) (y ∷ ys) = ground (arith, eq_bytes_iff xs ys)

-- The first four bytes of the heartbeat read as a length.
abbrev pub heartbeat_offset : ℕ
heartbeat_offset = 0xffff_ffff

heartbeat_announces :
    (bytes : List ℕ)
    → front_is heartbeat_size heartbeat_magic bytes ≡ true
    → from_le_bytes (take 4 bytes) ≡ heartbeat_offset
unfolding front_is from_le_bytes
heartbeat_announces [] h = cc
heartbeat_announces (a ∷ []) h = cc
heartbeat_announces (a ∷ b ∷ []) h = cc
heartbeat_announces (a ∷ b ∷ c ∷ []) h = cc
heartbeat_announces (a ∷ b ∷ c ∷ d ∷ bs) h = ground arith

pub front_is_heartbeat :
    (rest : List ℕ) → front_is heartbeat_size heartbeat_magic (heartbeat_magic ++ rest) ≡ true
unfolding front_is
front_is_heartbeat rest = ground arith

pub front_is-length :
    (bytes : List ℕ) → front_is heartbeat_size heartbeat_magic bytes ≡ true → 6 ≤ length bytes
unfolding front_is
front_is-length bytes h = ground arith

-- More bytes leave the test for a heartbeat as it was, once six are there or the first four differ.
pub front_is-append_long :
    (bytes more : List ℕ)
    → 6 ≤ length bytes
    → front_is heartbeat_size heartbeat_magic (bytes ++ more)
      ≡ front_is heartbeat_size heartbeat_magic bytes
unfolding front_is
front_is-append_long bytes more h =
    rw (take-append_le 6 bytes more h) (ground (arith, length-append bytes more))

pub front_is_other :
    (bytes : List ℕ)
    → from_le_bytes (take 4 bytes) < heartbeat_offset
    → front_is heartbeat_size heartbeat_magic bytes ≡ false
front_is_other bytes h = elim (Bool-cases (front_is heartbeat_size heartbeat_magic bytes)) [
  | inl e ↦ absurd (omega (arith, heartbeat_announces bytes e))
  | inr e ↦ e
]
