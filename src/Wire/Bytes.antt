-- ===== src/Wire/Bytes.antt =====
-- Bytes on a socket: what `memcpy` of a `uint32_t` stores on a little-endian machine, and what
-- `recv(..., MSG_WAITALL)` takes off a stream.
use tp_so_delibird.Common.{
  ℕ, ◌+◌, ◌*◌, ◌/◌, ◌%◌, ◌^◌, ◌<◌, ◌≡◌, refl, List, [], ◌∷◌, ◌++◌, Option, none, some, arith, leb,
  if◌then◌else◌, length, take, drop, length-append, take-append, drop-append, ap,
}

abbrev pub Bytes : Type 0
Bytes = List ℕ

abbrev pub IsU32 : ℕ → Type 0
IsU32 n = n < 2 ^ 32

pub u32_bytes : ℕ → Bytes
u32_bytes n = (n % 256) ∷ (n / 256 % 256) ∷ (n / 65536 % 256) ∷ (n / 16777216 % 256) ∷ []

-- A program that reads from a connection. `none`: the peer closed it in the middle.
abbrev pub Recv {ℓ} : Type ℓ → Type ℓ
Recv A = Bytes → Option (A × Bytes)

infixl 5 ◌>>=◌
abbrev pub ◌>>=◌ {ℓ κ} : {A : Type ℓ} {B : Type κ} → Recv A → (A → Recv B) → Recv B
◌>>=◌ m f s = elim (m s) [ none ↦ none | some (a, s') ↦ f a s' ]

abbrev pub pure {ℓ} : {A : Type ℓ} → A → Recv A
pure a s = some (a, s)

pub recv_u32 : Recv ℕ
recv_u32 (a ∷ b ∷ c ∷ d ∷ s) = some (a + b * 256 + c * 65536 + d * 16777216, s)
recv_u32 _ = none

pub recv_bytes : ℕ → Recv Bytes
recv_bytes n s = if leb n (length s) then some (take n s, drop n s) else none

pub length-u32_bytes : (n : ℕ) → length (u32_bytes n) ≡ 4
unfolding u32_bytes
length-u32_bytes n = refl

-- A stored number is read back modulo 2^32.
pub recv_u32-u32_bytes :
    (n : ℕ) (rest : Bytes) → recv_u32 (u32_bytes n ++ rest) ≡ some (n % 2 ^ 32, rest)
unfolding recv_u32 u32_bytes
recv_u32-u32_bytes n rest = ap (λ (k : ℕ). some (k, rest)) (omega arith)

pub recv_bytes-append :
    (n : ℕ) (bs rest : Bytes) → length bs ≡ n → recv_bytes n (bs ++ rest) ≡ some (bs, rest)
unfolding recv_bytes
recv_bytes-append n bs rest h =
    ground (arith, length-append bs rest, take-append n bs rest h, drop-append n bs rest h)
