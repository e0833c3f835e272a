-- ===== src/Broker/Buddies.antt =====
-- The first buddy of `memory_init`, and the size that a buddy search asks for.
use tp_so_delibird.Common.{
  ◌⊎◌, inr, true, inl, ◌%◌, leb, false, ◌&&◌, ltb, Bool-cases, ◌<◌, ◌≤◌, ◌^◌, ◌*◌, ℕ, refl, arith,
  ◌≡◌, zero, suc,
}
use tp_so_delibird.Broker.Evict.{round_up}
use tp_so_delibird.Broker.Partitions.{first_partition_size, buddy_size}
use tp_so_delibird.Broker.State.{done, Unset, Outcome, Commons, Config}
use mathlib.Core.Path.{subst, sym}

abbrev pub IsPower : ℕ → Type 0
IsPower n = (k : ℕ) × (n ≡ 2 ^ k)

IsPower-double : (n : ℕ) → IsPower n → IsPower (n * 2)
IsPower-double n (k, e) = (suc k, omega arith)

-- `size` doubled `fuel` times.
abbrev doubled : ℕ → ℕ → ℕ
doubled zero size = size
doubled (suc fuel) size = doubled fuel (size * 2)

buddy_size_more :
    (tamano fuel size : ℕ)
    → (ltb size tamano && leb (size * 2 % 2 ^ 32) tamano) ≡ true
    → size * 2 % 2 ^ 32 ≡ size * 2
    → buddy_size tamano (suc fuel) size ≡ buddy_size tamano fuel (size * 2)
unfolding buddy_size
buddy_size_more tamano fuel size e same = ground (arith, same)

buddy_size_last :
    (tamano fuel size : ℕ)
    → (ltb size tamano && leb (size * 2 % 2 ^ 32) tamano) ≡ false
    → buddy_size tamano (suc fuel) size ≡ size
unfolding buddy_size
buddy_size_last tamano fuel size e = ground arith

buddy_size-IsPower :
    (tamano fuel size : ℕ)
    → tamano ≤ 2 ^ 31
    → 0 < size
    → size ≤ tamano
    → IsPower size
    → tamano < doubled fuel size
    → let r = buddy_size tamano fuel size in IsPower r × (r ≤ tamano) × (tamano < r * 2)
unfolding buddy_size
buddy_size-IsPower tamano zero size h z l p d = absurd (omega arith)
buddy_size-IsPower tamano (suc fuel) size h z l p d =
    elim (Bool-cases (ltb size tamano && leb (size * 2 % 2 ^ 32) tamano)) [
      | inl e ↦
          let lt : size < tamano = ground arith in
          let same : size * 2 % 2 ^ 32 ≡ size * 2 = omega arith in
          let le : size * 2 ≤ tamano = ground (arith, same) in
          let r =
            buddy_size-IsPower tamano fuel (size * 2) h (omega arith) le (IsPower-double size p)
              d in
          subst (λ x. IsPower x × (x ≤ tamano) × (tamano < x * 2))
            (sym (buddy_size_more tamano fuel size e same)) r
      | inr e ↦
          let le : tamano < size * 2 = ground arith in
          subst (λ x. IsPower x × (x ≤ tamano) × (tamano < x * 2))
            (sym (buddy_size_last tamano fuel size e)) (p, l, le)
    ]

-- With a configured size of at least 1 and at most 2^31 bytes, the first buddy is the largest power
-- of two that is not above it: 32 rounds of the loop are enough.
first_partition_size-IsPower :
    (cfg : Config)
    → 0 < cfg.tamano_memoria
    → cfg.tamano_memoria ≤ 2 ^ 31
    → let r = first_partition_size false cfg in
      IsPower r × (r ≤ cfg.tamano_memoria) × (cfg.tamano_memoria < r * 2)
first_partition_size-IsPower cfg h k =
    buddy_size-IsPower cfg.tamano_memoria 32 1 k (omega arith) (omega arith) (0, refl) (omega arith)

-- The least power of two that is not below the size.
pub record Rounded (size : ℕ) (o : Outcome ℕ) : Type 0 where
  pub result : ℕ
  pub returned : o ≡ done result
  pub power : IsPower result
  pub enough : size ≤ result
  pub tight : (result ≡ 1) ⊎ (result < size * 2)

module _ (lib : Commons) (cfg : Config) (unset : Unset) where
  round_up_more :
      (fuel size bs_size : ℕ)
      → ltb bs_size size ≡ true
      → bs_size * 2 % 2 ^ 32 ≡ bs_size * 2
      → round_up lib cfg unset (suc fuel) size bs_size
        ≡ round_up lib cfg unset fuel size (bs_size * 2)
  unfolding round_up
  round_up_more fuel size bs_size e same = rw (round_up, e, same) refl

  round_up_last :
      (fuel size bs_size : ℕ)
      → ltb bs_size size ≡ false
      → round_up lib cfg unset (suc fuel) size bs_size ≡ done bs_size
  unfolding round_up
  round_up_last fuel size bs_size e = rw (round_up, e) refl

  Rounded-last :
      (fuel size bs_size : ℕ)
      → IsPower bs_size
      → (bs_size ≡ 1) ⊎ (bs_size < size * 2)
      → size ≤ bs_size
      → Rounded size (round_up lib cfg unset (suc fuel) size bs_size)
  Rounded-last fuel size bs_size p t d = record {
    result = bs_size;
    returned = round_up_last fuel size bs_size (ground arith);
    power = p;
    enough = d;
    tight = t;
  }

  round_up-power :
      (fuel size bs_size : ℕ)
      → size ≤ 2 ^ 31
      → IsPower bs_size
      → (bs_size ≡ 1) ⊎ (bs_size < size * 2)
      → size ≤ doubled fuel bs_size
      → Rounded size (round_up lib cfg unset (suc fuel) size bs_size)
  round_up-power zero size bs_size h p t d = Rounded-last 0 size bs_size p t d
  round_up-power (suc fuel) size bs_size h p t d = elim (Bool-cases (ltb bs_size size)) [
    | inr e ↦ Rounded-last (suc fuel) size bs_size p t (ground arith)
    | inl e ↦
        let lt : bs_size < size = ground arith in
        let same : bs_size * 2 % 2 ^ 32 ≡ bs_size * 2 = omega arith in
        subst (Rounded size) (sym (round_up_more (suc fuel) size bs_size e same)) (
          round_up-power fuel size (bs_size * 2) h (IsPower-double bs_size p) (inr (omega arith)) d)
  ]

  -- For a message of at most 2^31 bytes, 33 rounds of the doubling in `get_free_partition_bs` are
  -- enough, and they end at the least power of two that is not below its size.
  pub round_up-Rounded :
      (size : ℕ) → size ≤ 2 ^ 31 → Rounded size (round_up lib cfg unset 33 size 1)
  round_up-Rounded size h = round_up-power 32 size 1 h (0, refl) (inl refl) (omega arith)
