-- ===== src/Prelude/Words.antt =====
-- The sizes of the unsigned integers that the program uses. lunchbox::uint128_t is two 64-bit words.
use Prim.Native.Nat.{ℕ, ◌%◌}

abbrev pub u32_mod : ℕ
u32_mod = 0x100000000

abbrev pub u64_mod : ℕ
u64_mod = 0x10000000000000000

abbrev pub u128_mod : ℕ
u128_mod = 0x100000000000000000000000000000000

abbrev pub u64_max : ℕ
u64_max = 0xffffffffffffffff

-- uint128_t::low()
abbrev pub low : ℕ → ℕ
low v = v % u64_mod

-- `negsuc n` is -(n + 1).
pub data ℤ : Type 0 where
  pos : ℕ → ℤ
  negsuc : ℕ → ℤ
