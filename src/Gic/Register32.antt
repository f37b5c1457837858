-- ===== src/Gic/Register32.antt =====
-- distributor/register.rs: a 32-bit register. An operation that changes it returns the old value
-- and the new one.
use icecap.Base.{ℕ, ◌*◌, ◌^◌, ◌%◌, bit_and, bit_or}
use icecap.Base.Bits.{not32}

abbrev pub load : ℕ → ℕ
load reg = reg

abbrev pub store : ℕ → ℕ → ℕ × ℕ
store v reg = (reg, v)

abbrev pub swap : ℕ → ℕ → ℕ × ℕ
swap v reg = (reg, v)

abbrev pub fetch_and : ℕ → ℕ → ℕ × ℕ
fetch_and v reg = (reg, bit_and reg v)

abbrev pub fetch_or : ℕ → ℕ → ℕ × ℕ
fetch_or v reg = (reg, bit_or reg v)

-- `v << n` on a 32-bit word
abbrev pub shl32 : ℕ → ℕ → ℕ
shl32 v n = v * 2 ^ n % 2 ^ 32

pub set_byte : ℕ → ℕ → ℕ → ℕ × ℕ
set_byte byte_index v reg =
    (reg, bit_or (bit_and reg (not32 (shl32 0xff (byte_index * 8)))) (shl32 v (byte_index * 8)))
