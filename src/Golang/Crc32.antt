-- ===== src/Golang/Crc32.antt =====
-- `crc32.ChecksumIEEE`, bit by bit: the reflected polynomial 0xedb88320.
use Prim.Native.Nat.{bit_xor}
use matrix_meshtastic.Prelude.{
  ℕ, zero, suc, ◌-◌, ◌/◌, ◌%◌, ◌<◌, ◌≡◌, refl, [], ◌∷◌, arith, Bytes, codes, nat_beq, if◌then◌else◌,
}

shift_bits : ℕ → ℕ → ℕ
shift_bits zero crc = crc
shift_bits (suc n) crc =
    shift_bits n (if nat_beq (crc % 2) 1 then bit_xor (crc / 2) 0xedb8_8320 else crc / 2)

update : ℕ → Bytes → ℕ
update crc [] = crc
update crc (b ∷ s) = update (shift_bits 8 (bit_xor crc b)) s

-- The result is the complement of the register, in 32 bits.
unfoldable pub checksum_ieee : Bytes → ℕ
unfolding update shift_bits
checksum_ieee s = 0xffff_ffff - update 0xffff_ffff s

pub checksum_ieee-lt : (s : Bytes) → checksum_ieee s < 0x1_0000_0000
unfolding checksum_ieee
checksum_ieee-lt s = omega arith

check_value : checksum_ieee (codes "123456789") ≡ 0xcbf4_3926
unfolding checksum_ieee
check_value = refl
