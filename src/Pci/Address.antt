-- ===== src/Pci/Address.antt =====
-- The fields of a configuration address.
use existent_os.Prelude.{ℕ, ◌+◌, ◌-◌, ◌*◌, ◌%◌, ◌^◌, ◌<◌, ◌≡◌, refl, arith}
use existent_os.Prelude.Bits.{bit_or-shifted, bit_and-word_mask}
use Prim.Native.Nat.{bit_or}
use existent_os.Pci.{config_address}

-- An `|` of a multiple of 2 ^ k and a number below it.
or_above : (k q a r : ℕ) → a ≡ q * 2 ^ k → r < 2 ^ k → bit_or a r ≡ a + r
or_above k q a r e h = rw e (bit_or-shifted k q r h)

-- For operands in their declared ranges the address is a sum of fields that do not overlap: the
-- enable bit, the bus, the device, the function, and the offset rounded down to a word.
pub config_address-fields :
    (bus device function offset : ℕ)
    → bus < 256
    → device < 32
    → function < 8
    → offset < 256
    → config_address bus device function offset
      ≡ 0x80000000 + bus * 65536 + device * 2048 + function * 256 + (offset - offset % 4)
unfolding config_address
config_address-fields bus device function offset hb hd hf ho = rw (
  bit_and-word_mask offset ho,
  or_above 31 1 0x80000000 (bus * 65536) refl (omega arith),
  or_above 16 (32768 + bus) (0x80000000 + bus * 65536) (device * 2048) (omega arith) (omega arith),
  or_above 11 (1048576 + bus * 32 + device) (0x80000000 + bus * 65536 + device * 2048)
      (function * 256) (omega arith) (omega arith),
  or_above 8 (8388608 + bus * 256 + device * 8 + function)
      (0x80000000 + bus * 65536 + device * 2048 + function * 256) (offset - offset % 4)
      (omega arith) (omega arith),
)
