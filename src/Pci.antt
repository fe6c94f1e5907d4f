-- ===== src/Pci.antt =====
-- kernel/drivers/pci.c: reads of the PCI configuration space and the search for a device.
-- The configuration ports are hardware: `config` is the 32-bit value that port 0xCFC gives after
-- the address was written to port 0xCF8, taken to stay the same during a search.
pub mod Address
pub mod Reads
pub mod Rounds
pub mod Search
pub mod First
pub mod Classes
mod Examples
use Prim.Native.Nat.{bit_and, bit_or}
use existent_os.Prelude.{
  ℕ, zero, suc, ◌+◌, ◌*◌, ◌/◌, ◌%◌, ◌^◌, Bool, true, false, not, ◌&&◌, Option, none, some, ◌==◌,
  if◌then◌else◌,
}

-- `pci_device_t`
pub record Device : Type 0 where
  pub bus : ℕ
  pub device : ℕ
  pub function : ℕ
  pub vendor_id : ℕ
  pub device_id : ℕ
  pub class_code : ℕ
  pub subclass : ℕ
  pub prog_if : ℕ
  pub header_type : ℕ

unfoldable pub config_address : ℕ → ℕ → ℕ → ℕ → ℕ
config_address bus device function offset =
    bit_or (bit_or (bit_or (bit_or 0x80000000 (bus * 2 ^ 16)) (device * 2 ^ 11)) (function * 2 ^ 8))
      (bit_and offset 0xfc)

-- `for (i = first; i < first + n; ++i)`, left at the first round that returns a value.
unfoldable pub first_some {ℓ} : {A : Type ℓ} → (ℕ → Option A) → ℕ → ℕ → Option A
first_some body zero i = none
first_some body (suc n) i =
    let rest = first_some body n (i + 1) in elim (body i) [ some a ↦ some a | none ↦ rest ]

module _ (config : ℕ → ℕ) where
  unfoldable pub read_config32 : ℕ → ℕ → ℕ → ℕ → ℕ
  read_config32 bus device function offset = config (config_address bus device function offset)

  unfoldable pub read_config16 : ℕ → ℕ → ℕ → ℕ → ℕ
  read_config16 bus device function offset =
      read_config32 bus device function offset / 2 ^ (bit_and offset 0x2 * 8) % 2 ^ 16

  unfoldable pub read_config8 : ℕ → ℕ → ℕ → ℕ → ℕ
  read_config8 bus device function offset =
      read_config32 bus device function offset / 2 ^ (bit_and offset 0x3 * 8) % 2 ^ 8

  -- A function is there and is of the wanted class.
  unfoldable pub is_match : ℕ → ℕ → ℕ → ℕ → ℕ → ℕ → Bool
  is_match class_code subclass prog_if bus device function =
      not (read_config16 bus device function 0x00 == 0xffff)
      && read_config8 bus device function 0x0b == class_code
      && read_config8 bus device function 0x0a == subclass
      && read_config8 bus device function 0x09 == prog_if

  -- What the search stores in `*out`.
  unfoldable pub describe : ℕ → ℕ → ℕ → Device
  describe bus device function = record {
    bus = bus;
    device = device;
    function = function;
    vendor_id = read_config16 bus device function 0x00;
    device_id = read_config16 bus device function 0x02;
    class_code = read_config8 bus device function 0x0b;
    subclass = read_config8 bus device function 0x0a;
    prog_if = read_config8 bus device function 0x09;
    header_type = read_config8 bus device function 0x0e;
  }

  -- The body of the innermost loop.
  unfoldable pub probe : ℕ → ℕ → ℕ → ℕ → ℕ → ℕ → Option Device
  probe class_code subclass prog_if bus device function =
      if is_match class_code subclass prog_if bus device function
      then some (describe bus device function)
      else none

  -- `out` says that the pointer is not null.
  unfoldable pub find_device : Bool → ℕ → ℕ → ℕ → Option Device
  find_device out class_code subclass prog_if =
      if not out
      then none
      else first_some
          (λ bus.
            first_some (λ device. first_some (probe class_code subclass prog_if bus device) 8 0) 32
              0)
          256 0

  -- The display class, VGA, and Intel's vendor number.
  unfoldable pub is_intel_gpu_present : Bool
  is_intel_gpu_present = elim (find_device true 0x03 0x00 0x00) [
    | some d ↦ d.vendor_id == 0x8086
    | none ↦ false
  ]
