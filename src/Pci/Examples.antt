-- ===== src/Pci/Examples.antt =====
-- A machine with two VGA displays, the first of another vendor and the second of Intel.
use existent_os.Prelude.{
  ◌↔◌, ◌+◌, ◌*◌, ◌/◌, ◌%◌, ◌^◌, ◌<◌, ap₂, ℕ, ◌≡◌, refl, arith, true, some, ◌==◌, if◌then◌else◌,
}
use existent_os.Pci.{
  Device, config_address, first_some, read_config32, read_config16, read_config8, is_match,
  describe, probe, find_device,
}
use existent_os.Pci.Address.{config_address-fields}
use existent_os.Pci.Search.{IsFirstMatch}
use existent_os.Pci.First.{find_device-IsFirstMatch}
use existent_os.Pci.Reads.{IsConfigPort}
use existent_os.Pci.Classes.{IsFirst, find_device_iff}

-- Device 2 of bus 0 is a display of vendor 0x10de, device 3 one of Intel's.
two_displays : ℕ → ℕ
two_displays address =
    if address == 0x80001000
    then 0x123410de
    else if address == 0x80001008
    then 0x03000001
    else if address == 0x80001800
    then 0x56788086
    else if address == 0x80001808
    then 0x03000001
    else 0xffffffff

abbrev other_display : Device
other_display = record {
  bus = 0;
  device = 2;
  function = 0;
  vendor_id = 0x10de;
  device_id = 0x1234;
  class_code = 0x03;
  subclass = 0x00;
  prog_if = 0x00;
  header_type = 0xff;
}

found_display : find_device two_displays true 0x03 0x00 0x00 ≡ some other_display
unfolding find_device first_some probe is_match describe read_config16 read_config8 read_config32
    config_address two_displays
found_display = refl

config_address-fields_example : config_address 1 2 3 0x0e ≡ 0x8001130c
config_address-fields_example =
    config_address-fields 1 2 3 0x0e (omega arith) (omega arith) (omega arith) (omega arith)

-- The space of ports whose values have 32 bits: the bytes of the values.
unfoldable space_of : (ℕ → ℕ) → ℕ → ℕ → ℕ → ℕ → ℕ
space_of config bus device function offset =
    config (0x80000000 + bus * 65536 + device * 2048 + function * 256 + offset / 4 * 4)
    / 2 ^ (offset % 4 * 8)
    % 256

space_of-word :
    (config : ℕ → ℕ) (bus device function word k offset : ℕ)
    → k < 4
    → offset ≡ word * 4 + k
    → space_of config bus device function offset
      ≡ config (0x80000000 + bus * 65536 + device * 2048 + function * 256 + word * 4)
        / 2 ^ (k * 8)
        % 256
unfolding space_of
space_of-word config bus device function word k offset h e =
    ap₂
      (λ (at r : ℕ).
        config (0x80000000 + bus * 65536 + device * 2048 + function * 256 + at) / 2 ^ (r * 8) % 256)
      (omega (arith, e)) (omega (arith, e))

word_bytes :
    (v : ℕ)
    → v < 2 ^ 32
    → v
      ≡ v / 2 ^ 0 % 256
        + 256 * (v / 2 ^ 8 % 256)
        + 65536 * (v / 2 ^ 16 % 256)
        + 16777216 * (v / 2 ^ 24 % 256)
word_bytes v h = omega arith

space_of-IsConfigPort :
    (config : ℕ → ℕ)
    → ((address : ℕ) → config address < 2 ^ 32)
    → IsConfigPort config (space_of config)
unfolding space_of
space_of-IsConfigPort config bounded = record {
  byte = λ bus device function offset. omega arith;
  word = λ bus device function word hb hd hf hw.
      rw
        (
          space_of-word config bus device function word 0 (word * 4) (omega arith) (omega arith),
          space_of-word config bus device function word 1 (word * 4 + 1) (omega arith) refl,
          space_of-word config bus device function word 2 (word * 4 + 2) (omega arith) refl,
          space_of-word config bus device function word 3 (word * 4 + 3) (omega arith) refl,
        )
        (word_bytes _ (bounded _));
}

two_displays_bound : (address : ℕ) → two_displays address < 2 ^ 32
unfolding two_displays
two_displays_bound address = ground arith

find_device_iff_example :
    (find_device two_displays true 0x03 0x00 0x00 ≡ some other_display)
    ↔ IsFirst (space_of two_displays) 0x03 0x00 0x00 other_display
find_device_iff_example =
    find_device_iff two_displays (space_of two_displays)
      (space_of-IsConfigPort two_displays two_displays_bound) 0x03 0x00 0x00 other_display

-- The display of the other vendor, which has an Intel display behind it.
found_is_first : IsFirstMatch two_displays 0x03 0x00 0x00 other_display
found_is_first =
    (find_device-IsFirstMatch two_displays 0x03 0x00 0x00 other_display).0 found_display
