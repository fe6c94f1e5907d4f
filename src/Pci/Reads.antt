-- ===== src/Pci/Reads.antt =====
-- A configuration read gives the bytes that the device has there.
use existent_os.Prelude.{ℕ, zero, suc, ◌+◌, ◌*◌, ◌/◌, ◌%◌, ◌^◌, ◌<◌, ◌≡◌, refl, arith, ◌∙◌, ap, ap₂}
use existent_os.Prelude.Bits.{bit_and-low_two}
use existent_os.Pci.{config_address, read_config32, read_config16, read_config8}
use existent_os.Pci.Address.{config_address-fields}

-- The configuration ports of the PCI local bus specification: an address with the enable bit names
-- a bus, a device, a function and a word, and the port gives the four bytes of the word, the lowest
-- first. `space` holds the bytes of each function, 256 for each.
pub record IsConfigPort (config : ℕ → ℕ) (space : ℕ → ℕ → ℕ → ℕ → ℕ) : Type 0 where
  pub byte : (bus device function offset : ℕ) → space bus device function offset < 256
  pub word :
      (bus device function word : ℕ)
      → bus < 256
      → device < 32
      → function < 8
      → word < 64
      → config (0x80000000 + bus * 65536 + device * 2048 + function * 256 + word * 4)
        ≡ space bus device function (word * 4)
          + 256 * space bus device function (word * 4 + 1)
          + 65536 * space bus device function (word * 4 + 2)
          + 16777216 * space bus device function (word * 4 + 3)

byte_of_word :
    (b₀ b₁ b₂ b₃ : ℕ)
    → b₀ < 256
    → b₁ < 256
    → b₂ < 256
    → b₃ < 256
    → let w = b₀ + 256 * b₁ + 65536 * b₂ + 16777216 * b₃ in
      (w / 2 ^ 0 % 256 ≡ b₀)
      × (w / 2 ^ 8 % 256 ≡ b₁)
      × (w / 2 ^ 16 % 256 ≡ b₂)
      × (w / 2 ^ 24 % 256 ≡ b₃)
      × (w / 2 ^ 0 % 65536 ≡ b₀ + 256 * b₁)
      × (w / 2 ^ 16 % 65536 ≡ b₂ + 256 * b₃)
byte_of_word b₀ b₁ b₂ b₃ h₀ h₁ h₂ h₃ = omega arith

module _ {config : ℕ → ℕ} {space : ℕ → ℕ → ℕ → ℕ → ℕ} (port : IsConfigPort config space)
    (bus device function offset : ℕ) (hb : bus < 256) (hd : device < 32) (hf : function < 8)
    (ho : offset < 256) where
  byte_at : ℕ → ℕ
  byte_at = space bus device function

  word_value :
      config (config_address bus device function offset)
      ≡ byte_at (offset / 4 * 4)
        + 256 * byte_at (offset / 4 * 4 + 1)
        + 65536 * byte_at (offset / 4 * 4 + 2)
        + 16777216 * byte_at (offset / 4 * 4 + 3)
  unfolding byte_at
  word_value =
      ap config (config_address-fields bus device function offset hb hd hf ho ∙ omega arith)
      ∙ port.word bus device function (offset / 4) hb hd hf (omega arith)

  -- The bytes of the word that holds the offset, each where the shift puts it.
  bytes_lem :
      let b = λ (k : ℕ). byte_at (offset / 4 * 4 + k) in
      let w = byte_at (offset / 4 * 4) + 256 * b 1 + 65536 * b 2 + 16777216 * b 3 in
      (w / 2 ^ 0 % 256 ≡ byte_at (offset / 4 * 4))
      × (w / 2 ^ 8 % 256 ≡ b 1)
      × (w / 2 ^ 16 % 256 ≡ b 2)
      × (w / 2 ^ 24 % 256 ≡ b 3)
      × (w / 2 ^ 0 % 65536 ≡ byte_at (offset / 4 * 4) + 256 * b 1)
      × (w / 2 ^ 16 % 65536 ≡ b 2 + 256 * b 3)
  unfolding byte_at
  bytes_lem =
      byte_of_word _ _ _ _ (port.byte bus device function (offset / 4 * 4))
        (port.byte bus device function (offset / 4 * 4 + 1))
        (port.byte bus device function (offset / 4 * 4 + 2))
        (port.byte bus device function (offset / 4 * 4 + 3))

  byte_by_offset :
      (r : ℕ)
      → offset % 4 ≡ r
      → config (config_address bus device function offset) / 2 ^ (r * 8) % 256 ≡ byte_at offset
  byte_by_offset zero e = rw word_value (bytes_lem.0 ∙ ap byte_at (omega arith))
  byte_by_offset (suc zero) e = rw word_value (bytes_lem.1 ∙ ap byte_at (omega arith))
  byte_by_offset (suc (suc zero)) e = rw word_value (bytes_lem.2 ∙ ap byte_at (omega arith))
  byte_by_offset (suc (suc (suc zero))) e = rw word_value (bytes_lem.3 ∙ ap byte_at (omega arith))
  byte_by_offset (suc (suc (suc (suc r)))) e = absurd (omega arith)

  half_by_offset :
      (r : ℕ)
      → offset % 4 ≡ r
      → offset % 2 ≡ 0
      → config (config_address bus device function offset) / 2 ^ (r / 2 * 2 * 8) % 65536
        ≡ byte_at offset + 256 * byte_at (offset + 1)
  half_by_offset zero e even = rw word_value (
      bytes_lem.4
      ∙ ap₂ (λ (a b : ℕ). a + 256 * b) (ap byte_at (omega arith)) (ap byte_at (omega arith)))
  half_by_offset (suc zero) e even = absurd (omega arith)
  half_by_offset (suc (suc zero)) e even = rw word_value (
      bytes_lem.5
      ∙ ap₂ (λ (a b : ℕ). a + 256 * b) (ap byte_at (omega arith)) (ap byte_at (omega arith)))
  half_by_offset (suc (suc (suc r))) e even = absurd (omega arith)

  -- An 8-bit read gives the byte at any offset, aligned or not.
  pub read_config8-byte :
      read_config8 config bus device function offset ≡ space bus device function offset
  unfolding read_config8 read_config32 byte_at
  read_config8-byte = rw (bit_and-low_two offset ho).0 (byte_by_offset (offset % 4) refl)

  -- A 16-bit read at an even offset gives the two bytes there, the lower one first.
  pub read_config16-bytes :
      offset % 2 ≡ 0
      → read_config16 config bus device function offset
        ≡ space bus device function offset + 256 * space bus device function (offset + 1)
  unfolding read_config16 read_config32 byte_at
  read_config16-bytes even =
      rw (bit_and-low_two offset ho).1 (half_by_offset (offset % 4) refl even)
