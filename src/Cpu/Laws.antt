-- ===== src/Cpu/Laws.antt =====
-- What cpu_get_info stores, against the layout that the cpuid instruction documents.
use existent_os.Prelude.{
  ℕ, ◌+◌, ◌*◌, ◌/◌, ◌%◌, ◌^◌, ◌<◌, ◌≡◌, ◌↔◌, refl, arith, Bool, true, List, [], ◌∷◌, ◌++◌, ◌==◌, ap,
  take, drop, ◌&&◌,
}
use existent_os.Prelude.Bits.{bit_and-ones}
use existent_os.Cpu.{CpuInfo, Registers, loaded, vendor_of, get_info, is_intel, init}

-- The four bytes of a register, the lowest first.
abbrev pub bytes : ℕ → List ℕ
bytes r = r % 256 ∷ r / 256 % 256 ∷ r / 65536 % 256 ∷ r / 16777216 % 256 ∷ []

-- The vendor's name as cpuid spells it: ebx, edx, ecx.
abbrev pub vendor_name : Registers → List ℕ
vendor_name r = bytes r.ebx ++ (bytes r.edx ++ bytes r.ecx)

-- "GenuineIntel"
abbrev pub genuine_intel : List ℕ
genuine_intel =
    b'G' ∷ b'e' ∷ b'n' ∷ b'u' ∷ b'i' ∷ b'n' ∷ b'e' ∷ b'I' ∷ b'n' ∷ b't' ∷ b'e' ∷ b'l' ∷ []

abbrev pub IsWords : Registers → Type 0
IsWords r = (r.ebx < 2 ^ 32) × (r.ecx < 2 ^ 32) × (r.edx < 2 ^ 32)

word_of_bytes :
    (r b₀ b₁ b₂ b₃ : ℕ)
    → r < 2 ^ 32
    → bytes r ≡ b₀ ∷ b₁ ∷ b₂ ∷ b₃ ∷ []
    → r ≡ b₀ + 256 * b₁ + 65536 * b₂ + 16777216 * b₃
word_of_bytes r b₀ b₁ b₂ b₃ h e = ground arith

-- The tests on leaf 0 compare the twelve bytes of the name.
is_intel_name : Registers → Bool
is_intel_name r = r.ebx == 0x756e6547 && r.edx == 0x49656e69 && r.ecx == 0x6c65746e

name_of_test : (r : Registers) → is_intel_name r ≡ true → vendor_name r ≡ genuine_intel
unfolding is_intel_name
name_of_test r h = ground arith

test_of_name : (r : Registers) → IsWords r → vendor_name r ≡ genuine_intel → is_intel_name r ≡ true
unfolding is_intel_name
test_of_name r h e =
    let ebx : r.ebx ≡ 0x756e6547 = word_of_bytes r.ebx 0x47 0x65 0x6e 0x75 h.0 (ap (take 4) e) in
    let edx : r.edx ≡ 0x49656e69 =
      word_of_bytes r.edx 0x69 0x6e 0x65 0x49 h.2 (ap (λ l. take 4 (drop 4 l)) e) in
    let ecx : r.ecx ≡ 0x6c65746e =
      word_of_bytes r.ecx 0x6e 0x74 0x65 0x6c h.1 (ap (λ l. take 4 (drop 8 l)) e) in
    rw (ebx, edx, ecx)

is_intel-init_test :
    (cpuid : ℕ → Registers) → is_intel (init cpuid loaded) ≡ is_intel_name (cpuid 0)
unfolding is_intel init get_info vendor_of is_intel_name
is_intel-init_test cpuid = ground arith

-- After cpu_init from the loaded state, cpu_is_intel answers 1 exactly when the vendor's name
-- reads "GenuineIntel".
pub is_intel-init :
    (cpuid : ℕ → Registers)
    → IsWords (cpuid 0)
    → (is_intel (init cpuid loaded) ≡ true) ↔ (vendor_name (cpuid 0) ≡ genuine_intel)
is_intel-init cpuid h =
    rw (is_intel-init_test cpuid) (name_of_test (cpuid 0), test_of_name (cpuid 0) h)

-- The stored signature is the low twelve bits of leaf 1's eax, cut in three numbers of four bits.
pub get_info-signature :
    (cpuid : ℕ → Registers) (g : CpuInfo)
    → let i = (get_info cpuid true g).1 in
      (i.family * 256 + i.model * 16 + i.stepping ≡ (cpuid 1).eax % 4096)
      × (i.family < 16)
      × (i.model < 16)
      × (i.stepping < 16)
unfolding get_info
get_info-signature cpuid g =
    rw
      (
        bit_and-ones 4 ((cpuid 1).eax / 2 ^ 8) 0xf refl,
        bit_and-ones 4 ((cpuid 1).eax / 2 ^ 4) 0xf refl,
        bit_and-ones 4 (cpuid 1).eax 0xf refl,
      )
      (omega arith)
