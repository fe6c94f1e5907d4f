-- ===== src/Cpu.antt =====
-- kernel/cpu.c: the vendor and the signature that the cpuid instruction reports.
-- The instruction is hardware: `cpuid` gives the four registers for a leaf.
pub mod Laws
mod Examples
use Prim.Native.Nat.{bit_and}
use existent_os.Prelude.{ℕ, ◌/◌, ◌^◌, Bool, true, false, not, ◌&&◌, ◌==◌, if◌then◌else◌}

-- `cpu_vendor_t`
pub data Vendor : Type 0 where
  unknown intel amd : Vendor

-- `cpu_info_t`
pub record CpuInfo : Type 0 where
  pub vendor : Vendor
  pub family : ℕ
  pub model : ℕ
  pub stepping : ℕ
  pub features_ecx : ℕ
  pub features_edx : ℕ

-- What one cpuid instruction stores.
pub record Registers : Type 0 where
  pub eax : ℕ
  pub ebx : ℕ
  pub ecx : ℕ
  pub edx : ℕ

-- `g_cpu_info` when the program is loaded.
abbrev pub loaded : CpuInfo
loaded = record {
  vendor = unknown;
  family = 0;
  model = 0;
  stepping = 0;
  features_ecx = 0;
  features_edx = 0;
}

-- The vendor that the tests on leaf 0 leave: an unknown one keeps what was there.
unfoldable pub vendor_of : Registers → Vendor → Vendor
vendor_of r old =
    if r.ebx == 0x756e6547 && r.edx == 0x49656e69 && r.ecx == 0x6c65746e
    then intel
    else if r.ebx == 0x68747541 && r.edx == 0x69746e65 && r.ecx == 0x444d4163
    then amd
    else old

-- `info` says that the pointer is not null. The second part is the new `g_cpu_info`, of which
-- `*info` is a copy if the call answers 1.
unfoldable pub get_info : (ℕ → Registers) → Bool → CpuInfo → Bool × CpuInfo
get_info cpuid info g = if not info then (false, g) else (
  true,
  record {
    vendor = vendor_of (cpuid 0) g.vendor;
    family = bit_and ((cpuid 1).eax / 2 ^ 8) 0xf;
    model = bit_and ((cpuid 1).eax / 2 ^ 4) 0xf;
    stepping = bit_and (cpuid 1).eax 0xf;
    features_ecx = (cpuid 1).ecx;
    features_edx = (cpuid 1).edx;
  },
)

unfoldable pub is_intel : CpuInfo → Bool
is_intel g = elim g.vendor [ intel ↦ true | _ ↦ false ]

unfoldable pub init : (ℕ → Registers) → CpuInfo → CpuInfo
init cpuid g = (get_info cpuid true g).1
