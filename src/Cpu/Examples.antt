-- ===== src/Cpu/Examples.antt =====
-- The theorems about kernel/cpu.c at concrete processors.
use existent_os.Prelude.{ℕ, ◌≡◌, refl, false, ◌==◌, if◌then◌else◌}
use existent_os.Cpu.{Vendor, Registers, CpuInfo, loaded, vendor_of, get_info, init}

-- An Intel processor of family 6, model 14, stepping 9.
abbrev intel_cpuid : ℕ → Registers
intel_cpuid leaf =
    if leaf == 0
    then record { eax = 22; ebx = 0x756e6547; ecx = 0x6c65746e; edx = 0x49656e69 }
    else record { eax = 0x506e9; ebx = 0; ecx = 7; edx = 8 }

info : CpuInfo
unfolding init get_info vendor_of
info = init intel_cpuid loaded

info_lem : info ≡ record {
  vendor = Vendor.intel;
  family = 6;
  model = 14;
  stepping = 9;
  features_ecx = 7;
  features_edx = 8;
}
unfolding info
info_lem = refl

-- A null pointer leaves everything alone.
null_info : get_info intel_cpuid false loaded ≡ (false, loaded)
unfolding get_info
null_info = refl
