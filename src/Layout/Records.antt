-- ===== src/Layout/Records.antt =====
-- The records of boot/efi.h that the firmware fills in, and the identifiers it is given.
use existent_os.Prelude.{ℕ, [], ◌∷◌}
use existent_os.Layout.{CType, Members, members, enumeration, byte, short, word, quad}

-- EFI_GUID
abbrev pub guid : Members
guid =
    members
      (("Data1", word) ∷ ("Data2", short) ∷ ("Data3", short) ∷ ("Data4", CType.array 8 byte) ∷ [])

-- EFI_FILE_INFO
abbrev pub file_info : Members
file_info = members (
    ("Size", quad)
    ∷ ("FileSize", quad)
    ∷ ("PhysicalSize", quad)
    ∷ ("Attribute", word)
    ∷ ("FileName", CType.array 1 short)
    ∷ [])

-- EFI_MEMORY_DESCRIPTOR
abbrev pub memory_descriptor : Members
memory_descriptor = members (
    ("Type", enumeration)
    ∷ ("Pad", word)
    ∷ ("PhysicalStart", quad)
    ∷ ("VirtualStart", quad)
    ∷ ("NumberOfPages", quad)
    ∷ ("Attribute", quad)
    ∷ [])

-- EFI_MEMORY_TYPE, whose constants count from 0.
pub data MemoryType : Type 0 where
  reserved_memory_type loader_code loader_data boot_services_code boot_services_data : MemoryType
  runtime_services_code runtime_services_data conventional_memory unusable_memory : MemoryType
  acpi_reclaim_memory acpi_memory_nvs memory_mapped_io memory_mapped_io_port_space : MemoryType
  pal_code persistent_memory max_memory_type : MemoryType

unfoldable pub code_of : MemoryType → ℕ
code_of MemoryType.reserved_memory_type = 0
code_of MemoryType.loader_code = 1
code_of MemoryType.loader_data = 2
code_of MemoryType.boot_services_code = 3
code_of MemoryType.boot_services_data = 4
code_of MemoryType.runtime_services_code = 5
code_of MemoryType.runtime_services_data = 6
code_of MemoryType.conventional_memory = 7
code_of MemoryType.unusable_memory = 8
code_of MemoryType.acpi_reclaim_memory = 9
code_of MemoryType.acpi_memory_nvs = 10
code_of MemoryType.memory_mapped_io = 11
code_of MemoryType.memory_mapped_io_port_space = 12
code_of MemoryType.pal_code = 13
code_of MemoryType.persistent_memory = 14
code_of MemoryType.max_memory_type = 15
