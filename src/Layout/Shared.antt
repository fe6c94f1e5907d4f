-- ===== src/Layout/Shared.antt =====
-- The structs that the loader keeps in files, hands to the kernel or to the processor, and those that
-- its parts and the drivers pass to each other.
use existent_os.Prelude.{[], ◌∷◌}
use existent_os.Layout.{CType, Members, members, pointer, enumeration, byte, short, word, quad}

-- `account_t` and `account_store_t` of accounts.c
abbrev pub account : Members
account =
    members
      (("name", CType.array 32 short) ∷ ("password", CType.array 32 short) ∷ ("admin", word) ∷ [])

abbrev pub account_store : Members
account_store =
    members
      (("magic", word) ∷ ("count", word) ∷ ("entries", CType.array 8 (CType.struct account)) ∷ [])

-- `kernel_boot_info_t` of boot_info.h
abbrev pub boot_info : Members
boot_info = members (("memory_bytes", quad) ∷ ("rsdp", pointer) ∷ [])

-- `eosfs_gpt_header_t`, `eosfs_partition_t` and `eosfs_entry_t` of eosfs.h
abbrev pub gpt_header : Members
gpt_header = members (
    ("signature", quad)
    ∷ ("revision", word)
    ∷ ("header_size", word)
    ∷ ("current_lba", quad)
    ∷ ("backup_lba", quad)
    ∷ ("first_usable_lba", quad)
    ∷ ("last_usable_lba", quad)
    ∷ ("disk_guid", CType.array 16 byte)
    ∷ ("partition_entry_lba", quad)
    ∷ ("partition_entry_count", word)
    ∷ ("partition_entry_size", word)
    ∷ ("partition_crc32", word)
    ∷ [])

abbrev pub partition : Members
partition = members (
    ("partition_type_guid", CType.array 16 byte)
    ∷ ("unique_partition_guid", CType.array 16 byte)
    ∷ ("first_lba", quad)
    ∷ ("last_lba", quad)
    ∷ ("attributes", quad)
    ∷ ("name", CType.array 36 short)
    ∷ [])

abbrev pub entry : Members
entry = members (("name", CType.array 16 short) ∷ ("type", enumeration) ∷ [])

-- `struct idt_entry64` and `struct idt_ptr64` of system/idt.h, which are packed.
abbrev pub idt_entry : Members
idt_entry = members (
    ("offset_low", short)
    ∷ ("selector", short)
    ∷ ("ist", byte)
    ∷ ("type_attr", byte)
    ∷ ("offset_mid", short)
    ∷ ("offset_high", word)
    ∷ ("zero", word)
    ∷ [])

abbrev pub idt_pointer : Members
idt_pointer = members (("limit", short) ∷ ("base", quad) ∷ [])

-- `pci_device_t` of pci.h
abbrev pub pci_device : Members
pci_device = members (
    ("bus", byte)
    ∷ ("device", byte)
    ∷ ("function", byte)
    ∷ ("vendor_id", short)
    ∷ ("device_id", short)
    ∷ ("class_code", byte)
    ∷ ("subclass", byte)
    ∷ ("prog_if", byte)
    ∷ ("header_type", byte)
    ∷ [])

-- `MousePacket` of mouse.h
abbrev pub mouse_packet : Members
mouse_packet =
    members (("dx", byte) ∷ ("dy", byte) ∷ ("buttons", byte) ∷ ("protocol", enumeration) ∷ [])

-- `struct irq_context` of irq_handlers.c, which is packed.
abbrev pub irq_context : Members
irq_context = members (
    ("r15", quad)
    ∷ ("r14", quad)
    ∷ ("r13", quad)
    ∷ ("r12", quad)
    ∷ ("r11", quad)
    ∷ ("r10", quad)
    ∷ ("r9", quad)
    ∷ ("r8", quad)
    ∷ ("rbp", quad)
    ∷ ("rdi", quad)
    ∷ ("rsi", quad)
    ∷ ("rdx", quad)
    ∷ ("rcx", quad)
    ∷ ("rbx", quad)
    ∷ ("rax", quad)
    ∷ ("irq_number", quad)
    ∷ ("error_code", quad)
    ∷ [])

-- `cpu_info_t` of cpu.h and `battery_status_t` of battery.h
abbrev pub cpu_info : Members
cpu_info = members (
    ("vendor", enumeration)
    ∷ ("family", word)
    ∷ ("model", word)
    ∷ ("stepping", word)
    ∷ ("features_ecx", word)
    ∷ ("features_edx", word)
    ∷ [])

abbrev pub battery_status : Members
battery_status = members (("present", byte) ∷ ("percent", byte) ∷ ("charging", byte) ∷ [])
