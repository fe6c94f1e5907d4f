-- ===== src/Layout/Examples.antt =====
-- The layouts of single structs, and the theorems about them at concrete inputs.
use existent_os.Prelude.{
  ℕ, ◌*◌, ◌≡◌, refl, arith, List, ◌∷◌, Option, none, some, replicate, ◌++◌, ◌%◌, ◌^◌, get_or, drop,
}
use mathlib.Core.Option
use existent_os.Prelude.Bytes.{chars_at}
use existent_os.Accounts.Image.{blank, store_at}
use existent_os.Boot.{MemoryMap, total_memory}
use existent_os.Layout.Readers.{map_pages, total_memory-read_member}
use existent_os.Layout.Stores.{store_at-read_member}
use existent_os.Layout.{
  CType, Placement, size, alignment, placements, packed_placements, packed_size, find, read_member,
  member_bytes,
}
use existent_os.Layout.Protocols.{file_protocol}
use existent_os.Layout.Tables.{system_table, boot_services}
use existent_os.Layout.Records.{guid, file_info, memory_descriptor}
use existent_os.Layout.Shared.{
  irq_context, idt_pointer, pci_device, mouse_packet, account, account_store,
}

abbrev offset_of : Option Placement → Option ℕ
offset_of none = none
offset_of (some p) = some p.offset

-- The firmware's table headers take 24 bytes, so that its ConOut is at 64 and its BootServices at 96.
con_out_offset : offset_of (find "ConOut" (placements 0 system_table)) ≡ some 48
unfolding find placements size alignment
con_out_offset = refl

boot_services_offset : offset_of (find "BootServices" (placements 0 system_table)) ≡ some 80
unfolding find placements size alignment
boot_services_offset = refl

locate_protocol_offset : offset_of (find "LocateProtocol" (placements 0 boot_services)) ≡ some 304
unfolding find placements size alignment
locate_protocol_offset = refl

-- The firmware's file protocol starts with its revision, so that its Read is at 32.
read_offset : offset_of (find "Read" (placements 0 file_protocol)) ≡ some 24
unfolding find placements size alignment
read_offset = refl

-- The firmware's record has three times of 16 bytes each before the attributes, which are at 72.
attribute_offset : offset_of (find "Attribute" (placements 0 file_info)) ≡ some 24
unfolding find placements size alignment
attribute_offset = refl

-- Where irq_common finds the number: 120(%rsp).
irq_number_offset : offset_of (find "irq_number" (packed_placements 0 irq_context)) ≡ some 120
unfolding find packed_placements size
irq_number_offset = refl

guid_size : size (CType.struct guid) ≡ 16
unfolding size alignment
guid_size = refl

descriptor_size : size (CType.struct memory_descriptor) ≡ 40
unfolding size alignment
descriptor_size = refl

idt_pointer_size : packed_size idt_pointer ≡ 10
unfolding packed_size size
idt_pointer_size = refl

-- Padding before the two identifiers and at the end.
pci_device_size : size (CType.struct pci_device) ≡ 12
unfolding size alignment
pci_device_size = refl

mouse_packet_size : size (CType.struct mouse_packet) ≡ 8
unfolding size alignment
mouse_packet_size = refl

-- Conventional memory, two pages.
abbrev one_range : MemoryMap
one_range = record {
  status = 0;
  size = 40;
  key = 1;
  descriptor_size = 40;
  buffer = 7 ∷ (replicate 23 0 ++ (2 ∷ replicate 15 0));
}

total_memory-read_member_example :
    (pages : ℕ) × (map_pages 1 40 one_range.buffer ≡ some pages)
    × (total_memory one_range ≡ pages * 4096 % 2 ^ 64)
total_memory-read_member_example = total_memory-read_member one_range

abbrev store_file : List ℕ
store_file = 0x52 ∷ 0x53 ∷ 0x55 ∷ 0x46 ∷ 1 ∷ 0 ∷ 0 ∷ 0 ∷ b'e' ∷ replicate 1055 0

store_at-read_member_example :
    let a = get_or (store_at store_file).entries 0 blank in
    (read_member "magic" account_store store_file ≡ some (store_at store_file).magic)
    × (read_member "count" account_store store_file ≡ some (store_at store_file).count)
    × ((entries : List ℕ) × (member_bytes "entries" account_store store_file ≡ some entries)
        × (let cell = drop (0 * size (CType.struct account)) entries in
            (Option.map (chars_at 32) (member_bytes "name" account cell) ≡ some a.name)
            × (Option.map (chars_at 32) (member_bytes "password" account cell) ≡ some a.password)
            × (read_member "admin" account cell ≡ some a.admin)))
store_at-read_member_example = store_at-read_member store_file 0 (omega arith)
