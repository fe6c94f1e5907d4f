-- ===== src/Devices.antt =====
-- The small drivers of kernel/drivers (memory.c, acpi.c, battery.c, storage.c, usb.c and
-- system/pic.c): their static variables and their functions. The texts are kept as codes.
use existent_os.Prelude.{ℕ, Bool, not, List, [], ◌∷◌, ◌++◌, ◌==◌}

-- What the kernel tells the hardware, in order.
pub data Event : Type 0 where
  cli hlt : Event
  outb : ℕ → ℕ → Event
  lidt : ℕ → Event
  cpuid : ℕ → Event

-- `battery_status_t`
pub record Battery : Type 0 where
  pub present : ℕ
  pub percent : ℕ
  pub charging : ℕ

pub record Usb : Type 0 where
  pub controller_type : List ℕ
  pub keyboard_present : ℕ
  pub mouse_present : ℕ

pub record Devices : Type 0 where
  pub total_memory_bytes : ℕ
  pub rsdp_address : ℕ
  pub battery : Battery
  pub detected_storage : List ℕ
  pub usb : Usb

-- "EFI-managed"
abbrev pub efi_managed : List ℕ
efi_managed = b'E' ∷ b'F' ∷ b'I' ∷ b'-' ∷ b'm' ∷ b'a' ∷ b'n' ∷ b'a' ∷ b'g' ∷ b'e' ∷ b'd' ∷ []

-- "EFI USB"
abbrev pub efi_usb : List ℕ
efi_usb = b'E' ∷ b'F' ∷ b'I' ∷ b' ' ∷ b'U' ∷ b'S' ∷ b'B' ∷ []

abbrev pub loaded : Devices
loaded = record {
  total_memory_bytes = 0;
  rsdp_address = 0;
  battery = record { present = 0; percent = 0; charging = 0 };
  detected_storage = efi_managed;
  usb = record { controller_type = efi_usb; keyboard_present = 0; mouse_present = 0 };
}

unfoldable pub memory_set_total_bytes : ℕ → Devices → Devices
memory_set_total_bytes bytes d = record d { total_memory_bytes = bytes }

-- The body is a comment.
unfoldable pub memory_init : Devices → Devices
memory_init d = d

unfoldable pub memory_total_bytes : Devices → ℕ
memory_total_bytes d = d.total_memory_bytes

unfoldable pub acpi_set_rsdp : ℕ → Devices → Devices
acpi_set_rsdp rsdp d = record d { rsdp_address = rsdp }

-- The body is a comment.
unfoldable pub acpi_init : Devices → Devices
acpi_init d = d

unfoldable pub acpi_is_available : Devices → Bool
acpi_is_available d = not (d.rsdp_address == 0)

unfoldable pub battery_init : Devices → Devices
battery_init d = record d { battery = record { present = 0; percent = 0; charging = 0 } }

unfoldable pub battery_get_status : Devices → Battery
battery_get_status d = d.battery

unfoldable pub storage_init : Devices → Devices
storage_init d = record d { detected_storage = efi_managed }

unfoldable pub storage_type : Devices → List ℕ
storage_type d = d.detected_storage

unfoldable pub usb_init : Devices → Devices
usb_init d = record d {
  usb = record { controller_type = efi_usb; keyboard_present = 0; mouse_present = 0 };
}

unfoldable pub usb_controller_type : Devices → List ℕ
usb_controller_type d = d.usb.controller_type

unfoldable pub usb_keyboard_present : Devices → ℕ
usb_keyboard_present d = d.usb.keyboard_present

unfoldable pub usb_mouse_present : Devices → ℕ
usb_mouse_present d = d.usb.mouse_present

-- The body is a comment.
unfoldable pub pic_init : List Event → List Event
pic_init trace = trace

-- The body only discards its argument.
unfoldable pub pic_send_eoi : ℕ → List Event → List Event
pic_send_eoi irq trace = trace

-- `pic_disable`: all lines of both controllers masked.
unfoldable pub pic_disable : List Event → List Event
pic_disable trace = trace ++ (outb 0x21 0xff ∷ outb 0xa1 0xff ∷ [])
