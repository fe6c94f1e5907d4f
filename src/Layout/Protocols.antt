-- ===== src/Layout/Protocols.antt =====
-- The protocols of boot/efi.h: structs of pointers to the firmware's functions.
use existent_os.Prelude.{[], ◌∷◌}
use existent_os.Layout.{Members, members, pointer, short}

-- EFI_INPUT_KEY
abbrev pub input_key : Members
input_key = members (("ScanCode", short) ∷ ("UnicodeChar", short) ∷ [])

-- EFI_SIMPLE_TEXT_INPUT_PROTOCOL
abbrev pub simple_text_input : Members
simple_text_input =
    members (("Reset", pointer) ∷ ("ReadKeyStroke", pointer) ∷ ("WaitForKey", pointer) ∷ [])

-- EFI_SIMPLE_TEXT_OUTPUT_PROTOCOL
abbrev pub simple_text_output : Members
simple_text_output = members (("Reset", pointer) ∷ ("OutputString", pointer) ∷ [])

-- EFI_SIMPLE_FILE_SYSTEM_PROTOCOL
abbrev pub simple_file_system : Members
simple_file_system = members (("Reset", pointer) ∷ ("OpenVolume", pointer) ∷ [])

-- EFI_FILE_PROTOCOL
abbrev pub file_protocol : Members
file_protocol = members (
    ("Open", pointer)
    ∷ ("Close", pointer)
    ∷ ("Delete", pointer)
    ∷ ("Read", pointer)
    ∷ ("Write", pointer)
    ∷ ("GetPosition", pointer)
    ∷ ("SetPosition", pointer)
    ∷ ("GetInfo", pointer)
    ∷ ("SetInfo", pointer)
    ∷ ("Flush", pointer)
    ∷ [])
