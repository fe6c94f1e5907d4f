-- ===== src/Layout/Tables.antt =====
-- The system table, the boot services and the configuration table of boot/efi.h.
use existent_os.Prelude.{[], ◌∷◌}
use existent_os.Layout.{CType, Members, members, pointer, word, quad}
use existent_os.Layout.Records.{guid}

-- EFI_SYSTEM_TABLE
abbrev pub system_table : Members
system_table = members (
    ("Hdr", pointer)
    ∷ ("FirmwareVendor", pointer)
    ∷ ("FirmwareRevision", word)
    ∷ ("ConsoleInHandle", pointer)
    ∷ ("ConIn", pointer)
    ∷ ("ConsoleOutHandle", pointer)
    ∷ ("ConOut", pointer)
    ∷ ("StandardErrorHandle", pointer)
    ∷ ("ErrOut", pointer)
    ∷ ("RuntimeServices", pointer)
    ∷ ("BootServices", pointer)
    ∷ ("NumberOfTableEntries", quad)
    ∷ ("ConfigurationTable", pointer)
    ∷ [])

-- EFI_CONFIGURATION_TABLE
abbrev pub configuration_table : Members
configuration_table = members (("VendorGuid", CType.struct guid) ∷ ("VendorTable", pointer) ∷ [])

-- EFI_BOOT_SERVICES
abbrev pub boot_services : Members
boot_services = members (
    ("Hdr", pointer)
    ∷ ("RaiseTPL", pointer)
    ∷ ("RestoreTPL", pointer)
    ∷ ("AllocatePages", pointer)
    ∷ ("FreePages", pointer)
    ∷ ("GetMemoryMap", pointer)
    ∷ ("AllocatePool", pointer)
    ∷ ("FreePool", pointer)
    ∷ ("CreateEvent", pointer)
    ∷ ("SetTimer", pointer)
    ∷ ("WaitForEvent", pointer)
    ∷ ("SignalEvent", pointer)
    ∷ ("CloseEvent", pointer)
    ∷ ("CheckEvent", pointer)
    ∷ ("InstallProtocolInterface", pointer)
    ∷ ("ReinstallProtocolInterface", pointer)
    ∷ ("UninstallProtocolInterface", pointer)
    ∷ ("HandleProtocol", pointer)
    ∷ ("Reserved", pointer)
    ∷ ("RegisterProtocolNotify", pointer)
    ∷ ("LocateHandle", pointer)
    ∷ ("LocateDevicePath", pointer)
    ∷ ("InstallConfigurationTable", pointer)
    ∷ ("LoadImage", pointer)
    ∷ ("StartImage", pointer)
    ∷ ("Exit", pointer)
    ∷ ("UnloadImage", pointer)
    ∷ ("ExitBootServices", pointer)
    ∷ ("GetNextMonotonicCount", pointer)
    ∷ ("Stall", pointer)
    ∷ ("SetWatchdogTimer", pointer)
    ∷ ("ConnectController", pointer)
    ∷ ("DisconnectController", pointer)
    ∷ ("OpenProtocol", pointer)
    ∷ ("CloseProtocol", pointer)
    ∷ ("OpenProtocolInformation", pointer)
    ∷ ("ProtocolsPerHandle", pointer)
    ∷ ("LocateHandleBuffer", pointer)
    ∷ ("LocateProtocol", pointer)
    ∷ ("InstallMultipleProtocolInterfaces", pointer)
    ∷ ("UninstallMultipleProtocolInterfaces", pointer)
    ∷ ("CalculateCrc32", pointer)
    ∷ ("CopyMem", pointer)
    ∷ ("SetMem", pointer)
    ∷ ("CreateEventEx", pointer)
    ∷ [])
