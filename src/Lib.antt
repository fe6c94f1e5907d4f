-- ===== src/Lib.antt =====
-- A model of Fisix OS (Existent OS): the UEFI loader with its accounts, and the kernel that it
-- starts.
--
-- Parts. OSC/boot/efi_main.c is the loader: it sets up the boot volume's listing (eosfs.c) and
-- the user table (accounts.c), runs the terminal, loads kernel.bin, leaves the boot services and
-- calls kernel_startup (kernel.c), which starts the drivers and halts. The two images share no
-- state but the boot record.
--
-- Files. Accounts models OSC/kernel/drivers/accounts.c: Accounts/Image the structs and the bytes
-- of the user file, Accounts/State the static variables and every function, Accounts/Directory
-- the abstract list of users, Accounts/Valid the invariant and the view, and the other children
-- what they are named for. CString has the string loops of that file. Eosfs models
-- OSC/kernel/drivers/eosfs.c: its tables, with the listing from the volume in Eosfs/Reading.
-- Terminal models the text functions of efi_main.c: terminal_match_command, terminal_contains,
-- terminal_parse_command, whose argv is a list of offsets into the static line,
-- terminal_copy_segment, and terminal_read_line, whose input is the characters that the calls of
-- ReadKeyStroke leave. Shell models the rest of the terminal: Shell/State its static variables
-- and what only writes, Shell/Run the actions that may wait for a key, Shell/Files the file
-- commands, Shell/Commands the table of names, Shell/Programs terminal_login and
-- terminal_run_nano, Shell/Replies the commands that only write and the pipeline, Shell/Execute
-- terminal_execute_command with all the others, and Shell/Session the batch runner and
-- terminal_run_shell; Shell/Kept has what commands keep, Shell/Loops that they end, and the other
-- children what they are named for. Boot models
-- efi_leave_boot_services of efi_main.c, Boot/Loading efi_load_kernel, and Boot/Main efi_main,
-- from the state in which the loader starts to the call of the kernel. System puts efi_main and
-- the kernel that it calls together. Firmware is the parameter for the UEFI protocols of
-- OSC/boot/efi.h, and Layout has the structs of that file, and those of the user file, the tables
-- and the drivers, as the compiler lays them out by the x86-64 ABI: Layout/Readers and
-- Layout/Stores compare the byte offsets of the memory map and the user file with them. Pci models
-- OSC/kernel/drivers/pci.c, Mouse mouse.c beside it, Cpu OSC/kernel/cpu.c, Idt
-- OSC/kernel/drivers/system/idt.c, Irq the entry points of interrupts.S and the handlers of
-- irq_handlers.c beside it, Devices the drivers memory.c, acpi.c, battery.c, storage.c, usb.c and
-- system/pic.c, and Kernel OSC/kernel/kernel.c with system/calldrivers.c. A function that changes
-- static variables returns the new state; one that calls the firmware also returns the new world.
--
-- Numbers. Words are natural numbers, with the masks and shifts of the source written out; an int
-- is an integer by its value. Strings are arrays of cells, read up to a zero.
--
-- Bounds. A loop is a recursion on the rounds left, on the string or on the keys typed; each
-- round of the login, the editor and the shell takes a key, so one round more than there are keys
-- is enough. Two things run on fuel since nothing in the source bounds them: the retry loop of
-- efi_leave_boot_services, and terminal_execute_command, where a script can run scripts and `cat`
-- reads as long as the firmware hands out full buffers. A run that is out of fuel is told apart
-- from one that waits for a key. A command line takes a step for each `&` and `cat` one for each
-- buffer that it fills, so a line that runs no script needs no more fuel than its length, the
-- number of reads that fill a buffer and two; for the exit, as many rounds as tries are enough. A
-- script that runs itself does not end in the source either.
--
-- Not modelled: a missing console (the console protocols are taken to be there), the stack that
-- OSC/kernel/entry.S sets for the kernel, and the build. A call of the firmware is taken by the
-- name of its member, whatever the offset at which efi.h has the member. An array on the stack
-- holds what the parameter `fresh` says.
pub mod Prelude
pub mod CString
pub mod Layout
pub mod Firmware
pub mod Accounts
pub mod Eosfs
pub mod Terminal
pub mod Shell
pub mod Boot
pub mod Pci
pub mod Mouse
pub mod Cpu
pub mod Idt
pub mod Irq
pub mod Devices
pub mod Kernel
pub mod System
