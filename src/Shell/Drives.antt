-- ===== src/Shell/Drives.antt =====
-- The drive and the path that the terminal shows after a change of the drive.
use existent_os.Shell.State.{State}
