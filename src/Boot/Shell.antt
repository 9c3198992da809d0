-- ===== src/Boot/Shell.antt =====
-- From a disk with a shell on it to the shell in ring 3: `init` of src/lib.rs from the file system on,
-- with the driver, the file system, the loader and the scheduler together.
use lobster_os_legacy.Paging.{Paging}
use lobster_os_legacy.Disk.Drive.{Drive}
use lobster_os_legacy.Process.{Process}
use lobster_os_legacy.Scheduler.{Scheduler}
