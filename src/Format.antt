-- ===== src/Format.antt =====
-- Format NVM: src/NVMeFormatNVM.c.
pub mod Locking
use nvmetool_win.Base.{ℕ, Bool, true, false, ℤ, not, if◌then◌else◌}
use nvmetool_win.Platform.{lock_volume, unlock_volume, reinitialize_media}
use nvmetool_win.Program.{World, Prog, pure, reads, ◌>>=◌, ◌>>◌}
use nvmetool_win.WinFunc.{failed, succeeded, is_zero, issue_device_io_control}
use nvmetool_win.Controller.Fields.{format_nvm_command, cryptographic_erase}

-- `siNVMeDoFormat`
do_format : Prog ℤ
do_format = do answer ← issue_device_io_control reinitialize_media; pure answer.0

-- `siLockDrive`
lock_drive : Prog ℤ
lock_drive = do answer ← issue_device_io_control lock_volume; pure answer.0

-- `svUnlockDrive`: a failure is only reported.
unlock_drive : Prog (Unit {0})
unlock_drive = do answer ← issue_device_io_control unlock_volume; pure tt

-- The part of iNVMeFormatNVM behind its two tests.
format_locked : Prog ℤ
unfolding do_format unlock_drive
format_locked = do result ← do_format; unlock_drive; pure result

-- `iNVMeFormatNVM`
unfoldable pub format_nvm : Prog ℤ
unfolding lock_drive format_locked issue_device_io_control ◌>>=◌
format_nvm = do
  c ← reads (λ p w. w.controller)
  if not (format_nvm_command c)
      then pure failed
      else if not (cryptographic_erase c)
      then pure failed
      else do locked ← lock_drive; if is_zero locked then format_locked else pure locked
