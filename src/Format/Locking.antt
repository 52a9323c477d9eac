-- ===== src/Format/Locking.antt =====
-- The requests of a run of Format NVM: src/NVMeFormatNVM.c.
use nvmetool_win.Base.{◌≡◌, ◌⊎◌, true, false, ◌∷◌, arith, ◌&&◌, if◌then◌else◌}
use nvmetool_win.Platform.{Platform, lock_volume, unlock_volume, reinitialize_media}
use nvmetool_win.Program.{World}
use nvmetool_win.WinFunc.{failed, succeeded}
use nvmetool_win.Controller.Fields.{format_nvm_command, cryptographic_erase}
use nvmetool_win.Format.{format_nvm}

-- The requests of a run, one case for each way through: a controller without the command or without
-- cryptographic erase gets no request and -1; where the lock is refused it is the only request and the
-- result is -1; where it is taken the format follows and then, whether the format succeeded or not,
-- the unlock, and the result is 0 exactly where the format was accepted.
pub format_nvm_requests :
    (p : Platform) (w : World)
    → let (result, w') = format_nvm p w in
      let before = w.issued in
      let lock = p.respond before lock_volume in
      let format = p.respond (lock_volume ∷ before) reinitialize_media in
      ((format_nvm_command w.controller && cryptographic_erase w.controller ≡ false)
        × (result ≡ failed)
        × (w'.issued ≡ before))
      ⊎ ((format_nvm_command w.controller && cryptographic_erase w.controller ≡ true)
          × (lock.accepted ≡ false)
          × (result ≡ failed)
          × (w'.issued ≡ lock_volume ∷ before))
      ⊎ ((format_nvm_command w.controller && cryptographic_erase w.controller ≡ true)
          × (lock.accepted ≡ true)
          × (result ≡ (if format.accepted then succeeded else failed))
          × (w'.issued ≡ unlock_volume ∷ reinitialize_media ∷ lock_volume ∷ before))
unfolding format_nvm
format_nvm_requests p w = ground arith
