-- ===== src/Vendor/Results.antt =====
-- What src/NVMeAdminVendorSpecificCommand.c returns.
use nvmetool_win.Base.{ℕ, suc, ◌≡◌, ◌≢◌, ◌⊎◌, ◌∷◌, true, false, pos, arith}
use nvmetool_win.Platform.{Platform}
use nvmetool_win.Program.{World}
use nvmetool_win.WinFunc.{failed, succeeded}
use nvmetool_win.Vendor.{vendor_buffer, vendor_request, vendor_command}

-- Without memory nothing is sent and the result is -1. Otherwise the command is the one request, and
-- the result is -1 where another length came back than that of the buffer, the value of DeviceIoControl,
-- which is not 0, where the driver accepted the command, and the 0 of a success where the driver
-- refused it.
pub vendor_command_results :
    (p : Platform) (w : World) (opcode : ℕ)
    → let (result, w') = vendor_command opcode p w in
      let q = vendor_request p.layout opcode in
      let r = p.respond w.issued q in
      let memory = p.malloc w.allocations (vendor_buffer p.layout) in
      ((memory ≡ 0) × (result ≡ failed) × (w'.issued ≡ w.issued))
      ⊎ ((memory ≢ 0)
          × (w'.issued ≡ q ∷ w.issued)
          × (((r.returned ≢ vendor_buffer p.layout) × (result ≡ failed))
              ⊎ ((r.returned ≡ vendor_buffer p.layout)
                  × (r.accepted ≡ true)
                  × (result ≡ pos (suc r.true_value)))
              ⊎ ((r.returned ≡ vendor_buffer p.layout)
                  × (r.accepted ≡ false)
                  × (result ≡ succeeded))))
unfolding vendor_command
vendor_command_results p w opcode = ground arith
