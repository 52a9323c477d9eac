-- ===== src/LogPages/Effects/Names.antt =====
-- The names of the commands of src/NVMeCommandSupportedAndEffects.c, strAdminCommand and strNVMCommand,
-- by their opcodes.
pub mod Lookup
use Prim.Native.String.{String}
use nvmetool_win.Base.{ℕ, List, [], ◌∷◌, ◌++◌, replicate}

-- strAdminCommand up to 7Fh
unfoldable pub admin_names_low : List String
admin_names_low =
    (("Delete I/O Submission Queue" ∷ "Create I/O Submission Queue" ∷ "Get Log Page" ∷ "(reserved)"
        ∷ "Delete I/O Completion Queue" ∷ "Create I/O Completion Queue" ∷ "Identify" ∷ "(reserved)"
        ∷ "Abort" ∷ "Set Features" ∷ "Get Features" ∷ "(reserved)" ∷ "Asynchronous Event Request"
        ∷ "Namespace Management" ∷ [])
      ++ (replicate 2 "(reserved)"
          ++ (("Firmware Commit" ∷ "Firmware Image Download" ∷ [])
              ++ (replicate 2 "(reserved)"
                  ++ (("Device Self-test" ∷ "Namespace Attachment" ∷ [])
                      ++ (replicate 2 "(reserved)"
                          ++ (("Keep Alive" ∷ "Directive Send" ∷ "Directive Receive" ∷ "(reserved)"
                                ∷ "Virtualization Management" ∷ "NVMe-MI Send" ∷ "NVMe-MI Receive"
                                ∷ "(reserved)" ∷ "Capacity Management" ∷ [])
                              ++ (replicate 3 "(reserved)"
                                  ++ (("Lockdown" ∷ [])
                                      ++ (replicate 87 "(reserved)"
                                          ++ (("Doorbell Buffer Config" ∷ [])
                                              ++ (replicate 2 "(reserved)"
                                                  ++ ("(refer to the NVMe over Fabrics specification)"
                                                      ∷ [])))))))))))))

-- strAdminCommand from 80h on
unfoldable pub admin_names_high : List String
admin_names_high =
    (("Format NVM" ∷ "Security Send" ∷ "Security Receive" ∷ "(reserved)" ∷ "Sanitize" ∷ "(reserved)"
        ∷ "Get LBA Status" ∷ [])
      ++ (replicate 57 "(reserved)" ++ replicate 64 "(Vendor specific)"))

-- strNVMCommand up to 7Fh
unfoldable pub nvm_names_low : List String
nvm_names_low =
    (("Flush" ∷ "Write" ∷ "Read" ∷ "(reserved)" ∷ "Write Uncorrectable" ∷ "Compare" ∷ [])
      ++ (replicate 2 "(reserved)"
          ++ (("Write Zeroes" ∷ "Dataset Management" ∷ [])
              ++ (replicate 2 "(reserved)"
                  ++ (("Verify" ∷ "Reservation Register" ∷ "Reservation Report" ∷ [])
                      ++ (replicate 2 "(reserved)"
                          ++ (("Reservation Acquire" ∷ [])
                              ++ (replicate 3 "(reserved)"
                                  ++ (("Reservation Release" ∷ [])
                                      ++ (replicate 3 "(reserved)"
                                          ++ (("Copy" ∷ []) ++ replicate 102 "(reserved)")))))))))))

-- strNVMCommand from 80h on
unfoldable pub nvm_names_high : List String
nvm_names_high = replicate 128 "(Vendor specific)"

unfoldable pub admin_names : List String
unfolding admin_names_low admin_names_high
admin_names = admin_names_low ++ admin_names_high

unfoldable pub nvm_names : List String
unfolding nvm_names_low nvm_names_high
nvm_names = nvm_names_low ++ nvm_names_high
