-- ===== src/Vendor.antt =====
-- The vendor-specific command: src/NVMeAdminVendorSpecificCommand.c.
pub mod Results
use nvmetool_win.Base.{ℕ, suc, ◌+◌, ◌%◌, ℤ, pos, ◌==◌, if◌then◌else◌}
use nvmetool_win.Platform.{Layout, Request, protocol_command}
use nvmetool_win.Program.{Prog, pure, reads, allocate, device_io_control, ◌>>=◌}
use nvmetool_win.WinFunc.{failed}

abbrev pub vendor_buffer : Layout → ℕ
vendor_buffer l = l.command + l.nvme_command_struct + l.identify_controller

-- The command with its test data.
abbrev pub vendor_request : Layout → ℕ → Request
vendor_request l opcode = protocol_command (record {
  opcode = opcode % 256;
  nsid = 0;
  cdw10 = 0x1;
  cdw11 = 0x12345678;
  cdw12 = 0x90abcdef;
  cdw13 = 0x23456789;
  cdw14 = 0xabcdef01;
  cdw15 = 0x34567890;
  transfer_length = l.identify_controller;
  transfer_offset = l.command + l.nvme_command_struct;
  timeout = 10;
  buffer_length = vendor_buffer l;
})

-- `iNVMeAdminVendorSpecificCommand`: the result of DeviceIoControl, which is not 0 where it succeeds,
-- or -1 where the length returned is not that of the buffer.
unfoldable pub vendor_command : ℕ → Prog ℤ
unfolding ◌>>=◌
vendor_command opcode = do
  l ← reads (λ p w. p.layout)
  buffer ← allocate (vendor_buffer l)
  if buffer == 0 then pure failed else do
    r ← device_io_control (vendor_request l opcode)
    let result = if r.accepted then pos (suc r.true_value) else pos 0
    pure (if r.returned == vendor_buffer l then result else failed)
