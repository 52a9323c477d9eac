-- ===== src/Deallocate.antt =====
-- Deallocation of the first sector: src/NVMeDeallocate.c.
use nvmetool_win.Base.{ℕ, ◌+◌, ℤ}
use nvmetool_win.Platform.{Layout, Request, manage_data_set}
use nvmetool_win.Program.{Prog, pure, reads, ◌>>=◌}
use nvmetool_win.WinFunc.{succeeded, with_reply}

abbrev deallocate_buffer : Layout → ℕ
deallocate_buffer l = l.data_set_attributes + l.data_set_range

-- A trim of 512 bytes at offset 0, not routed through a file system.
abbrev pub deallocate_request : Layout → Request
deallocate_request l = manage_data_set (record {
  ranges_offset = l.data_set_attributes;
  ranges_length = l.data_set_range;
  starting_offset = 0;
  length_in_bytes = 512;
  buffer_length = deallocate_buffer l;
})

-- `iNVMeDeallocate`
unfoldable pub deallocate : Prog ℤ
unfolding with_reply ◌>>=◌
deallocate = do
  l ← reads (λ p w. p.layout)
  with_reply (deallocate_buffer l) (deallocate_request l) (λ r. pure succeeded)
