-- ===== src/Examples.antt =====
-- A device, a console and a state to try the functions on: the tests of the tree below use them.
mod Admin
mod Settings
mod Commands
mod Reports
mod Menus
mod Runs
use nvmetool_win.Base.{
  ◌==◌, ◌/◌, ℕ, zero, suc, ◌+◌, ◌-◌, ◌*◌, ◌%◌, ◌^◌, Bool, true, false, List, [], ◌∷◌, Option, none,
  some, ℤ, pos, ltb, leb, ◌&&◌, if◌then◌else◌, get_or, replicate, length,
}
use nvmetool_win.Console.Conversion.{Converter}
use nvmetool_win.Platform.{
  Platform, Layout, Request, Reply, Select, current_value, default_value, saved_value,
  supported_capabilities, Threshold, over_threshold, under_threshold, other_error,
}
use nvmetool_win.Program.{World}

abbrev pub select_code : Select → ℕ
select_code current_value = 0
select_code default_value = 1
select_code saved_value = 2
select_code supported_capabilities = 3

abbrev pub threshold_code : Threshold → ℕ
threshold_code over_threshold = 0
threshold_code under_threshold = 1

-- Sizes and encodings in the manner of nvme.h and winioctl.h.
abbrev pub layout : Layout
layout = record {
  query_parameters = 8;
  set_parameters = 8;
  specific_data = 40;
  specific_data_ext = 64;
  descriptor = 48;
  descriptor_data = 8;
  descriptor_header = 8;
  identify_controller = 4096;
  self_test_log = 564;
  self_test_result = 28;
  supported_page = 4;
  telemetry_block = 512;
  telemetry_log = 512;
  apst_entry = 8;
  lba_range = 64;
  lba_range_guid = 32;
  command = 80;
  nvme_command = 64;
  nvme_command_struct = 64;
  data_set_attributes = 28;
  data_set_range = 16;
  internal_status = 64;
  adapter_read = 31;
  get_features_cdw10 = λ word fid sel. word / 2048 * 2048 + fid + 256 * select_code sel;
  set_features_cdw10 = λ fid save. fid + 2 ^ 31 * save;
  write_cache_cdw11 = λ enable. enable;
  threshold_cdw11 = λ over sensor. 65536 * sensor + 2 ^ 20 * threshold_code over;
  log_page_cdw10 = λ lid lsp numdl. lid + 256 * lsp + 65536 * numdl;
  apst_enabled = λ v. v % 2 == 1;
  apst_power_state = λ bytes. get_or bytes 0 0 / 8;
  apst_idle_time = λ bytes. get_or bytes 1 0 + 256 * get_or bytes 2 0;
  operation_status = λ bytes. get_or bytes 0 0 % 16;
}

-- The number that a text of decimal digits spells, from `n` on.
abbrev pub spelled : ℕ → List ℕ → ℕ
spelled n [] = n
spelled n (c ∷ cs) = spelled (10 * n + (c - 48)) cs

abbrev pub scan_number : List ℕ → Option ℤ
scan_number text =
    let c = get_or text 0 0 in if leb 48 c && leb c 57 then some (pos (spelled 0 text)) else none

-- A reply that passes the tests of every handler, with the data behind the 40 bytes of a header.
abbrev pub reply : List ℕ → Reply
reply bytes = record {
  accepted = true;
  true_value = 0;
  error = other_error;
  returned = 0;
  version = 48;
  size = 48;
  data_offset = 40;
  data_length = 4096;
  fixed_return = 0x01690155;
  bytes = bytes;
  header_size = 32;
  alignment_mask = 3;
  srb_type = 1;
}

-- A device that answers each request with the same bytes, and a console that shows the lines.
abbrev pub device : List ℕ → List (List ℕ) → Platform
device bytes lines = record {
  layout = layout;
  malloc = λ n size. 0x1000;
  local_alloc = λ n size. true;
  ulong_add = λ a b. a + b;
  line = λ n. get_or lines n [];
  scan_hex = scan_number;
  scan_dec = scan_number;
  respond = λ before q. reply bytes;
  os_version = none;
  uninitialised = λ n. 0xdeadbeef;
}

abbrev pub put : ℕ → ℕ → List ℕ → List ℕ
put i b [] = []
put zero b (x ∷ xs) = b ∷ xs
put (suc i) b (x ∷ xs) = x ∷ put i b xs

-- A controller of version 1.4 with one namespace, all optional admin commands, and thermal management
-- between 273 and 400 Kelvin.
abbrev pub controller : List ℕ
controller = put 0 0x86 (
    put 1 0x80 (
      put 81 4 (
        put 82 1 (
          put 256 0x1f (
            put 261 0x0e (
              put 516 1 (
                put 524 4 (
                  put 322 1
                    (put 324 0x11 (put 325 1 (put 326 0x90 (put 327 1 (replicate 530 0)))))))))))))

-- A controller whose subsystem has a name of two letters, and conversions that keep each character.
abbrev pub named_subsystem : List ℕ
named_subsystem = put 768 0x6e (put 769 0x71 (replicate 800 0))

abbrev pub converter : Converter
converter = record {
  wide_length = λ s. length s + 1;
  wide = λ s n. some s;
  text_length = λ s. length s + 1;
  text = λ s n. some s;
  allocates = λ k n. true;
}

abbrev pub answers : List ℕ → List ℕ
answers bytes = go 40
  where
    go : ℕ → List ℕ
    go zero = bytes
    go (suc n) = 0 ∷ go n

abbrev pub world : World
world = record {
  controller = controller;
  smart_log = put 200 0x40 (put 201 1 (replicate 512 0));
  namespace_data = [];
  namespace_known = false;
  smart_with_nsid_zero = false;
  supports_protocol = λ c. true;
  protocol_count = 0;
  os_build = 0;
  os_major = 0;
  lines_read = 0;
  allocations = 0;
  issued = [];
  overread = false;
}
