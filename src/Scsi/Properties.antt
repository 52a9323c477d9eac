-- ===== src/Scsi/Properties.antt =====
-- QueryPropertyForDevice of src/NVMeSCSIPassThrough.c: the descriptors of the adapter and the device.
pub mod Laws
use nvmetool_win.Base.{ℕ, Bool, true, false, ◌==◌, ◌||◌, if◌then◌else◌, Option, none, some}
use nvmetool_win.Platform.{
  Layout, Reply, SystemError, more_data, invalid_function, not_supported, other_error, Property,
  adapter_property, device_property, query_descriptor,
}
use nvmetool_win.Program.{World, Prog, pure, reads, allocate_local, touch, ◌>>=◌, ◌>>◌}
use nvmetool_win.WinFunc.{is_zero, issue_device_io_control}

-- A descriptor buffer, by its length, and what it holds: `Size` of the header, `AlignmentMask` and `SrbType`. All are 0 in a
-- buffer that was zeroed.
pub record Descriptor : Type 0 where
  pub length : ℕ
  pub size : ℕ
  pub mask : ℕ
  pub srb : ℕ

abbrev zeroed : ℕ → Descriptor
zeroed n = record { length = n; size = 0; mask = 0; srb = 0 }

-- The errors after which the buffer is zeroed and the loop goes on.
abbrev is_ignored : SystemError → Bool
is_ignored more_data = true
is_ignored invalid_function = true
is_ignored not_supported = true
is_ignored other_error = false

-- One call into a buffer of `n` bytes; `none` is the jump to Cleanup.
query_buffer : Property → ℕ → Prog (Option Descriptor)
query_buffer property n = do
  answer ← issue_device_io_control (query_descriptor property n)
  let r = answer.1
  pure (
      if is_zero answer.0
      then some
          (record { length = n; size = r.header_size; mask = r.alignment_mask; srb = r.srb_type })
      else if is_ignored r.error
      then some (zeroed n)
      else none)

-- The second of the two rounds for a property: without a size there is no buffer and no call.
fill_buffer : Property → ℕ → Prog (Option (Option Descriptor))
unfolding query_buffer
fill_buffer property size = if size == 0 then pure (some none) else do
  there ← allocate_local size
  if there
      then (do
        filled ← query_buffer property size
        pure (elim filled [ none ↦ none | some d ↦ some (some d) ]))
      else pure none

-- The step from the first round to the second.
after_header : Property → Option Descriptor → Prog (Option (Option Descriptor))
unfolding fill_buffer
after_header property none = pure none
after_header property (some d) = fill_buffer property d.size

-- The two rounds for a property: the size of the descriptor, then the descriptor. `some none` is a
-- property that the device does not have.
get_descriptor : Property → Prog (Option (Option Descriptor))
unfolding after_header
get_descriptor property = do
  l ← reads (λ p w. p.layout)
  header ← query_buffer property l.descriptor_header
  after_header property header

-- The returned status, `*AlignmentMask` and `*SrbType`.
pub record DeviceProperties : Type 0 where
  pub status : Bool
  pub alignment_mask : ℕ
  pub srb_type : ℕ

abbrev no_properties : DeviceProperties
no_properties = record { status = false; alignment_mask = 0; srb_type = 0 }

-- What is set behind the loop.
abbrev found : Option Descriptor → Option Descriptor → DeviceProperties
found (some a) d = record { status = true; alignment_mask = a.mask; srb_type = a.srb }
found none (some d) = record { status = true; alignment_mask = 0; srb_type = 0 }
found none none = no_properties

-- What is returned once the device's descriptor was asked for as well.
abbrev reported : Option Descriptor → Option (Option Descriptor) → DeviceProperties
reported a none = no_properties
reported a (some d) = found a d

-- The reads of AlignmentMask and SrbType, up to the end of the latter, whatever the buffer's length.
read_adapter : Option Descriptor → Option (Option Descriptor) → Prog (Unit {0})
read_adapter (some a) (some d) = do l ← reads (λ p w. p.layout); touch a.length l.adapter_read
read_adapter other device = pure tt

-- The step from the adapter's rounds to the device's.
after_adapter : Option (Option Descriptor) → Prog DeviceProperties
unfolding get_descriptor read_adapter
after_adapter none = pure no_properties
after_adapter (some a) = do
  device ← get_descriptor device_property
  read_adapter a device
  pure (reported a device)

-- `QueryPropertyForDevice`, and TestViaSCSIPassThrough, which only reports a failure.
unfoldable pub query_device : Prog DeviceProperties
unfolding after_adapter issue_device_io_control ◌>>=◌
query_device = do adapter ← get_descriptor adapter_property; after_adapter adapter
