-- ===== src/Scsi/Properties/Laws.antt =====
-- What the query of the descriptors asks, and when it reports a device.
use nvmetool_win.Base.{All, none, some, Option, ℕ}
use nvmetool_win.Platform.{Platform, Request, query_descriptor, Property}
use nvmetool_win.Program.{World}
use nvmetool_win.Program.Keeps.{Added-All, Sends, sends_rules}
use nvmetool_win.Program.Rules.{Sends-issue}
use nvmetool_win.Scsi.Properties.{
  get_descriptor, query_device, after_header, after_adapter, Descriptor, query_buffer, fill_buffer,
  read_adapter,
}

abbrev pub IsDescriptorQuery : Request → Type 0
IsDescriptorQuery (query_descriptor property n) = Unit
IsDescriptorQuery other = ⊥

module _ {Q : Request → Type 0}
    (asks : (property : Property) (n : ℕ) → Q (query_descriptor property n)) where
  Sends-query_buffer : (c : Property) (n : ℕ) → Sends Q (query_buffer c n)
  unfolding query_buffer
  Sends-query_buffer c n = search (sends_rules, asks, Sends-issue)

  Sends-fill_buffer : (c : Property) (n : ℕ) → Sends Q (fill_buffer c n)
  unfolding fill_buffer
  Sends-fill_buffer c n = search (sends_rules, Sends-query_buffer)

  Sends-after_header : (c : Property) (d : Option Descriptor) → Sends Q (after_header c d)
  unfolding after_header
  Sends-after_header c none = search sends_rules
  Sends-after_header c (some d) = search (sends_rules, Sends-fill_buffer)

  Sends-get_descriptor : (c : Property) → Sends Q (get_descriptor c)
  unfolding get_descriptor
  Sends-get_descriptor c = search (sends_rules, Sends-query_buffer, Sends-after_header)

  Sends-read_adapter :
      (a : Option Descriptor) (d : Option (Option Descriptor)) → Sends Q (read_adapter a d)
  unfolding read_adapter
  Sends-read_adapter none d = search sends_rules
  Sends-read_adapter (some a) none = search sends_rules
  Sends-read_adapter (some a) (some d) = search sends_rules

  Sends-after_adapter : (a : Option (Option Descriptor)) → Sends Q (after_adapter a)
  unfolding after_adapter
  Sends-after_adapter none = search sends_rules
  Sends-after_adapter (some a) =
      search (sends_rules, Sends-get_descriptor, Sends-read_adapter) depth 8

  -- Any property that all queries of descriptors have.
  pub Sends-query_device : Sends Q query_device
  unfolding query_device
  Sends-query_device = search (sends_rules, Sends-get_descriptor, Sends-after_adapter)

-- The test of the pass-through asks for descriptors only: after requests of that kind, all requests
-- are still of that kind, whatever the driver answered.
pub query_device_asks :
    (p : Platform) (w : World)
    → All IsDescriptorQuery w.issued
    → All IsDescriptorQuery (query_device p w).1.issued
query_device_asks p w h = Added-All ((Sends-query_device (λ property n. tt)).adds p w) h
