-- ===== src/Menus/Identify/Routes.antt =====
-- Which command the menu of src/NVMeIdentify.c runs.
use nvmetool_win.Base.{◌+◌, ℕ, ◌∷◌, ◌≡◌, ◌⊎◌, inl, inr, pos, arith}
use nvmetool_win.Platform.{Platform, device_protocol_specific}
use nvmetool_win.Program.{World}
use nvmetool_win.WinFunc.{failed}
use nvmetool_win.Console.{first_char, scanned}
use nvmetool_win.Controller.Identify.{identify_controller}
use nvmetool_win.Namespace.{
  structure_request, identify_namespace, identify_active_list, identify_descriptor,
  identify_iocs_namespace,
}
use nvmetool_win.Menus.Identify.{identify_menu}

-- No request, or the one for a structure that names no namespace.
abbrev pub MayAsk : Platform → ℕ → World → World → Type 0
MayAsk p cns w w' =
    let q = structure_request p.layout device_protocol_specific cns 0 4096 in
    (w'.issued ≡ w.issued) ⊎ (w'.issued ≡ q ∷ w.issued)

list_asks : (p : Platform) (w : World) → MayAsk p 0x02 w (identify_active_list p w).1
unfolding identify_active_list
list_asks p w = ground arith

descriptor_asks :
    (p : Platform) (w : World) (nsid : ℕ) → MayAsk p 0x03 w (identify_descriptor nsid p w).1
unfolding identify_descriptor
descriptor_asks p w nsid = ground arith

routes :
    (p : Platform) (w : World)
    → let cns = scanned (p.scan_hex (p.line w.lines_read)) in
      let confirmed = first_char (p.line (w.lines_read + 1)) ≡ b'y' in
      let asked : World = record w { lines_read = w.lines_read + 2 } in
      let (result, w') = identify_menu p w in
      ((cns ≡ pos 0x00) × confirmed × ((result, w') ≡ identify_namespace 1 p asked))
      ⊎ ((cns ≡ pos 0x01) × confirmed × ((result, w') ≡ identify_controller p asked))
      ⊎ ((cns ≡ pos 0x02)
          × confirmed
          × (result ≡ (identify_active_list p asked).0.0)
          × (w' ≡ (identify_active_list p asked).1))
      ⊎ ((cns ≡ pos 0x03)
          × confirmed
          × (result ≡ (identify_descriptor 1 p asked).0.0)
          × (w' ≡ (identify_descriptor 1 p asked).1))
      ⊎ ((cns ≡ pos 0x05) × confirmed × ((result, w') ≡ identify_iocs_namespace 1 p asked))
      ⊎ ((result ≡ failed)
          × (w'.issued ≡ w.issued)
          × ¬ ((cns ≡ pos 0x00) × confirmed)
          × ¬ ((cns ≡ pos 0x01) × confirmed)
          × ¬ ((cns ≡ pos 0x02) × confirmed)
          × ¬ ((cns ≡ pos 0x03) × confirmed)
          × ¬ ((cns ≡ pos 0x05) × confirmed))
unfolding identify_menu
routes p w = ground arith

-- Identify runs one of its five commands, each only for its CNS value and after a 'y', with the two
-- lines read: 00h and 05h for namespace 1, 01h for the controller, and 02h and 03h, whose one request, if
-- there is memory for it, names namespace 0. Where it runs none, it sends nothing and returns -1, and
-- that is so for each other value and each other answer.
pub identify_menu_guarded :
    (p : Platform) (w : World)
    → let cns = scanned (p.scan_hex (p.line w.lines_read)) in
      let confirmed = first_char (p.line (w.lines_read + 1)) ≡ b'y' in
      let asked : World = record w { lines_read = w.lines_read + 2 } in
      let (result, w') = identify_menu p w in
      ((cns ≡ pos 0x00) × confirmed × ((result, w') ≡ identify_namespace 1 p asked))
      ⊎ ((cns ≡ pos 0x01) × confirmed × ((result, w') ≡ identify_controller p asked))
      ⊎ ((cns ≡ pos 0x02)
          × confirmed
          × (result ≡ (identify_active_list p asked).0.0)
          × (w' ≡ (identify_active_list p asked).1)
          × MayAsk p 0x02 w w')
      ⊎ ((cns ≡ pos 0x03)
          × confirmed
          × (result ≡ (identify_descriptor 1 p asked).0.0)
          × (w' ≡ (identify_descriptor 1 p asked).1)
          × MayAsk p 0x03 w w')
      ⊎ ((cns ≡ pos 0x05) × confirmed × ((result, w') ≡ identify_iocs_namespace 1 p asked))
      ⊎ ((result ≡ failed)
          × (w'.issued ≡ w.issued)
          × ¬ ((cns ≡ pos 0x00) × confirmed)
          × ¬ ((cns ≡ pos 0x01) × confirmed)
          × ¬ ((cns ≡ pos 0x02) × confirmed)
          × ¬ ((cns ≡ pos 0x03) × confirmed)
          × ¬ ((cns ≡ pos 0x05) × confirmed))
identify_menu_guarded p w =
    let asked : World = record w { lines_read = w.lines_read + 2 } in
    elim (routes p w) [
      | inl r ↦ inl r
      | inr (inl r) ↦ inr (inl r)
      | inr (inr (inl (cns, y, result, same))) ↦
          inr (inr (inl (cns, y, result, same, rw same (list_asks p asked))))
      | inr (inr (inr (inl (cns, y, result, same)))) ↦
          inr (inr (inr (inl (cns, y, result, same, rw same (descriptor_asks p asked 1)))))
      | inr (inr (inr (inr (inl r)))) ↦ inr (inr (inr (inr (inl r))))
      | inr (inr (inr (inr (inr r)))) ↦ inr (inr (inr (inr (inr r))))
    ]
