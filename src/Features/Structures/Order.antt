-- ===== src/Features/Structures/Order.antt =====
-- In which order src/NVMeFeaturesAPST.c, src/NVMeFeaturesHMB.c and src/NVMeFeaturesLBARange.c ask.
use nvmetool_win.Base.{ℕ, ◌*◌, List, ◌∷◌, [], arith, length}
use nvmetool_win.Platform.{
  Platform, Layout, Request, Select, current_value, default_value, saved_value,
  supported_capabilities,
}
use nvmetool_win.Program.{World, Prog, pure, ◌>>=◌}
use nvmetool_win.Features.Reads.{Readout, completed, feature_request, get_feature32, ◌then_read◌}
use nvmetool_win.Features.Sensors.{◌then_continue◌}
use nvmetool_win.Features.Sensors.Outcomes.{Outcome, continue-Outcome}
use nvmetool_win.Features.Structures.{
  block_request, get_block, Blocks, read_blocks, get_power_transition, get_host_memory,
  get_lba_ranges, range_count, transition, host_memory, range_guids,
}

-- The four requests for a feature, in their order.
abbrev pub block_requests : Layout → ℕ → ℕ → ℕ → ℕ → List Request
block_requests l word fid sub size =
    block_request l word fid current_value sub size
    ∷ block_request l word fid default_value sub size
    ∷ block_request l word fid saved_value sub size
    ∷ feature_request l fid supported_capabilities 0
    ∷ []

abbrev pub Any {ℓ} : {A : Type ℓ} → A → Type 0
Any a = Unit

block-Outcome :
    (p : Platform) (w : World) (word fid sub size : ℕ) (used : ℕ → ℕ) (sel : Select)
    → Outcome w
        (block_request p.layout word fid sel sub size ∷ [])
        Any
        (get_block word fid sub size used sel p w)
unfolding get_block
block-Outcome p w word fid sub size used sel = ground arith

last-Outcome :
    {A : Type 0} (p : Platform) (w : World) (fid : ℕ) (f : ℕ → A)
    → Outcome w
        (feature_request p.layout fid supported_capabilities 0 ∷ [])
        Any
        ((get_feature32 fid supported_capabilities 0 then_read λ d. pure (completed (f d))) p w)
unfolding get_feature32 ◌then_read◌
last-Outcome p w fid f = ground arith

module _ {A : Type 0} (p : Platform) (word fid sub size : ℕ) (used : ℕ → ℕ)
    (decode : ℕ × List ℕ → A) where
  abbrev read : Select → Prog (Readout (ℕ × List ℕ))
  read = get_block word fid sub size used

  abbrev first : Select → Request
  first sel = block_request p.layout word fid sel sub size

  abbrev last : List Request
  last = feature_request p.layout fid supported_capabilities 0 ∷ []

  abbrev after_three : ℕ × List ℕ → ℕ × List ℕ → ℕ × List ℕ → Prog (Readout (Blocks A))
  after_three a b c = get_feature32 fid supported_capabilities 0 then_read λ d. pure (
      completed
        (record { current = decode a; default = decode b; saved = decode c; capabilities = d }))

  abbrev after_two : ℕ × List ℕ → ℕ × List ℕ → Prog (Readout (Blocks A))
  after_two a b = read saved_value then_continue λ c. after_three a b c

  abbrev after_one : ℕ × List ℕ → Prog (Readout (Blocks A))
  after_one a = read default_value then_continue λ b. after_two a b

  blocks-Outcome :
      (w : World)
      → Outcome w (block_requests p.layout word fid sub size) Any (read_blocks fid read decode p w)
  unfolding read_blocks
  blocks-Outcome w =
      continue-Outcome Any Any p w (first current_value ∷ [])
        (first default_value ∷ first saved_value ∷ last) after_one (read current_value)
        (block-Outcome p w word fid sub size used current_value)
        (λ a w1 sent1 kept1 t1.
          continue-Outcome Any Any p w1 (first default_value ∷ []) (first saved_value ∷ last)
            (after_two a) (read default_value)
            (block-Outcome p w1 word fid sub size used default_value)
            (λ b w2 sent2 kept2 t2.
              continue-Outcome Any Any p w2 (first saved_value ∷ []) last (after_three a b)
                (read saved_value) (block-Outcome p w2 word fid sub size used saved_value)
                (λ c w3 sent3 kept3 t3. last-Outcome p w3 fid (λ d. record {
                  current = decode a;
                  default = decode b;
                  saved = decode c;
                  capabilities = d;
                }))))

-- Each of the three features is asked for its current, default and saved value and then for the
-- capabilities, in this order: a completed reading has sent just these four requests, the LBA ranges
-- for 64 entries of namespace 1, and a reading that stops returns -1.
pub structures_in_order :
    (p : Platform) (w : World)
    → let l = p.layout in
      let word = p.uninitialised (length w.issued) in
      Outcome w (block_requests l word 0x0c 0 l.apst_entry) Any (get_power_transition p w)
      × Outcome w (block_requests l word 0x0d 0 4096) Any (get_host_memory p w)
      × Outcome w (block_requests l word 0x03 1 (l.lba_range * 64)) Any (get_lba_ranges p w)
unfolding get_power_transition get_host_memory get_lba_ranges ◌>>=◌
structures_in_order p w =
    let l = p.layout in
    let word = p.uninitialised (length w.issued) in
    (
      blocks-Outcome p word 0x0c 0 l.apst_entry (λ fixed. l.apst_entry) (transition l) w,
      blocks-Outcome p word 0x0d 0 4096 (λ fixed. 16) host_memory w,
      blocks-Outcome p word 0x03 1 (l.lba_range * 64) (λ fixed. range_count fixed * l.lba_range)
          (range_guids l) w,
    )
