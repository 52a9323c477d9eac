-- ===== src/Features/Reads/Order.antt =====
-- The order of the four reads, and where they stop.
use nvmetool_win.Base.{ℕ, ◌%◌, ◌^◌, ◌≡◌, ◌⊎◌, true, List, ◌∷◌, arith}
use nvmetool_win.Platform.{
  Platform, Request, Select, current_value, default_value, saved_value, supported_capabilities,
}
use nvmetool_win.Program.{World}
use nvmetool_win.WinFunc.{failed}
use nvmetool_win.Features.Reads.{
  feature_request, Readout, stopped, completed, Settings, read_settings,
}

-- The driver accepts the request `q`, sent after `before`, with a valid header and the value `v`.
abbrev pub Answers : Platform → List Request → Request → ℕ → Type 0
Answers p before q v =
    let r = p.respond before q in
    (r.accepted ≡ true)
    × (r.version ≡ p.layout.descriptor)
    × (r.size ≡ p.layout.descriptor)
    × (r.fixed_return % 2 ^ 32 ≡ v)

-- What a finished reading means, by how it ended.
abbrev pub ReadInOrder : Platform → ℕ → World → Readout Settings × World → Type 0
ReadInOrder p fid w (stopped result, w') =
    let q = λ (s : Select). feature_request p.layout fid s 0 in
    (result ≡ failed)
    × ((w'.issued ≡ w.issued)
        ⊎ (w'.issued ≡ q current_value ∷ w.issued)
        ⊎ (w'.issued ≡ q default_value ∷ q current_value ∷ w.issued)
        ⊎ (w'.issued ≡ q saved_value ∷ q default_value ∷ q current_value ∷ w.issued)
        ⊎ (w'.issued
            ≡ q supported_capabilities
              ∷ q saved_value
              ∷ q default_value
              ∷ q current_value
              ∷ w.issued))
ReadInOrder p fid w (completed s, w') =
    let q = λ (s : Select). feature_request p.layout fid s 0 in
    let one = q current_value ∷ w.issued in
    let two = q default_value ∷ one in
    let three = q saved_value ∷ two in
    (w'.issued ≡ q supported_capabilities ∷ three)
    × Answers p w.issued (q current_value) s.current
    × Answers p one (q default_value) s.default
    × Answers p two (q saved_value) s.saved
    × Answers p three (q supported_capabilities) s.capabilities

-- The current, default and saved values and the capabilities are asked for in this order, each only
-- after the ones before it were answered. A completed reading holds the four answers; one that stops
-- returns -1 and sends nothing more.
pub read_settings_in_order :
    (p : Platform) (fid : ℕ) (w : World) → ReadInOrder p fid w (read_settings fid p w)
unfolding read_settings
read_settings_in_order p fid w = ground arith
