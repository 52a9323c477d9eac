-- ===== src/Features/Sensors/Outcomes.antt =====
-- How a chain of readings ends: the requests that it sends in their order, and what it yields.
use nvmetool_win.Base.{refl, sym, ap, ◌∙◌, ◌≡◌, List, [], ◌∷◌, ◌++◌}
use nvmetool_win.Platform.{Platform, Request}
use nvmetool_win.Program.{World, Prog, pure}
use nvmetool_win.WinFunc.{failed}
use nvmetool_win.Features.Reads.{Readout, stopped, completed}
use nvmetool_win.Features.Sensors.{go_on, ◌then_continue◌}

-- The requests `qs`, sent in their order after those of `before`.
abbrev pub send_all : List Request → List Request → List Request
send_all [] before = before
send_all (q ∷ qs) before = send_all qs (q ∷ before)

send_all-++ :
    (qs rs before : List Request) → send_all (qs ++ rs) before ≡ send_all rs (send_all qs before)
send_all-++ [] rs before = refl
send_all-++ (q ∷ qs) rs before = send_all-++ qs rs (q ∷ before)

-- How a reading ends from `w`: it stops with -1, or it has sent the requests `qs` in their order, left
-- the SMART log alone, and read what satisfies `P`.
abbrev pub Outcome {ℓ} :
    {A : Type ℓ} → World → List Request → (A → Type 0) → Readout A × World → Type 0
Outcome w qs P (stopped result, w') = result ≡ failed
Outcome w qs P (completed a, w') =
    (w'.issued ≡ send_all qs w.issued) × (w'.smart_log ≡ w.smart_log) × P a

shift-Outcome {ℓ} :
    {A : Type ℓ} (P : A → Type 0) (w w1 : World) (qs rs : List Request) (r : Readout A × World)
    → w1.issued ≡ send_all qs w.issued
    → w1.smart_log ≡ w.smart_log
    → Outcome w1 rs P r
    → Outcome w (qs ++ rs) P r
shift-Outcome P w w1 qs rs (stopped result, w2) sent kept h = h
shift-Outcome P w w1 qs rs (completed a, w2) sent kept (sent2, kept2, fits) =
    (sent2 ∙ ap (send_all rs) sent ∙ sym (send_all-++ qs rs w.issued), kept2 ∙ kept, fits)

module _ {ℓ κ} {A : Type ℓ} {B : Type κ} (P : A → Type 0) (Q : B → Type 0) (p : Platform)
    (w : World) where
  pub continue-Outcome :
      (qs rs : List Request) (f : A → Prog (Readout B)) (m : Prog (Readout A))
      → Outcome w qs P (m p w)
      → ((a : A) (w1 : World)
          → w1.issued ≡ send_all qs w.issued
          → w1.smart_log ≡ w.smart_log
          → P a
          → Outcome w1 rs Q (f a p w1))
      → Outcome w (qs ++ rs) Q ((m then_continue f) p w)
  unfolding ◌then_continue◌
  continue-Outcome qs rs f m first rest = go (m p w) first
    where
      go : (r : Readout A × World) → Outcome w qs P r → Outcome w (qs ++ rs) Q (go_on f r.0 p r.1)
      go (stopped result, w1) h = h
      go (completed a, w1) (sent, kept, fits) =
          shift-Outcome Q w w1 qs rs (f a p w1) sent kept (rest a w1 sent kept fits)

  -- The value that a completed reading yields is passed through a function.
  pub map-Outcome :
      (qs : List Request) (f : A → B) (m : Prog (Readout A))
      → Outcome w qs P (m p w)
      → ((a : A) → P a → Q (f a))
      → Outcome w qs Q ((m then_continue λ a. pure (completed (f a))) p w)
  unfolding ◌then_continue◌
  map-Outcome qs f m first fits = go (m p w) first
    where
      go :
          (r : Readout A × World)
          → Outcome w qs P r
          → Outcome w qs Q (go_on (λ a. pure (completed (f a))) r.0 p r.1)
      go (stopped result, w1) h = h
      go (completed a, w1) (sent, kept, h) = (sent, kept, fits a h)
