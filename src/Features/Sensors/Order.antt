-- ===== src/Features/Sensors/Order.antt =====
-- Which thresholds are asked for, in what order, and what is reported of them.
use nvmetool_win.Base.{
  Bool, true, false, refl, sym, ℕ, zero, suc, ◌+◌, ◌≡◌, List, [], ◌∷◌, ◌++◌, ◌==◌, if◌then◌else◌,
  arith, ◌%◌, ◌^◌,
}
use nvmetool_win.Platform.{
  Platform, Layout, Request, Select, current_value, default_value, saved_value,
  supported_capabilities, over_threshold, under_threshold,
}
use nvmetool_win.Program.{World, Prog, pure}
use nvmetool_win.Features.Reads.{Readout, completed, feature_request}
use nvmetool_win.Features.Reports.{Report}
use nvmetool_win.Features.Sensors.Outcomes.{send_all, Outcome, continue-Outcome, map-Outcome}
use nvmetool_win.Features.Sensors.{
  threshold_feature, ◌then_continue◌, read_quartet, Thresholds, read_thresholds, sensor_value,
  read_sensors, get_temperature_threshold,
}

abbrev pub quartet : Layout → ℕ → ℕ → List Request
quartet l a b =
    feature_request l threshold_feature current_value a
    ∷ feature_request l threshold_feature default_value a
    ∷ feature_request l threshold_feature saved_value a
    ∷ feature_request l threshold_feature supported_capabilities b
    ∷ []

abbrev pub sensor_requests : Layout → ℕ → List Request
sensor_requests l n =
    let over = l.threshold_cdw11 over_threshold n in
    let under = l.threshold_cdw11 under_threshold n in
    quartet l over over ++ quartet l under (if n == 0 then 0 else under)

abbrev pub all_requests : Layout → List ℕ → List Request
all_requests l [] = []
all_requests l (n ∷ ns) = sensor_requests l n ++ all_requests l ns

-- The numbers of the sensors that show a temperature, among so many from `i` on.
abbrev pub shown : List ℕ → ℕ → ℕ → List ℕ
shown log zero i = []
shown log (suc rounds) i =
    let rest = shown log rounds (i + 1) in if sensor_value log i == 0 then rest else (i + 1) ∷ rest

-- What the driver answers to a request sent after those of `before`.
abbrev pub value : Platform → List Request → Request → ℕ
value p before q = (p.respond before q).fixed_return % 2 ^ 32

-- The four answers, each to its own request; a threshold is the lower half of its answer.
abbrev pub quartet_report : Platform → List Request → ℕ → ℕ → Report ℕ
quartet_report p before a b =
    let q = λ (s : Select) (cdw11 : ℕ). feature_request p.layout threshold_feature s cdw11 in
    let one = q current_value a ∷ before in
    let two = q default_value a ∷ one in
    let three = q saved_value a ∷ two in
    record {
      current = value p before (q current_value a) % 2 ^ 16;
      default = value p one (q default_value a) % 2 ^ 16;
      saved = value p two (q saved_value a) % 2 ^ 16;
      capabilities = value p three (q supported_capabilities b);
    }

abbrev pub sensor_report : Platform → List Request → ℕ → Thresholds
sensor_report p before n =
    let over = p.layout.threshold_cdw11 over_threshold n in
    let under = p.layout.threshold_cdw11 under_threshold n in
    record {
      sensor = n;
      over = quartet_report p before over over;
      under =
          quartet_report p (send_all (quartet p.layout over over) before) under
            (if n == 0 then 0 else under);
    }

abbrev pub reports : Platform → List Request → List ℕ → List Thresholds
reports p before [] = []
reports p before (n ∷ ns) =
    sensor_report p before n ∷ reports p (send_all (sensor_requests p.layout n) before) ns

quartet-Outcome :
    (p : Platform) (w : World) (a b : ℕ)
    → Outcome w
        (quartet p.layout a b)
        (λ r. r ≡ quartet_report p w.issued a b)
        (read_quartet a b p w)
unfolding read_quartet
quartet-Outcome p w a b = ground arith

thresholds-Outcome :
    (p : Platform) (w : World) (n : ℕ)
    → Outcome w
        (sensor_requests p.layout n)
        (λ t. t ≡ sensor_report p w.issued n)
        (read_thresholds n p w)
unfolding read_thresholds
thresholds-Outcome p w n =
    let l = p.layout in
    let a = l.threshold_cdw11 over_threshold n in
    let b = l.threshold_cdw11 under_threshold n in
    let c = if n == 0 then 0 else b in
    let Fits = λ (t : Thresholds). t ≡ sensor_report p w.issued n in
    let finish = λ (over under : Report ℕ).
      pure {A = Readout Thresholds}
        (completed (record { sensor = n; over = over; under = under })) in
    continue-Outcome (λ r. r ≡ quartet_report p w.issued a a) Fits p w (quartet l a a)
      (quartet l b c) (λ over. read_quartet b c then_continue finish over) (read_quartet a a)
      (quartet-Outcome p w a a)
      (λ over w1 sent same fits.
        continue-Outcome (λ r. r ≡ quartet_report p w1.issued b c) Fits p w1 (quartet l b c) []
          (finish over) (read_quartet b c) (quartet-Outcome p w1 b c)
          (λ under w2 sent2 same2 fits2. (refl, refl, rw (fits, fits2, sent) refl)))

-- The reading `m` yields the thresholds of the sensors `ns`, asked for in this order, each with the
-- answers to its own requests.
abbrev pub Reads : Platform → World → List ℕ → Prog (Readout (List Thresholds)) → Type 0
Reads p w ns m = Outcome w (all_requests p.layout ns) (λ ts. ts ≡ reports p w.issued ns) (m p w)

Reads-first :
    (p : Platform) (w : World) (n : ℕ) (ns : List ℕ) (m : Prog (Readout (List Thresholds)))
    → ((w1 : World) → w1.smart_log ≡ w.smart_log → Reads p w1 ns m)
    → Reads p w (n ∷ ns) (
        read_thresholds n then_continue λ first.
        m then_continue λ others. pure (completed (first ∷ others)))
Reads-first p w n ns m rest =
    let Fits = λ (ts : List Thresholds). ts ≡ reports p w.issued (n ∷ ns) in
    continue-Outcome (λ t. t ≡ sensor_report p w.issued n) Fits p w (sensor_requests p.layout n)
      (all_requests p.layout ns)
      (λ first. m then_continue λ others. pure (completed (first ∷ others))) (read_thresholds n)
      (thresholds-Outcome p w n)
      (λ first w1 sent kept same.
        map-Outcome (λ ts. ts ≡ reports p w1.issued ns) Fits p w1 (all_requests p.layout ns)
          (λ others. first ∷ others) m (rest w1 kept) (λ others fits. rw (same, fits, sent) refl))

Reads-if :
    (p : Platform) (w : World) (b : Bool) (ns ms : List ℕ) (m n : Prog (Readout (List Thresholds)))
    → Reads p w ns m
    → Reads p w ms n
    → Reads p w (if b then ns else ms) (if b then m else n)
Reads-if p w true ns ms m n hm hn = hm
Reads-if p w false ns ms m n hm hn = hn

Reads-sensors :
    (p : Platform) (w : World) (rounds i : ℕ)
    → Reads p w (shown w.smart_log rounds i) (read_sensors rounds i)
unfolding read_sensors
Reads-sensors p w zero i = (refl, refl, refl)
Reads-sensors p w (suc rounds) i =
    let ns = shown w.smart_log rounds (i + 1) in
    let m = read_sensors rounds (i + 1) in
    Reads-if p w (sensor_value w.smart_log i == 0) ns ((i + 1) ∷ ns) m
      (read_thresholds (i + 1) then_continue λ first.
        m then_continue λ others. pure (completed (first ∷ others)))
      (Reads-sensors p w rounds (i + 1))
      (Reads-first p w (i + 1) ns m (λ w1 kept. rw (sym kept) (Reads-sensors p w1 rounds (i + 1))))

-- A reading of the thresholds that completes has asked, in this order, for the eight settings of the
-- composite temperature and for the eight settings of each sensor that the stored SMART log shows, and
-- reports for each of these sensors the eight answers to its own requests, each in its place; one that
-- stops returns -1.
pub get_temperature_threshold_in_order :
    (p : Platform) (w : World) → Reads p w (0 ∷ shown w.smart_log 8 0) get_temperature_threshold
unfolding get_temperature_threshold
get_temperature_threshold_in_order p w =
    Reads-first p w 0 (shown w.smart_log 8 0) (read_sensors 8 0)
      (λ w1 kept. rw (sym kept) (Reads-sensors p w1 8 0))
