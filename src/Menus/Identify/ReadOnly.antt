-- ===== src/Menus/Identify/ReadOnly.antt =====
-- The requests of Identify: src/NVMeIdentify.c and the structures that it reads.
use nvmetool_win.Base.{
  ◌≡◌, refl, ◌≤◌, true, false, Bool-cases, inl, inr, arith, ℤ, ℕ, List, Option, none, some,
}
use nvmetool_win.Platform.{Platform, Layout, Reply, Property, adapter_protocol_specific}
use nvmetool_win.Program.Requests.{IsReading}
use nvmetool_win.Program.Rules.{handler_rules}
use nvmetool_win.Program.Keeps.{Added, nothing, Sends, sends_rules}
use nvmetool_win.Startup.ReadOnly.{Sends-identify_controller}
use nvmetool_win.Namespace.{
  check_structure, get_structure, keep_namespace, identify_namespace, identify_io_namespace,
  identify_iocs, identify_iocs_namespace, identify_descriptor, identify_active_list,
}
use nvmetool_win.Program.{World, ◌>>=◌}
use nvmetool_win.Namespace.Keeping.{again, keep}
use nvmetool_win.Menus.Rules.{menu_rules}
use nvmetool_win.Menus.Identify.{choose_structure, identify_menu}

Sends-check_structure : (n : ℕ) (l : Layout) (r : Reply) → Sends IsReading (check_structure n l r)
unfolding check_structure
Sends-check_structure n l r = search handler_rules depth 8

Sends-get_structure :
    (property : Property) (cns nsid n : ℕ) → Sends IsReading (get_structure property cns nsid n)
unfolding get_structure
Sends-get_structure property cns nsid n = search (handler_rules, Sends-check_structure) depth 8

keep_namespace-issued :
    (result : ℤ) (bytes : Option (List ℕ)) (p : Platform) (w : World)
    → let w' = (keep_namespace result bytes p w).1 in
      (w'.issued ≡ w.issued) × (w'.lines_read ≡ w.lines_read)
unfolding keep_namespace ◌>>=◌
keep_namespace-issued result none p w = (refl, refl)
keep_namespace-issued result (some bytes) p w = (refl, refl)

-- The first fetch sends what the read of the structure sends.
fetch_reads :
    (p : Platform) (w : World) (nsid : ℕ)
    → w.namespace_known ≡ false
    → let w' = (identify_namespace nsid p w).1 in
      Added IsReading w.issued w'.issued × (w.lines_read ≤ w'.lines_read)
fetch_reads p w nsid unknown =
    let fetch = Sends-get_structure adapter_protocol_specific 0x00 nsid 4096 in
    let (answer, w') = get_structure adapter_protocol_specific 0x00 nsid 4096 p w in
    let (issued, lines) = keep_namespace-issued answer.0 answer.1 p w' in
    rw (keep p w nsid unknown, issued, lines) (fetch.adds p w, fetch.reads_on p w)

known_reads :
    (p : Platform) (w : World) (nsid : ℕ)
    → w.namespace_known ≡ true
    → let w' = (identify_namespace nsid p w).1 in
      Added IsReading w.issued w'.issued × (w.lines_read ≤ w'.lines_read)
known_reads p w nsid known = rw (again p w nsid known) (nothing, omega arith)

identify_namespace_reads :
    (p : Platform) (w : World) (nsid : ℕ)
    → let w' = (identify_namespace nsid p w).1 in
      Added IsReading w.issued w'.issued × (w.lines_read ≤ w'.lines_read)
identify_namespace_reads p w nsid = elim (Bool-cases w.namespace_known) [
  | inl known ↦ known_reads p w nsid known
  | inr unknown ↦ fetch_reads p w nsid unknown
]

Sends-identify_namespace : (nsid : ℕ) → Sends IsReading (identify_namespace nsid)
Sends-identify_namespace nsid = record {
  adds = λ p w. (identify_namespace_reads p w nsid).0;
  reads_on = λ p w. (identify_namespace_reads p w nsid).1;
  keeps = λ p w known. rw (again p w nsid known) (known, refl);
}

Sends-identify_io_namespace : (nsid : ℕ) → Sends IsReading (identify_io_namespace nsid)
unfolding identify_io_namespace
Sends-identify_io_namespace nsid = search (sends_rules, Sends-get_structure)

Sends-identify_iocs : (nsid : ℕ) → Sends IsReading (identify_iocs nsid)
unfolding identify_iocs
Sends-identify_iocs nsid = search (sends_rules, Sends-identify_io_namespace) depth 8

Sends-identify_iocs_namespace : (nsid : ℕ) → Sends IsReading (identify_iocs_namespace nsid)
unfolding identify_iocs_namespace
Sends-identify_iocs_namespace nsid =
    search (sends_rules, Sends-identify_namespace, Sends-identify_iocs) depth 8

Sends-identify_descriptor : (nsid : ℕ) → Sends IsReading (identify_descriptor nsid)
unfolding identify_descriptor
Sends-identify_descriptor nsid = search (sends_rules, Sends-get_structure)

Sends-identify_active_list : Sends IsReading identify_active_list
unfolding identify_active_list
Sends-identify_active_list = search (sends_rules, Sends-get_structure)

Sends-choose_structure : (cns : ℤ) → Sends IsReading (choose_structure cns)
unfolding choose_structure
Sends-choose_structure cns =
    search
      (
        sends_rules, menu_rules, Sends-identify_namespace, Sends-identify_iocs_namespace,
        Sends-identify_controller, Sends-identify_descriptor, Sends-identify_active_list,
      )
      depth 16

pub Sends-identify_menu : Sends IsReading identify_menu
unfolding identify_menu
Sends-identify_menu = search (handler_rules, Sends-choose_structure)
