-- ===== src/Controller/Report/Order/Declared.antt =====
-- The report and the declaration of the structure.
use Prim.Native.String.{String}
use nvmetool_win.Base.{ℕ, ◌≡◌, refl, Bool, true, false, List, [], ◌∷◌, ◌++◌}
use nvmetool_win.Controller.Version.{is_v13_or_later, is_v14_or_later, is_v20_or_later}
use nvmetool_win.Controller.Layout.{has, Since, Member, number, reserved, bit_field, records}
use nvmetool_win.Controller.Structure.{structure}
use nvmetool_win.Controller.Report.Order.{
  sections_if, first_sections, admin_sections, last_sections, sections,
}

-- The names of the members that a revision has, without the reserved ones.
abbrev pub names : (Since → Bool) → List Member → List String
names on [] = []
names on (number f width count since ∷ ms) = sections_if (on since) (f ∷ []) ++ names on ms
names on (reserved width count ∷ ms) = names on ms
names on (bit_field f width since fields ∷ ms) = sections_if (on since) (f ∷ []) ++ names on ms
names on (records f size align count ∷ ms) = f ∷ names on ms

by_versions :
    (v13 v14 v20 : Bool) (size align : ℕ)
    → (first_sections v13 v14 v20 ++ (admin_sections v13 v14 v20 ++ last_sections v13 v14 v20))
        ++ ("VS" ∷ [])
      ≡ names (has v13 v14 v20) (structure size align)
unfolding first_sections admin_sections last_sections structure
by_versions false false false size align = refl
by_versions false false true size align = refl
by_versions false true false size align = refl
by_versions false true true size align = refl
by_versions true false false size align = refl
by_versions true false true size align = refl
by_versions true true false size align = refl
by_versions true true true size align = refl

-- The report prints the members of the structure in the order of their declaration, each once:
-- exactly those that are not reserved and whose mark the revision of the controller reaches, but for
-- the bytes of the vendor at the end.
pub sections_lem :
    (c : List ℕ) (size align : ℕ)
    → sections c ++ ("VS" ∷ [])
      ≡ names
          (has (is_v13_or_later c) (is_v14_or_later c) (is_v20_or_later c))
          (structure size align)
unfolding sections
sections_lem c size align =
    by_versions (is_v13_or_later c) (is_v14_or_later c) (is_v20_or_later c) size align
