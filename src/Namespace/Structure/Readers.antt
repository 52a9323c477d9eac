-- ===== src/Namespace/Structure/Readers.antt =====
-- The report of a namespace and the declaration of its structure.
use Prim.Native.String.{String}
use mathlib.Core.Option
use nvmetool_win.Base.{ℕ, ◌≡◌, refl, Bool, List, [], ◌∷◌, Option, some, map, arith}
use nvmetool_win.Controller.Layout.{has, placed, unit_of, fields_of, is_set, declared_flags}
use nvmetool_win.Controller.Version.{is_v13_or_later, is_v14_or_later, is_v20_or_later}
use nvmetool_win.Namespace.Report.{
  sizes, feature_flags, protection, deallocation, sectors, atomic_units,
}
use nvmetool_win.Namespace.Structure.{namespace_structure}

module _ (size align : ℕ) (c ns : List ℕ) where
  abbrev pub number_of : String → Option ℕ
  number_of f = unit_of ns f (placed 0 (namespace_structure size align))

  abbrev pub flags_of : String → List (ℕ × Bool)
  flags_of f =
      declared_flags (has (is_v13_or_later c) (is_v14_or_later c) (is_v20_or_later c)) ns f
        (placed 0 (namespace_structure size align))

  abbrev pub bit_of : String → String → Option Bool
  bit_of f b = is_set ns f b (placed 0 (namespace_structure size align))

  -- The sizes, the units of atomic operations and the limits of copies are the members of these names
  -- in the declaration of the structure, whatever size and alignment an LBA format has.
  numbers_declared :
      (map number_of ("NSZE" ∷ "NCAP" ∷ "NUSE" ∷ []) ≡ map (λ p. some p.0) (sizes (c, ns)))
      × (map
            (λ f. Option.map sectors (number_of f))
            ("NAWUN" ∷ "NAWUPF" ∷ "NACWU" ∷ "NABSN" ∷ "NABSPF" ∷ "NOIOB" ∷ [])
          ≡ map some (atomic_units ns))
  unfolding sizes atomic_units placed unit_of namespace_structure
  numbers_declared = (refl, refl)

  flags_declared :
      (feature_flags (c, ns) ≡ flags_of "NSFEAT")
      × ((protection ns).0 ≡ flags_of "MC")
      × ((protection ns).1 ≡ flags_of "DPC")
      × (bit_of "DPS" "InfoAtBeginningOfMetadata" ≡ some (protection ns).2)
      × (bit_of "NMIC" "SharedNameSpace" ≡ some (protection ns).4)
      × (bit_of "DLFEAT" "IsGuardFieldCRC" ≡ some (deallocation ns).0)
      × (bit_of "DLFEAT" "DeallocateInWriteZero" ≡ some (deallocation ns).1)
  unfolding feature_flags protection deallocation placed unit_of fields_of is_set
      namespace_structure
  flags_declared = (ground arith, refl, refl, refl, refl, refl, refl)

  -- Whatever the data hold, the sizes, the units of atomic operations, the features and the protection
  -- that are shown of a namespace are the members and bit fields of these names in the declaration of
  -- the structure, laid out by the rules of C, whatever size and alignment an LBA format has; of the
  -- features those that the revision has.
  pub namespace_declared :
      ((map number_of ("NSZE" ∷ "NCAP" ∷ "NUSE" ∷ []) ≡ map (λ p. some p.0) (sizes (c, ns)))
        × (map
              (λ f. Option.map sectors (number_of f))
              ("NAWUN" ∷ "NAWUPF" ∷ "NACWU" ∷ "NABSN" ∷ "NABSPF" ∷ "NOIOB" ∷ [])
            ≡ map some (atomic_units ns)))
      × ((feature_flags (c, ns) ≡ flags_of "NSFEAT")
          × ((protection ns).0 ≡ flags_of "MC")
          × ((protection ns).1 ≡ flags_of "DPC")
          × (bit_of "DPS" "InfoAtBeginningOfMetadata" ≡ some (protection ns).2)
          × (bit_of "NMIC" "SharedNameSpace" ≡ some (protection ns).4)
          × (bit_of "DLFEAT" "IsGuardFieldCRC" ≡ some (deallocation ns).0)
          × (bit_of "DLFEAT" "DeallocateInWriteZero" ≡ some (deallocation ns).1))
  namespace_declared = (numbers_declared, flags_declared)
