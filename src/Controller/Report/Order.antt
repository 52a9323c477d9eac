-- ===== src/Controller/Report/Order.antt =====
-- The order of the report, vPrintNVMeIdentifyControllerData of src/NVMeIdentifyControllerData.c: the
-- members of the structure whose values are printed, in the order of the printing.
pub mod Declared
use Prim.Native.String.{String}
use nvmetool_win.Base.{Bool, List, [], ◌∷◌, ◌++◌, ℕ, if◌then◌else◌}
use nvmetool_win.Controller.Version.{is_v13_or_later, is_v14_or_later, is_v20_or_later}

-- Members that are only printed from a version on.
abbrev pub sections_if : Bool → List String → List String
sections_if b fs = if b then fs else []

-- By the three version tests. Up to MEC: the vendor, the names, the version and the attributes.
unfoldable pub first_sections : Bool → Bool → Bool → List String
first_sections v13 v14 v20 =
    ("VID" ∷ "SSVID" ∷ "SN" ∷ "MN" ∷ "FR" ∷ "RAB" ∷ "IEEE" ∷ "CMIC" ∷ "MDTS" ∷ "CNTLID" ∷ "VER"
      ∷ "RTD3R" ∷ "RTD3E" ∷ "OAES" ∷ "CTRATT" ∷ [])
    ++ (sections_if v14 ("RRLS" ∷ "CNTRLTYPE" ∷ [])
        ++ (sections_if v13 ("FGUID" ∷ [])
            ++ (sections_if v14 ("CRDT1" ∷ "CRDT2" ∷ "CRDT3" ∷ [])
                ++ sections_if v20 ("NVMSR" ∷ "VWCI" ∷ "MEC" ∷ []))))

-- From OACS on: the attributes of the admin commands.
unfoldable pub admin_sections : Bool → Bool → Bool → List String
admin_sections v13 v14 v20 =
    ("OACS" ∷ "ACL" ∷ "AERL" ∷ "FRMW" ∷ "LPA" ∷ "ELPE" ∷ "NPSS" ∷ "AVSCC" ∷ "APSTA" ∷ "WCTEMP"
      ∷ "CCTEMP" ∷ "MTFA" ∷ "HMPRE" ∷ "HMMIN" ∷ "TNVMCAP" ∷ "UNVMCAP" ∷ "RPMBS" ∷ [])
    ++ (sections_if v13 ("EDSTT" ∷ "DSTO" ∷ "FWUG" ∷ [])
        ++ (("KAS" ∷ [])
            ++ (sections_if v13 ("HCTMA" ∷ "MNTMT" ∷ "MXTMT" ∷ "SANICAP" ∷ [])
                ++ (sections_if v14 (
                      "HMMINDS" ∷ "HMMAXD" ∷ "NSETIDMAX" ∷ "ENDGIDMAX" ∷ "ANATT" ∷ "ANACAP"
                      ∷ "ANAGRPMAX" ∷ "NANAGRPID" ∷ "PELS" ∷ [])
                    ++ sections_if v20 ("DomainId" ∷ "MEGCAP" ∷ [])))))

-- From SQES on: the attributes of the NVM commands, the name and the fabrics.
unfoldable pub last_sections : Bool → Bool → Bool → List String
last_sections v13 v14 v20 =
    ("SQES" ∷ "CQES" ∷ "MAXCMD" ∷ "NN" ∷ "ONCS" ∷ "FUSES" ∷ "FNA" ∷ "VWC" ∷ "AWUN" ∷ "AWUPF"
      ∷ "ICSVSCC" ∷ [])
    ++ (sections_if v14 ("NWPC" ∷ [])
        ++ (("ACWU" ∷ [])
            ++ (sections_if v20 ("OCFS" ∷ [])
                ++ (("SGLS" ∷ [])
                    ++ (sections_if v14 ("MNAN" ∷ [])
                        ++ (sections_if v20 ("MAXDNA" ∷ "MAXCNA" ∷ [])
                            ++ (("SUBNQN" ∷ [])
                                ++ (sections_if v20 (
                                      "IOCCSZ" ∷ "IORCSZ" ∷ "ICDOFF" ∷ "FCATT" ∷ "MSDBD" ∷ "OFCS"
                                      ∷ [])
                                    ++ ("PDS" ∷ [])))))))))

unfoldable pub sections : List ℕ → List String
unfolding first_sections admin_sections last_sections is_v13_or_later is_v14_or_later
    is_v20_or_later
sections c =
    let v13 = is_v13_or_later c in
    let v14 = is_v14_or_later c in
    let v20 = is_v20_or_later c in
    first_sections v13 v14 v20 ++ (admin_sections v13 v14 v20 ++ last_sections v13 v14 v20)
