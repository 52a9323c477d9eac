-- ===== src/LogPages/Effects/Names/Lookup.antt =====
-- The names of the opcodes that the program uses.
use nvmetool_win.Base.{◌≡◌, refl, length}
use nvmetool_win.LogPages.Effects.Names.{admin_names, nvm_names}

-- Each table has a name for each of the 256 opcodes that the loop goes through.
length-names : (length admin_names ≡ 256) × (length nvm_names ≡ 256)
unfolding admin_names nvm_names
length-names = (refl, refl)
