-- ===== src/Menus/ReadOnly.antt =====
-- The requests of the steps before the loop and of the three menus that only show what the drive says.
use nvmetool_win.Base.{All}
use nvmetool_win.Platform.{Platform}
use nvmetool_win.Program.{World}
use nvmetool_win.Program.Requests.{IsReading}
use nvmetool_win.Program.Keeps.{Added-All}
use nvmetool_win.Startup.{start_up}
use nvmetool_win.Startup.ReadOnly.{Sends-start_up}
use nvmetool_win.Menus.LogPage.{log_page_menu}
use nvmetool_win.Menus.LogPage.ReadOnly.{Sends-log_page_menu}
use nvmetool_win.Menus.Identify.{identify_menu}
use nvmetool_win.Menus.Identify.ReadOnly.{Sends-identify_menu}
use nvmetool_win.Menus.Feature.{get_features_menu}
use nvmetool_win.Menus.Feature.ReadOnly.{Sends-get_features_menu}

-- The steps before the loop and the menus Get Log Page, Identify and Get Features send only requests
-- that read, whatever is typed and whatever the drive answers: after requests of that kind, all requests are still of that kind.
pub menus_read_only :
    (p : Platform) (w : World)
    → All IsReading w.issued
    → All IsReading (start_up p w).1.issued
      × All IsReading (log_page_menu p w).1.issued
      × All IsReading (identify_menu p w).1.issued
      × All IsReading (get_features_menu p w).1.issued
menus_read_only p w h = (
  Added-All (Sends-start_up.adds p w) h,
  Added-All (Sends-log_page_menu.adds p w) h,
  Added-All (Sends-identify_menu.adds p w) h,
  Added-All (Sends-get_features_menu.adds p w) h,
)
