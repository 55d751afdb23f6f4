-- ===== src/Api/Tickets/Total.antt =====
-- internal/api/handlers_media.go, `handleCreateDownloadTicket`: the loop over the pages of an album ends.
use ialbum.Text.{Text}
use ialbum.Time.{Time}
use ialbum.Media.Types.{Media}
use ialbum.Media.Types as Types
