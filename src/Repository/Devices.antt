-- ===== src/Repository/Devices.antt =====
-- `inMemoryDeviceRepo`. An absent device is a nil pointer and no error.
use dift_backend_auth.Base.{Option, List, Text, text_eq}
use dift_backend_auth.Store
use dift_backend_auth.Domain.{Device}
use dift_backend_auth.Runtime.{World, M, gets, modify}

abbrev pub set_devices : (Store.Store Device → Store.Store Device) → World → World
set_devices f w = record w { db = record w.db { devices = f w.db.devices } }

unfoldable pub get_by_id : Text → M (Option Device)
get_by_id id = gets (λ w. Store.get id w.db.devices)

unfoldable pub list_by_user : Text → M (List Device)
list_by_user user_id = gets (λ w. Store.select (λ d. text_eq d.user_id user_id) w.db.devices)

unfoldable pub store : Device → M (Unit {0})
store device = modify (set_devices (Store.put device.id device))

unfoldable pub update : Device → M (Unit {0})
update device = modify (set_devices (Store.put device.id device))
