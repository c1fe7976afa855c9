-- ===== src/Server/Locking.antt =====
-- main/http_server_if.c and main/wifi_manager.c: the mutex of the JSON documents while a request is
-- served, `wifi_manager_lock_json_buffer` and `wifi_manager_unlock_json_buffer`, also where
-- `wifi_manager_connect_async` calls them.
use airu_v2_fw.Base.{
  ℕ, Bool, true, false, List, [], ◌∷◌, Option, none, some, if◌then◌else◌, leb, length, ◌&&◌,
}
use airu_v2_fw.Base.Memory.{◌>>=◌}
use airu_v2_fw.Server.{
  ServerEnv, Effect, unlock, Route, get_ap, get_status, get_register, post_connect, connect_request,
  respond,
}

-- Who has `wifi_manager_json_mutex`.
pub data Holder : Type 0 where
  nobody server manager : Holder

-- `wifi_manager_lock_json_buffer` of the server, where the manager does not give it back in time.
unfoldable pub lock_json_buffer : Holder → Bool × Holder
lock_json_buffer nobody = (true, server)
lock_json_buffer server = (false, server)
lock_json_buffer manager = (false, manager)

-- `wifi_manager_unlock_json_buffer` of the server. A mutex that nobody has stays as it is; that a
-- task gives back what another one has is not allowed, and is `none`.
unfoldable pub unlock_json_buffer : Holder → Option Holder
unlock_json_buffer nobody = some nobody
unlock_json_buffer server = some nobody
unlock_json_buffer manager = none

-- The requests that start with the lock.
unfoldable pub is_locking : Route → Bool
is_locking get_ap = true
is_locking get_status = true
is_locking get_register = true
is_locking _ = false

-- The lock and the unlock of `wifi_manager_connect_async`, which waits as long as it takes: the
-- manager gives the mutex back first. A server that has it already would wait for itself, `none`.
unfoldable connect_async_lock : Holder → Option Holder
connect_async_lock nobody = some nobody
connect_async_lock server = none
connect_async_lock manager = some nobody

-- The effects of a request, on the mutex.
unfoldable pub unlock_all : List Effect → Holder → Option Holder
unfolding unlock_json_buffer connect_async_lock
unlock_all [] h = some h
unlock_all (unlock ∷ es) h = unlock_json_buffer h >>= unlock_all es
unlock_all (connect_request _ _ ∷ es) h = connect_async_lock h >>= unlock_all es
unlock_all (_ ∷ es) h = unlock_all es h

-- A request that is served while that task has the mutex.
unfoldable pub served_lock : ServerEnv → Route → List ℕ → Holder → Option Holder
unfolding lock_json_buffer is_locking unlock_all
served_lock e r headers h =
    let locked = lock_json_buffer h in
    if is_locking r
    then (respond (record e { lockable = locked.0 }) r headers >>= λ es. unlock_all es locked.1)
    else (respond e r headers >>= λ es. unlock_all es h)

-- A request of the registration while the manager has the mutex.
abbrev pub is_thief : Route → Holder → Bool
is_thief get_register manager = true
is_thief _ _ = false

-- A request whose connection is passed on to the manager: both headers are there and fit.
unfoldable pub passes_on : Route → (ssid password : Option (List ℕ)) → Bool
passes_on post_connect (some ssid) (some password) =
    leb (length ssid) 32 && leb (length password) 64
passes_on _ _ _ = false

-- The mutex is where it was before the request, but for a request of the registration that could
-- not lock it, and for one that waits until it can.
pub kept_lock : (thief waits : Bool) → Holder → Option Holder
kept_lock thief waits h = if thief then none else some (if waits then nobody else h)
