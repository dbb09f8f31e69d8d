-- ===== src/Dispatcher/Names.antt =====
-- The names of the back ends, in core/Dispatcher.
use cpp_reactor.Base.{◌≡◌, refl, Bytes, codes, lower, same, if◌then◌else◌}

pub data DispatcherType : Type 0 where
  epoll poll select : DispatcherType

unfoldable pub dispatcher_type_from_string : Bytes → DispatcherType → DispatcherType
dispatcher_type_from_string name fallback =
    if same (lower name) (codes "epoll")
    then epoll
    else if same (lower name) (codes "poll")
    then poll
    else if same (lower name) (codes "select")
    then select
    else fallback

unfoldable pub dispatcher_type_to_string : DispatcherType → Bytes
dispatcher_type_to_string epoll = codes "epoll"
dispatcher_type_to_string poll = codes "poll"
dispatcher_type_to_string select = codes "select"

-- The printed name of a back end type is read back, whatever the fallback is.
pub from_string-to_string :
    (t fallback : DispatcherType)
    → dispatcher_type_from_string (dispatcher_type_to_string t) fallback ≡ t
unfolding dispatcher_type_from_string dispatcher_type_to_string
from_string-to_string epoll fallback = refl
from_string-to_string poll fallback = refl
from_string-to_string select fallback = refl
