-- ===== src/CInterface/Handles.antt =====
-- The handles of src/publish/nil/service.h, and the conversions and calls of src/src/c/service.cpp that cast
-- them. A handle is a `void*` that was made from a pointer to an interface; the cast of it is defined
-- for the same interface only, since the bases of a class may lie at other addresses.
pub mod Casting
use nil_service.Common.{ℕ, Bool, true, false, Option, none, some, if◌then◌else◌, ◌==◌, ◌||◌, ◌>>=◌}
use mathlib.Core.Option

-- The interfaces of structs.hpp. Each has one type of handle, with its name.
pub data Interface : Type 0 where
  runnable message callback event standalone gateway web : Interface

abbrev pub index : Interface → ℕ
index runnable = 0
index message = 1
index callback = 2
index event = 3
index standalone = 4
index gateway = 5
index web = 6

abbrev pub same_interface : Interface → Interface → Bool
same_interface a b = index a == index b

-- Whether the second interface is the first or is derived from it.
unfoldable pub is_base_of : Interface → Interface → Bool
is_base_of base runnable = same_interface base runnable
is_base_of base message = same_interface base message
is_base_of base callback = same_interface base callback
is_base_of base event =
    same_interface base event || same_interface base message || same_interface base callback
is_base_of base standalone =
    same_interface base standalone
    || same_interface base event
    || same_interface base message
    || same_interface base callback
    || same_interface base runnable
is_base_of base gateway =
    same_interface base gateway
    || same_interface base standalone
    || same_interface base event
    || same_interface base message
    || same_interface base callback
    || same_interface base runnable
is_base_of base web = same_interface base web || same_interface base runnable

-- A pointer to an object through an interface; as a handle, the interface that it was made from.
pub record Pointer : Type 0 where
  pub object : ℕ
  pub interface : Interface

-- `static_cast<T*>` of a handle; `none` is not defined.
unfoldable pub cast : Interface → Pointer → Option Pointer
cast interface handle = if same_interface interface handle.interface then some handle else none

-- `static_cast<T*>` of a pointer to a derived class; `none` is refused by the compiler.
unfoldable pub upcast : Interface → Pointer → Option Pointer
upcast interface p =
    if is_base_of interface p.interface then some (record p { interface = interface }) else none

unfoldable pub event_to_message : Pointer → Option Pointer
event_to_message service = cast event service >>= upcast message

unfoldable pub event_to_callback : Pointer → Option Pointer
event_to_callback service = cast event service >>= upcast callback

unfoldable pub gateway_to_standalone : Pointer → Option Pointer
gateway_to_standalone service = cast gateway service >>= upcast standalone

unfoldable pub gateway_to_event : Pointer → Option Pointer
gateway_to_event service = cast gateway service >>= upcast event

unfoldable pub gateway_to_message : Pointer → Option Pointer
gateway_to_message service = cast gateway service >>= upcast message

unfoldable pub gateway_to_callback : Pointer → Option Pointer
gateway_to_callback service = cast gateway service >>= upcast callback

unfoldable pub gateway_to_runnable : Pointer → Option Pointer
gateway_to_runnable service = cast gateway service >>= upcast runnable

unfoldable pub standalone_to_message : Pointer → Option Pointer
standalone_to_message service = cast standalone service >>= upcast message

unfoldable pub standalone_to_callback : Pointer → Option Pointer
standalone_to_callback service = cast standalone service >>= upcast callback

unfoldable pub standalone_to_event : Pointer → Option Pointer
standalone_to_event service = cast standalone service >>= upcast event

unfoldable pub standalone_to_runnable : Pointer → Option Pointer
standalone_to_runnable service = cast standalone service >>= upcast runnable

unfoldable pub web_to_runnable : Pointer → Option Pointer
web_to_runnable service = cast web service >>= upcast runnable

-- What is called on an object.
pub data Method : Type 0 where
  run poll stop restart delete : Method

abbrev pub call_method : Method → Pointer → Option (ℕ × Method)
call_method method p = some (p.object, method)

unfoldable pub runnable_run : Pointer → Option (ℕ × Method)
runnable_run service = cast runnable service >>= call_method run

unfoldable pub runnable_poll : Pointer → Option (ℕ × Method)
runnable_poll service = cast runnable service >>= call_method poll

unfoldable pub runnable_stop : Pointer → Option (ℕ × Method)
runnable_stop service = cast runnable service >>= call_method stop

unfoldable pub runnable_restart : Pointer → Option (ℕ × Method)
runnable_restart service = cast runnable service >>= call_method restart

unfoldable pub gateway_destroy : Pointer → Option (ℕ × Method)
gateway_destroy service = cast gateway service >>= call_method delete

unfoldable pub web_destroy : Pointer → Option (ℕ × Method)
web_destroy service = cast web service >>= call_method delete

unfoldable pub standalone_destroy : Pointer → Option (ℕ × Method)
standalone_destroy service = cast standalone service >>= call_method delete
