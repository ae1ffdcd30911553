-- ===== src/CInterface/Handles/Casting.antt =====
-- The casts of src/src/c/service.cpp, for a program in C that gets its handles from the functions there.
use nil_service.Common.{ℕ, ◌≡◌, Option, some}
use nil_service.CInterface.Handles
use nil_service.CInterface.Handles.{
  Interface, runnable, message, callback, event, standalone, gateway, web, Pointer, Method, run,
  poll, stop, restart, delete,
}

-- The conversions that a type of handle has, and the type of their result.
pub data Conversion : Interface → Interface → Type 0 where
  event_message : Conversion event message
  event_callback : Conversion event callback
  gateway_standalone : Conversion gateway standalone
  gateway_event : Conversion gateway event
  gateway_message : Conversion gateway message
  gateway_callback : Conversion gateway callback
  gateway_runnable : Conversion gateway runnable
  standalone_message : Conversion standalone message
  standalone_callback : Conversion standalone callback
  standalone_event : Conversion standalone event
  standalone_runnable : Conversion standalone runnable
  web_runnable : Conversion web runnable

abbrev pub convert : {a b : Interface} → Conversion a b → Pointer → Option Pointer
convert event_message = Handles.event_to_message
convert event_callback = Handles.event_to_callback
convert gateway_standalone = Handles.gateway_to_standalone
convert gateway_event = Handles.gateway_to_event
convert gateway_message = Handles.gateway_to_message
convert gateway_callback = Handles.gateway_to_callback
convert gateway_runnable = Handles.gateway_to_runnable
convert standalone_message = Handles.standalone_to_message
convert standalone_callback = Handles.standalone_to_callback
convert standalone_event = Handles.standalone_to_event
convert standalone_runnable = Handles.standalone_to_runnable
convert web_runnable = Handles.web_to_runnable

-- The calls that a type of handle has.
pub data Use : Interface → Method → Type 0 where
  runs : Use runnable run
  polls : Use runnable poll
  stops : Use runnable stop
  restarts : Use runnable restart
  destroys_gateway : Use gateway delete
  destroys_web : Use web delete
  destroys_standalone : Use standalone delete

abbrev pub call : {a : Interface} {m : Method} → Use a m → Pointer → Option (ℕ × Method)
call runs = Handles.runnable_run
call polls = Handles.runnable_poll
call stops = Handles.runnable_stop
call restarts = Handles.runnable_restart
call destroys_gateway = Handles.gateway_destroy
call destroys_web = Handles.web_destroy
call destroys_standalone = Handles.standalone_destroy

-- The handles to an object that a program in C can have: those that it is given when the object is
-- made, that of a WebSocket, which the server gives it, and what it makes of these by conversions.
pub data Obtained (object : ℕ) : Interface → Pointer → Type 0 where
  made_gateway : Obtained object gateway (record { object = object; interface = gateway })
  made_standalone : Obtained object standalone (record { object = object; interface = standalone })
  made_web : Obtained object web (record { object = object; interface = web })
  used_ws : Obtained object event (record { object = object; interface = event })
  converted :
      {a b : Interface} (c : Conversion a b) (h h' : Pointer)
      → Obtained object a h
      → convert c h ≡ some h'
      → Obtained object b h'

abbrev pub at : ℕ → Interface → Pointer
at object interface = record { object = object; interface = interface }
