-- ===== src/Events.antt =====
-- Domain events: backend/domain/events/__init__.py, with the handlers that
-- backend/infrastructure/runtime.py and backend/infrastructure/webhooks/dispatcher.py subscribe.
-- What a handler writes to the log of the process is left out.
pub mod Order
use enterprise_fast_api_boil.Base.{ℕ, String, Option, none, some, List, [], ◌∷◌, ◌++◌}
use enterprise_fast_api_boil.Base.Dict.{Dict, text_key, get, put}
use enterprise_fast_api_boil.Base.Outcome.{Exec, pure, ◌>>=◌, ◌>>◌}
use enterprise_fast_api_boil.Server.{Server}
use enterprise_fast_api_boil.Webhooks.{dispatch}

-- A value in the payload of an event.
pub data Field : Type 0 where
  text : String → Field
  number : ℕ → Field

-- The payload of an event; its identifier and its time are read by no handler.
pub record DomainEvent : Type 0 where
  pub payload : Dict String Field

abbrev event_type_field : Option Field → String
event_type_field none = ""
event_type_field (some (text t)) = t
event_type_field (some (number n)) = ""

-- `event.payload.get("event_type", "")`
abbrev pub event_type : DomainEvent → String
event_type event = event_type_field (get "event_type" event.payload)

module _ (S : Type 0) where
  abbrev pub EventHandler : Type 0
  EventHandler = DomainEvent → Exec S (Unit {0})

  -- `EventBus._handlers`
  abbrev pub EventBus : Type 0
  EventBus = Dict String (List EventHandler)

module _ {S : Type 0} where
  abbrev handlers_or_empty : Option (List (EventHandler S)) → List (EventHandler S)
  handlers_or_empty none = []
  handlers_or_empty (some hs) = hs

  -- `self._handlers.get(event_type, [])`
  unfoldable pub handlers : String → EventBus S → List (EventHandler S)
  handlers event_type bus = handlers_or_empty (get event_type bus)

  unfoldable pub subscribe : String → EventHandler S → EventBus S → EventBus S
  unfolding handlers
  subscribe event_type handler bus = put event_type (handlers event_type bus ++ (handler ∷ [])) bus

  -- The loop of `publish`: a handler that raises keeps the later ones from running.
  unfoldable pub run_handlers : List (EventHandler S) → DomainEvent → Exec S (Unit {0})
  run_handlers [] event = pure tt
  run_handlers (h ∷ hs) event = do h event; run_handlers hs event

  unfoldable pub publish : EventBus S → DomainEvent → Exec S (Unit {0})
  unfolding handlers run_handlers
  publish bus event = run_handlers (handlers (event_type event) bus ++ handlers "*" bus) event

-- `log_domain_event`, which only writes to the log of the process.
abbrev pub log_domain_event : EventHandler Server
log_domain_event event = pure tt

-- `handle_event` of the webhook dispatcher, in the session of the request.
abbrev pub handle_event : EventHandler Server
handle_event event = dispatch (event_type event)

-- The bus after `_register_default_handlers`.
abbrev pub default_bus : EventBus Server
default_bus = subscribe "user.registered" log_domain_event []

-- The bus of a started server: `reset_event_bus`, then `subscribe_webhook_dispatcher`.
abbrev pub event_bus : EventBus Server
event_bus = subscribe "*" handle_event default_bus
