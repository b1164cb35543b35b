-- ===== src/Events/Order.antt =====
-- The order in which `EventBus.publish` of backend/domain/events/__init__.py calls the handlers.
use enterprise_fast_api_boil.Base.{
  String, ◌≡◌, ◌∙◌, refl, ap, arith, false, List, [], ◌∷◌, ◌++◌, ◌=s◌, append_assoc, eq_refl,
  if◌then◌else◌,
}
use enterprise_fast_api_boil.Base.Dict.{get-put, text_key}
use enterprise_fast_api_boil.Base.Outcome.{
  Outcome, ok, err, pure, continue, continue-cong, continue_assoc, ◌>>◌,
}
use enterprise_fast_api_boil.Events.{
  EventHandler, EventBus, DomainEvent, event_type, handlers, subscribe, run_handlers, publish,
}

module _ {S : Type 0} where
  run_handlers-append :
      (hs ks : List (EventHandler S)) (event : DomainEvent) (s : S)
      → run_handlers (hs ++ ks) event s ≡ (run_handlers hs event >> run_handlers ks event) s
  unfolding run_handlers
  run_handlers-append [] ks event s = refl
  run_handlers-append (h ∷ hs) ks event s =
      continue-cong (h event s).0 (λ _. run_handlers (hs ++ ks) event) _ (h event s).1
        (λ _. run_handlers-append hs ks event (h event s).1)
      ∙ continue_assoc (h event s).0 (λ _. run_handlers hs event) (λ _. run_handlers ks event)
          (h event s).1

  continue-tt : (r : Outcome (Unit {0})) (s : S) → continue r (λ _. pure tt) s ≡ (r, s)
  continue-tt (ok tt) s = refl
  continue-tt (err e) s = refl

  handlers-subscribe :
      (key other : String) (h : EventHandler S) (bus : EventBus S)
      → handlers other (subscribe key h bus)
        ≡ (if key =s other then handlers key bus ++ (h ∷ []) else handlers other bus)
  unfolding handlers subscribe
  handlers-subscribe key other h bus =
      ground (arith, get-put key other (handlers key bus ++ (h ∷ [])) bus)

  handlers_of :
      (h : EventHandler S) (bus : EventBus S) (event : DomainEvent)
      → ("*" =s event_type event) ≡ false
      → handlers (event_type event) (subscribe "*" h bus) ++ handlers "*" (subscribe "*" h bus)
        ≡ (handlers (event_type event) bus ++ handlers "*" bus) ++ (h ∷ [])
  handlers_of h bus event named = ground (
    arith,
    handlers-subscribe "*" (event_type event) h bus,
    handlers-subscribe "*" "*" h bus,
    append_assoc (handlers (event_type event) bus) (handlers "*" bus) (h ∷ []),
    eq_refl "*",
  )

  run_one :
      (h : EventHandler S) (event : DomainEvent) (s : S) → run_handlers (h ∷ []) event s ≡ h event s
  unfolding run_handlers
  run_one h event s = continue-tt (h event s).0 (h event s).1

  -- A handler that is subscribed to every event runs last: publishing an event whose type is not
  -- "*" is publishing it to the handlers there were, and then, if they all returned, calling the
  -- new one.
  pub publish-subscribe_any :
      (h : EventHandler S) (bus : EventBus S) (event : DomainEvent) (s : S)
      → ("*" =s event_type event) ≡ false
      → publish (subscribe "*" h bus) event s ≡ (publish bus event >> h event) s
  unfolding publish
  publish-subscribe_any h bus event s named =
      ap (λ hs. run_handlers hs event s) (handlers_of h bus event named)
      ∙ run_handlers-append (handlers (event_type event) bus ++ handlers "*" bus) (h ∷ []) event s
      ∙ continue-cong (publish bus event s).0 _ (λ _. h event) (publish bus event s).1
          (λ _. run_one h event (publish bus event s).1)
