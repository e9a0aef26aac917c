-- ===== src/Service/Streams.antt =====
-- service/service_registry.go: the request streams of the services, over the life of the registry.
use ranch.Prelude.{
  All, Bool, Bool-cases, List, Option, Option-cases, String, [], ap, arith, count_if,
  count_if-append, false, inl, inr, nat_eq, none, refl, some, string_eq, subst, sym, true, ℕ, ◌&&◌,
  ◌++◌, ◌+◌, ◌==◌, ◌∙◌, ◌∷◌, ◌≡◌,
}
use ranch.Prelude.Dict.{delete, get}
use ranch.Prelude.Maps.{
  IsMap, count-delete, count-put, count_values, delete-All, delete-IsMap, get-All, holds, put-All,
  put-IsMap,
}
use ranch.Service.Registry.{
  Answers, FabricService, RegistryAct, RegistryError, ServiceRegistry, ServiceWrapper, channel_made,
  close_stream, get_rest_bridge_enabled_service, handler_closed, init_calls, init_failed,
  init_wrapper, is_internal, listen_failed, new_service_wrapper, register_from, register_new,
  register_service, request_bridges, requests_heard, unregister, unregister_service, with_service,
}

-- Whether an act opens, or closes, the stream of the handler k.
abbrev pub is_heard : ℕ → RegistryAct → Bool
is_heard k (requests_heard c h) = h == k
is_heard k a = false

abbrev pub is_handler_closed : ℕ → RegistryAct → Bool
is_handler_closed k (handler_closed h) = h == k
is_handler_closed k a = false

abbrev pub has_stream : ℕ → ServiceWrapper → Bool
has_stream k sw = holds (λ h. h == k) sw.request_msg_handler

-- How many services of the registry have this stream.
abbrev pub service_count : ℕ → ServiceRegistry → ℕ
service_count k r = count_values (has_stream k) r.services

abbrev pub HasStream : String × ServiceWrapper → Type 0
HasStream (channel, sw) = (h : ℕ) × (sw.request_msg_handler ≡ some h)

abbrev pub IsRegistry : ServiceRegistry → Type 0
IsRegistry r = IsMap r.services × All HasStream r.services

-- What is done to the registry: a service comes or goes.
pub data RegistryEvent : Type 0 where
  registered : Answers → Option FabricService → String → RegistryEvent
  unregistered : String → RegistryEvent

unfoldable pub registry_step : RegistryEvent → ServiceRegistry → ServiceRegistry × List RegistryAct
registry_step (registered answers service channel) r =
    let done = register_service answers service channel r in (done.0, done.1)
registry_step (unregistered channel) r = let done = unregister_service channel r in (done.0, done.1)

unfoldable pub registry_run :
    List RegistryEvent → ServiceRegistry → ServiceRegistry × List RegistryAct
registry_run [] r = (r, [])
registry_run (e ∷ es) r =
    let after = registry_step e r in
    let rest = registry_run es after.0 in (rest.0, after.1 ++ rest.1)

-- What is opened and was there is what is closed and stays.
abbrev pub IsKept : ℕ → ServiceRegistry → ServiceRegistry → List RegistryAct → Type 0
IsKept k before after acts =
    (count_if (is_heard k) acts + service_count k before
      ≡ count_if (is_handler_closed k) acts + service_count k after)
    × IsRegistry after

init_calls_lem :
    (k : ℕ) (channel : String) (service : FabricService)
    → (count_if (is_heard k) (channel_made channel ∷ init_calls service) ≡ 0)
      × (count_if (is_handler_closed k) (channel_made channel ∷ init_calls service) ≡ 0)
init_calls_lem k channel service = elim (Bool-cases service.is_initializable) [
  | inl true_case ↦ rw true_case (refl, refl)
  | inr false_case ↦ rw false_case (refl, refl)
]

bridges_lem :
    (k : ℕ) (send_fails : Bool) (channel : String) (r : ServiceRegistry)
    → (count_if (is_heard k) (request_bridges send_fails channel r).0 ≡ 0)
      × (count_if (is_handler_closed k) (request_bridges send_fails channel r).0 ≡ 0)
unfolding request_bridges
bridges_lem k send_fails channel r = elim (Bool-cases (is_internal channel)) [
  | inl internal ↦ rw (internal, request_bridges) (refl, refl)
  | inr public ↦ elim (Option-cases (get_rest_bridge_enabled_service channel r)) [
    | inl unable ↦ rw (public, unable, request_bridges) (refl, refl)
    | inr (config, able) ↦ rw (public, able, request_bridges) (refl, refl)
  ]
]

-- An end of init without a stream: the registry is left as it was.
refused-IsKept :
    (k : ℕ) (service : FabricService) (channel : String) (r : ServiceRegistry)
    → IsRegistry r
    → IsKept k r r (channel_made channel ∷ init_calls service)
refused-IsKept k service channel r valid =
    let calls = init_calls_lem k channel service in (omega (arith, calls), valid)

accepted-IsKept :
    (k : ℕ) (send_fails : Bool) (h : ℕ) (service : FabricService) (channel : String)
    (r : ServiceRegistry)
    → get channel r.services ≡ none
    → IsRegistry r
    → let sw = record (new_service_wrapper service channel) { request_msg_handler = some h } in
      IsKept k r (with_service channel sw r) (
        ((channel_made channel ∷ init_calls service) ++ requests_heard channel h ∷ [])
        ++ (request_bridges send_fails channel (with_service channel sw r)).0)
accepted-IsKept k send_fails h service channel r free (once, heard) =
    let sw = record (new_service_wrapper service channel) { request_msg_handler = some h } in
    let calls = init_calls_lem k channel service in
    let bridges = bridges_lem k send_fails channel (with_service channel sw r) in
    let calling = channel_made channel ∷ init_calls service in
    let asked = (request_bridges send_fails channel (with_service channel sw r)).0 in
    let counted = count-put (has_stream k) channel sw r.services in
    let absent : holds (has_stream k) (get channel r.services) ≡ false =
      ap (holds (has_stream k)) free in
    (
      rw
          (
            count_if-append (is_heard k) (calling ++ requests_heard channel h ∷ []) asked,
            count_if-append (is_handler_closed k) (calling ++ requests_heard channel h ∷ []) asked,
            count_if-append (is_heard k) calling (requests_heard channel h ∷ []),
            count_if-append (is_handler_closed k) calling (requests_heard channel h ∷ []),
          )
          (ground (arith, calls, bridges, counted, absent)),
      (
        put-IsMap channel sw r.services once,
        put-All HasStream channel sw r.services (h, refl) heard,
      ),
    )

abbrev called : ServiceWrapper → List RegistryAct
called sw = channel_made sw.fabric_core.channel_name ∷ init_calls sw.service

init_failing :
    (answers : Answers) (sw : ServiceWrapper)
    → (sw.service.is_initializable && answers.init_fails) ≡ true
    → init_wrapper answers sw ≡ (sw, called sw, some init_failed)
unfolding init_wrapper
init_failing answers sw failing = simp failing refl

init_unheard :
    (answers : Answers) (sw : ServiceWrapper)
    → (sw.service.is_initializable && answers.init_fails) ≡ false
    → answers.stream ≡ none
    → init_wrapper answers sw ≡ (sw, called sw, some listen_failed)
unfolding init_wrapper
init_unheard answers sw fine unable = simp (fine, unable) refl

init_heard :
    (answers : Answers) (sw : ServiceWrapper) (h : ℕ)
    → (sw.service.is_initializable && answers.init_fails) ≡ false
    → answers.stream ≡ some h
    → init_wrapper answers sw ≡ (
      record sw { request_msg_handler = some h },
      called sw ++ requests_heard sw.fabric_core.channel_name h ∷ [],
      none,
    )
unfolding init_wrapper
init_heard answers sw h fine able = simp (fine, able) refl

-- What registration keeps, from what init gives.
abbrev FromIsKept :
    ℕ
    → Bool
    → String
    → ServiceRegistry
    → ServiceWrapper × List RegistryAct × Option RegistryError
    → Type 0
FromIsKept k send_fails channel r given =
    let done = register_from send_fails channel r given in IsKept k r done.0 done.1

register_new-IsKept :
    (k : ℕ) (answers : Answers) (service : FabricService) (channel : String) (r : ServiceRegistry)
    → get channel r.services ≡ none
    → IsRegistry r
    → let done = register_new answers service channel r in IsKept k r done.0 done.1
unfolding register_new register_from new_service_wrapper
register_new-IsKept k answers service channel r free valid =
    let sw = new_service_wrapper service channel in
    let goal = FromIsKept k answers.send_fails channel r in
    elim (Bool-cases (service.is_initializable && answers.init_fails)) [
      | inl failing ↦
          subst goal (sym (init_failing answers sw failing))
            (refused-IsKept k service channel r valid)
      | inr fine ↦ elim (Option-cases answers.stream) [
        | inl unable ↦
            subst goal (sym (init_unheard answers sw fine unable))
              (refused-IsKept k service channel r valid)
        | inr (h, able) ↦
            subst goal (sym (init_heard answers sw h fine able))
              (accepted-IsKept k answers.send_fails h service channel r free valid)
      ]
    ]

unregister_lem :
    (sw : ServiceWrapper) (h : ℕ)
    → sw.request_msg_handler ≡ some h
    → unregister sw ≡ handler_closed h ∷ []
unregister_lem sw h opened = ap close_stream opened

unregister-IsKept :
    (k : ℕ) (channel : String) (sw : ServiceWrapper) (r : ServiceRegistry)
    → get channel r.services ≡ some sw
    → IsRegistry r
    → IsKept k r (record r { services = delete channel r.services }) (unregister sw)
unregister-IsKept k channel sw r there (once, heard) =
    let stream = get-All HasStream channel sw r.services heard there in
    let counted = count-delete (has_stream k) channel r.services once in
    let present : holds (has_stream k) (get channel r.services) ≡ (stream.0 == k) =
      ap (holds (has_stream k)) there ∙ ap (holds (λ (h : ℕ). h == k)) stream.1 in
    (
      rw (unregister_lem sw stream.0 stream.1) (ground (arith, counted, present)),
      (delete-IsMap channel r.services once, delete-All HasStream channel r.services heard),
    )

registry_step-IsKept :
    (k : ℕ) (e : RegistryEvent) (r : ServiceRegistry)
    → IsRegistry r
    → IsKept k r (registry_step e r).0 (registry_step e r).1
unfolding registry_step register_service unregister_service
registry_step-IsKept k (registered answers none channel) r valid = (refl, valid)
registry_step-IsKept k (registered answers (some service) channel) r valid =
    elim (Option-cases (get channel r.services)) [
      | inl free ↦
          rw (free, registry_step, register_service)
            (register_new-IsKept k answers service channel r free valid)
      | inr (sw, there) ↦ rw (there, registry_step, register_service) (refl, valid)
    ]
registry_step-IsKept k (unregistered channel) r valid =
    elim (Option-cases (get channel r.services)) [
      | inl free ↦ rw (free, registry_step, unregister_service) (refl, valid)
      | inr (sw, there) ↦
          rw (there, registry_step, unregister_service)
            (unregister-IsKept k channel sw r there valid)
    ]

-- Where no channel has two services and each registered service has a stream of requests, this stays so however services come and go, and whatever Init, the bus and the services answer; and each stream, however often it is opened, with the services that have it at first, is closed as often except for the services that have it at last.
pub registry_run_lem :
    (k : ℕ) (es : List RegistryEvent) (r : ServiceRegistry)
    → IsRegistry r
    → IsKept k r (registry_run es r).0 (registry_run es r).1
unfolding registry_run
registry_run_lem k [] r valid = (refl, valid)
registry_run_lem k (e ∷ es) r valid =
    let after = registry_step e r in
    let once = registry_step-IsKept k e r valid in
    let rest = registry_run_lem k es after.0 once.1 in
    (
      rw
          (
            count_if-append (is_heard k) after.1 (registry_run es after.0).1,
            count_if-append (is_handler_closed k) after.1 (registry_run es after.0).1,
          )
          (omega (arith, once.0, rest.0)),
      rest.1,
    )
