-- ===== src/Service/Answers.antt =====
-- service/fabric_core.go: what every answer of a service has in common, and the headers that it carries.
use ranch.Prelude.{
  Bool, Bool-cases, Option, String, [], ap, false, inl, inr, nat_eq, none, refl, some, string_eq,
  subst, true, ℕ, ◌==◌, ◌∷◌, ◌≡◌,
}
use ranch.Prelude.Dict.{Dict, get, get-put, put}
use ranch.Prelude.Maps.{IsMap}
use ranch.Model.{Request}
use ranch.Service.Core.{
  FabricCore, Sent, handle_unknown_request, merge_headers_with_defaults, put_all,
  send_error_response, send_error_response_as_string_with_headers_and_payload,
  send_error_response_with_headers, send_error_response_with_headers_and_payload,
  send_error_response_with_payload, send_response, send_response_as_string,
  send_response_as_string_with_headers, send_response_with_headers,
  send_response_with_headers_and_code,
}

-- The ways to answer a request, one for each function of FabricServiceCore.
pub data Answer : Type 0 where
  plain as_string : ℕ → Answer
  with_headers as_string_with_headers : ℕ → Dict String String → Answer
  with_headers_and_code : ℕ → Dict String String → ℕ → Answer
  failure : ℕ → String → Answer
  failure_with_payload : ℕ → String → Option ℕ → Answer
  failure_with_headers : ℕ → String → Dict String String → Answer
  failure_with_headers_and_payload : ℕ → String → Option ℕ → Dict String String → Answer
  failure_as_string : ℕ → String → ℕ → Dict String String → Answer
  unknown_request : Answer

unfoldable pub respond : FabricCore → Request → Answer → Sent
respond core request (plain p) = send_response core request p
respond core request (as_string p) = send_response_as_string core request p
respond core request (with_headers p h) = send_response_with_headers core request p h
respond core request (as_string_with_headers p h) =
    send_response_as_string_with_headers core request p h
respond core request (with_headers_and_code p h code) =
    send_response_with_headers_and_code core request p h code
respond core request (failure code text) = send_error_response core request code text
respond core request (failure_with_payload code text p) =
    send_error_response_with_payload core request code text p
respond core request (failure_with_headers code text h) =
    send_error_response_with_headers core request code text h
respond core request (failure_with_headers_and_payload code text p h) =
    send_error_response_with_headers_and_payload core request code text p h
respond core request (failure_as_string code text p h) =
    send_error_response_as_string_with_headers_and_payload core request code text p h
respond core request unknown_request = handle_unknown_request core request

-- The headers that the caller gives.
abbrev pub own_headers : Answer → Dict String String
own_headers (plain p) = []
own_headers (as_string p) = []
own_headers (with_headers p h) = h
own_headers (as_string_with_headers p h) = h
own_headers (with_headers_and_code p h code) = h
own_headers (failure code text) = []
own_headers (failure_with_payload code text p) = []
own_headers (failure_with_headers code text h) = h
own_headers (failure_with_headers_and_payload code text p h) = h
own_headers (failure_as_string code text p h) = h
own_headers unknown_request = []

abbrev pub is_failure : Answer → Bool
is_failure (plain p) = false
is_failure (as_string p) = false
is_failure (with_headers p h) = false
is_failure (as_string_with_headers p h) = false
is_failure (with_headers_and_code p h code) = false
is_failure a = true

abbrev pub or_else {ℓ} : {A : Type ℓ} → Option A → Option A → Option A
or_else none b = b
or_else (some a) b = some a

or_else-none {ℓ} : {A : Type ℓ} (a : Option A) → or_else a none ≡ a
or_else-none none = refl
or_else-none (some a) = refl

get-put_all :
    (name : String) (m merged : Dict String String)
    → IsMap m
    → get name (put_all m merged) ≡ or_else (get name m) (get name merged)
unfolding put_all get
get-put_all name [] merged h = refl
get-put_all name ((k, v) ∷ m) merged (free, h) =
    let rest = get-put_all name m (put k v merged) h in
    elim (Bool-cases (k == name)) [
      | inl same ↦
          rw (rest, get-put k name v merged, same)
            (rw (subst (λ i. get i m ≡ none) ((string_eq.beq_iff k name).0 same) free) refl)
      | inr other ↦ rw (rest, get-put k name v merged, other) refl
    ]

get-merge_headers_with_defaults :
    (name : String) (core : FabricCore) (headers : Dict String String)
    → IsMap core.headers
    → IsMap headers
    → get name (merge_headers_with_defaults core headers)
      ≡ or_else (get name headers) (get name core.headers)
unfolding merge_headers_with_defaults get
get-merge_headers_with_defaults name core headers defaults own =
    rw
      (
        get-put_all name headers (put_all core.headers []) own,
        get-put_all name core.headers [] defaults,
      )
      (ap (or_else (get name headers)) (or_else-none (get name core.headers)))

respond-headers :
    (core : FabricCore) (request : Request) (a : Answer)
    → (respond core request a).response.headers ≡ merge_headers_with_defaults core (own_headers a)
unfolding respond send_response send_response_as_string send_response_with_headers
    send_response_as_string_with_headers send_response_with_headers_and_code send_error_response
    send_error_response_with_payload send_error_response_with_headers
    send_error_response_with_headers_and_payload
    send_error_response_as_string_with_headers_and_payload handle_unknown_request
respond-headers core request (plain p) = refl
respond-headers core request (as_string p) = refl
respond-headers core request (with_headers p h) = refl
respond-headers core request (as_string_with_headers p h) = refl
respond-headers core request (with_headers_and_code p h code) = refl
respond-headers core request (failure code text) = refl
respond-headers core request (failure_with_payload code text p) = refl
respond-headers core request (failure_with_headers code text h) = refl
respond-headers core request (failure_with_headers_and_payload code text p h) = refl
respond-headers core request (failure_as_string code text p h) = refl
respond-headers core request unknown_request = refl

-- What makes a message the answer to a request.
abbrev pub IsAnswer : FabricCore → Request → Bool → Sent → Type 0
IsAnswer core request failed sent =
    (sent.channel ≡ core.channel_name)
    × (sent.response.destination ≡ core.channel_name)
    × (sent.destination_id ≡ request.id)
    × (sent.response.id ≡ request.id)
    × (sent.response.broker_destination ≡ request.broker_destination)
    × (sent.response.is_error ≡ failed)

pub respond-IsAnswer :
    (core : FabricCore) (request : Request) (a : Answer)
    → IsAnswer core request (is_failure a) (respond core request a)
unfolding respond send_response send_response_as_string send_response_with_headers
    send_response_as_string_with_headers send_response_with_headers_and_code send_error_response
    send_error_response_with_payload send_error_response_with_headers
    send_error_response_with_headers_and_payload
    send_error_response_as_string_with_headers_and_payload handle_unknown_request
respond-IsAnswer core request (plain p) = (refl, refl, refl, refl, refl, refl)
respond-IsAnswer core request (as_string p) = (refl, refl, refl, refl, refl, refl)
respond-IsAnswer core request (with_headers p h) = (refl, refl, refl, refl, refl, refl)
respond-IsAnswer core request (as_string_with_headers p h) = (refl, refl, refl, refl, refl, refl)
respond-IsAnswer core request (with_headers_and_code p h code) =
    (refl, refl, refl, refl, refl, refl)
respond-IsAnswer core request (failure code text) = (refl, refl, refl, refl, refl, refl)
respond-IsAnswer core request (failure_with_payload code text p) =
    (refl, refl, refl, refl, refl, refl)
respond-IsAnswer core request (failure_with_headers code text h) =
    (refl, refl, refl, refl, refl, refl)
respond-IsAnswer core request (failure_with_headers_and_payload code text p h) =
    (refl, refl, refl, refl, refl, refl)
respond-IsAnswer core request (failure_as_string code text p h) =
    (refl, refl, refl, refl, refl, refl)
respond-IsAnswer core request unknown_request = (refl, refl, refl, refl, refl, refl)

-- Whichever function a service answers a request with, where no headers have a name twice, the response goes out on the channel of the service, to the request's id and broker destination, is an error exactly for the functions for errors, and has each header that the caller gives, and of the other names the default headers of the service.
pub respond_lem :
    (core : FabricCore) (request : Request) (a : Answer) (name : String)
    → IsMap core.headers
    → IsMap (own_headers a)
    → IsAnswer core request (is_failure a) (respond core request a)
      × (get name (respond core request a).response.headers
          ≡ or_else (get name (own_headers a)) (get name core.headers))
respond_lem core request a name defaults own = (
  respond-IsAnswer core request a,
  rw (respond-headers core request a)
      (get-merge_headers_with_defaults name core (own_headers a) defaults own),
)
