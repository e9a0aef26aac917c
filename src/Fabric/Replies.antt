-- ===== src/Fabric/Replies.antt =====
-- transport/fabric/endpoint.go: what goes from the bus to clients, and from clients to the bus.
use Prim.Native.String
use Prim.Native.String.append as Append
use Prim.Native.Char.{code}
use ranch.Prelude.{
  Bool, List, Option, String, [], arith, false, if◌then◌else◌, nat_eq, none, refl, some, string_eq,
  true, ℕ, ◌==◌, ◌∷◌, ◌≡◌,
}
use ranch.Model.{BrokerDestination, Request, Response}
use ranch.Service.Core.{FabricCore}
use ranch.Service.Answers.{Answer, respond, respond-IsAnswer}
use ranch.Fabric.{
  EndpointConfig, FabricAct, get_channel_name_from_subscription, panicked, send_message,
  send_message_to_client, strip_prefix,
}

-- The payload of a message, as Go's type switch sees it.
pub data Payload : Type 0 where
  response_value : Response → Payload
  response_pointer : Option Response → Payload
  no_payload other_payload : Payload

-- convertPayloadToResponseObj: none where its second result is false
unfoldable pub convert_payload_to_response_obj : Payload → Option (Option Response)
convert_payload_to_response_obj (response_value r) = some (some r)
convert_payload_to_response_obj (response_pointer r) = some r
convert_payload_to_response_obj no_payload = none
convert_payload_to_response_obj other_payload = none

abbrev pub broker_destination_of : Option (Option Response) → Option BrokerDestination
broker_destination_of (some (some r)) = r.broker_destination
broker_destination_of (some none) = none
broker_destination_of none = none

-- The broadcast, after the test that only serves a warning: it reads the payload's pointer.
unfoldable pub broadcast : String → ℕ → Payload → List FabricAct
broadcast destination encoded (response_pointer none) = panicked ∷ []
broadcast destination encoded content = send_message destination encoded ∷ []

-- `encoded` is what marshalMessagePayload gives, none for an error.
unfoldable pub forward_message : Option ℕ → String → Bool → Payload → List FabricAct
forward_message none default_destination allow_override content = []
forward_message (some encoded) default_destination allow_override content =
    elim (broker_destination_of (convert_payload_to_response_obj content)) [
      | some target ↦
          if allow_override
          then send_message_to_client target.connection_id target.destination encoded ∷ []
          else broadcast default_destination encoded content
      | none ↦ broadcast default_destination encoded content
    ]

-- The response of an error of a route goes out encoded; none where json.Marshal gives an error.
unfoldable pub send_route_error : Option ℕ → String → List FabricAct
send_route_error none destination = []
send_route_error (some encoded) destination = send_message destination encoded ∷ []

-- The channel of a request, and whether it is private.
unfoldable pub request_channel : EndpointConfig → String → Option (String × Bool)
request_channel config destination =
    let public =
      if config.app_request_prefix == ""
      then none
      else elim (strip_prefix config.app_request_prefix destination) [
        | some name ↦ some (name, false)
        | none ↦ none
      ] in
    elim (strip_prefix config.app_request_queue_prefix destination) [
      | some name ↦ if config.app_request_queue_prefix == "" then public else some (name, true)
      | none ↦ public
    ]

abbrev pub reply_target : EndpointConfig → String → String → BrokerDestination
reply_target config channel connection_id = record {
  connection_id = connection_id;
  destination = String.◌++◌ config.user_queue_prefix channel;
}

abbrev pub with_target : EndpointConfig → String → Bool → String → Request → Request
with_target config channel true connection_id req = record req {
  broker_destination = some (reply_target config channel connection_id);
}
with_target config channel false connection_id req = req

-- bridgeMessage, with the request that json.Unmarshal gives, none for an error. The result is what SendRequestMessage of the bus is called with.
unfoldable pub bridge_message :
    EndpointConfig → String → Option Request → String → Option (String × Request)
bridge_message config destination decoded connection_id =
    elim (request_channel config destination) [
      | none ↦ none
      | some (channel, is_private) ↦ elim decoded [
        | none ↦ none
        | some req ↦ some (channel, with_target config channel is_private connection_id req)
      ]
    ]

strip_prefix-append : (p s : String) → strip_prefix p (String.◌++◌ p s) ≡ some s
unfolding strip_prefix
strip_prefix-append String.[] s = rw (Append.nil s) refl
strip_prefix-append (String.◌∷◌ c p) s =
    let rest = strip_prefix-append p s in
    rw (Append.cons c p s) (ground (arith, rest, nat_eq.beq_iff (code c) (code c)))

request_channel_private :
    (config : EndpointConfig) (channel : String)
    → (config.app_request_queue_prefix == "") ≡ false
    → request_channel config (String.◌++◌ config.app_request_queue_prefix channel)
      ≡ some (channel, true)
unfolding request_channel
request_channel_private config channel private_queue =
    rw (strip_prefix-append config.app_request_queue_prefix channel, private_queue, request_channel)
      refl

-- The request that a client asks a service on its private queue.
abbrev pub asked : EndpointConfig → String → String → Request → Request
asked config channel connection_id req = record req {
  broker_destination = some (reply_target config channel connection_id);
}

forward_targeted :
    (encoded : ℕ) (default_destination : String) (r : Response) (target : BrokerDestination)
    → r.broker_destination ≡ some target
    → forward_message (some encoded) default_destination true (response_pointer (some r))
      ≡ send_message_to_client target.connection_id target.destination encoded ∷ []
unfolding forward_message convert_payload_to_response_obj
forward_targeted encoded default_destination r target at = simp at refl

-- Where both queue prefixes are configured, a request to the private queue of a channel is sent on that channel, and however the service answers it, a forwarder that lets responses choose their destination sends the encoded answer to the client that asked and to nobody else, at the user queue of the channel; a subscription to that queue is one to the channel, where it does not start with the prefix of topics.
pub private_reply :
    (config : EndpointConfig) (channel connection_id : String) (req : Request) (core : FabricCore)
    (a : Answer) (encoded : ℕ) (default_destination : String)
    → (config.app_request_queue_prefix == "") ≡ false
    → (config.user_queue_prefix == "") ≡ false
    → strip_prefix config.topic_prefix (String.◌++◌ config.user_queue_prefix channel) ≡ none
    → (bridge_message config
          (String.◌++◌ config.app_request_queue_prefix channel)
          (some req)
          connection_id
        ≡ some (channel, asked config channel connection_id req))
      × (forward_message (some encoded) default_destination true (
            response_pointer
              (some (respond core (asked config channel connection_id req) a).response))
          ≡ send_message_to_client connection_id
              (String.◌++◌ config.user_queue_prefix channel)
              encoded
            ∷ [])
      × (get_channel_name_from_subscription config (String.◌++◌ config.user_queue_prefix channel)
          ≡ some channel)
unfolding bridge_message get_channel_name_from_subscription
private_reply config channel connection_id req core a encoded default_destination private_queue
      user_queue other_topic =
    let answer = respond-IsAnswer core (asked config channel connection_id req) a in
    (
      rw (request_channel_private config channel private_queue, bridge_message) refl,
      forward_targeted encoded default_destination
          (respond core (asked config channel connection_id req) a).response
          (reply_target config channel connection_id) answer.4,
      rw
          (
            other_topic,
            user_queue,
            strip_prefix-append config.user_queue_prefix channel,
            get_channel_name_from_subscription,
          )
          refl,
    )
