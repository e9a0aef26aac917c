-- ===== src/Service/Core.antt =====
-- service/fabric_core.go: the answers that a service sends, and the requests it makes to REST services.
use Prim.Native.String
use ranch.Prelude.{Bool, Option, String, [], false, nat_eq, none, some, string_eq, true, ℕ, ◌∷◌}
use ranch.Prelude.Dict.{Dict, put}
use ranch.Model.{Request, Response}

pub record FabricCore : Type 0 where
  pub channel_name : String
  pub headers : Dict String String

-- A loop that writes every entry of a map into another.
unfoldable pub put_all : Dict String String → Dict String String → Dict String String
put_all [] merged = merged
put_all ((k, v) ∷ m) merged = put_all m (put k v merged)

unfoldable pub merge_headers_with_defaults : FabricCore → Dict String String → Dict String String
merge_headers_with_defaults core headers = put_all headers (put_all core.headers [])

unfoldable pub set_headers : Dict String String → FabricCore → FabricCore
set_headers headers core = record core { headers = headers }

abbrev pub generate_json_headers : Dict String String
generate_json_headers = ("Content-Type", "application/json") ∷ []

unfoldable pub set_default_json_headers : FabricCore → FabricCore
set_default_json_headers core = set_headers generate_json_headers core

-- What sendResponseMessage hands to SendResponseMessage of the bus: the channel, the response and the
-- destination's id.
pub record Sent : Type 0 where
  pub channel : String
  pub response : Response
  pub destination_id : Option ℕ

abbrev send_response_message : FabricCore → Response → Option ℕ → Sent
send_response_message core response id = record {
  channel = core.channel_name;
  response = response;
  destination_id = id;
}

unfoldable pub send_response_with_headers_and_code :
    FabricCore → Request → ℕ → Dict String String → ℕ → Sent
send_response_with_headers_and_code core request payload headers code =
    send_response_message core
      (record {
        id = request.id;
        destination = core.channel_name;
        payload = some payload;
        http_status_code = code;
        is_error = false;
        error_code = 0;
        error_message = "";
        broker_destination = request.broker_destination;
        headers = merge_headers_with_defaults core headers;
        marshal = true;
      })
      request.id

unfoldable pub send_response_with_headers : FabricCore → Request → ℕ → Dict String String → Sent
send_response_with_headers core request payload headers =
    send_response_message core
      (record {
        id = request.id;
        destination = core.channel_name;
        payload = some payload;
        http_status_code = 0;
        is_error = false;
        error_code = 0;
        error_message = "";
        broker_destination = request.broker_destination;
        headers = merge_headers_with_defaults core headers;
        marshal = true;
      })
      request.id

unfoldable pub send_response : FabricCore → Request → ℕ → Sent
send_response core request payload =
    send_response_message core
      (record {
        id = request.id;
        destination = core.channel_name;
        payload = some payload;
        http_status_code = 0;
        is_error = false;
        error_code = 0;
        error_message = "";
        broker_destination = request.broker_destination;
        headers = merge_headers_with_defaults core [];
        marshal = true;
      })
      request.id

unfoldable pub send_response_as_string_with_headers :
    FabricCore → Request → ℕ → Dict String String → Sent
send_response_as_string_with_headers core request payload headers =
    send_response_message core
      (record {
        id = request.id;
        destination = core.channel_name;
        payload = some payload;
        http_status_code = 0;
        is_error = false;
        error_code = 0;
        error_message = "";
        broker_destination = request.broker_destination;
        headers = merge_headers_with_defaults core headers;
        marshal = false;
      })
      request.id

unfoldable pub send_response_as_string : FabricCore → Request → ℕ → Sent
send_response_as_string core request payload =
    send_response_message core
      (record {
        id = request.id;
        destination = core.channel_name;
        payload = some payload;
        http_status_code = 0;
        is_error = false;
        error_code = 0;
        error_message = "";
        broker_destination = request.broker_destination;
        headers = merge_headers_with_defaults core [];
        marshal = false;
      })
      request.id

-- The fields that the five functions for errors share.
abbrev error_response :
    FabricCore → Request → ℕ → String → Option ℕ → Dict String String → Bool → Response
error_response core request code message payload headers marshal = record {
  id = request.id;
  destination = core.channel_name;
  payload = payload;
  http_status_code = 0;
  is_error = true;
  error_code = code;
  error_message = message;
  broker_destination = request.broker_destination;
  headers = merge_headers_with_defaults core headers;
  marshal = marshal;
}

unfoldable pub send_error_response_with_payload :
    FabricCore → Request → ℕ → String → Option ℕ → Sent
send_error_response_with_payload core request code message payload =
    send_response_message core (error_response core request code message payload [] true) request.id

unfoldable pub send_error_response : FabricCore → Request → ℕ → String → Sent
send_error_response core request code message =
    send_error_response_with_payload core request code message none

unfoldable pub send_error_response_with_headers :
    FabricCore → Request → ℕ → String → Dict String String → Sent
send_error_response_with_headers core request code message headers =
    send_response_message core (error_response core request code message none headers true)
      request.id

unfoldable pub send_error_response_with_headers_and_payload :
    FabricCore → Request → ℕ → String → Option ℕ → Dict String String → Sent
send_error_response_with_headers_and_payload core request code message payload headers =
    send_response_message core (error_response core request code message payload headers true)
      request.id

unfoldable pub send_error_response_as_string_with_headers_and_payload :
    FabricCore → Request → ℕ → String → ℕ → Dict String String → Sent
send_error_response_as_string_with_headers_and_payload core request code message payload headers =
    send_response_message core
      (error_response core request code message (some payload) headers false) request.id

unfoldable pub handle_unknown_request : FabricCore → Request → Sent
handle_unknown_request core request = send_error_response core request 403 (
    String.◌++◌ "unsupported request for \""
      (String.◌++◌ core.channel_name (String.◌++◌ "\": " request.request_command)))
