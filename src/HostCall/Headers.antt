-- ===== src/HostCall/Headers.antt =====
-- `validateHTTPHeaders`, and the outbound request and response that carry headers.
use torana_plugin_sdk.Prelude.{
  Bool, false, not, ◌||◌, Bytes, List, [], ◌∷◌, Option, none, some, Check, ok, err, ◌>>◌, refuse_if,
  is_empty, within, bytes_eq,
}
use torana_plugin_sdk.GoStd.Strings.{contains_byte, to_lower}
use torana_plugin_sdk.Proto.HostCall.{HttpHeader, OutboundHttpRequestArgs, OutboundHttpResponse}
use torana_plugin_sdk.HostCall.Names.{
  HostCallError, nil_message, header_name, duplicate_header, header_line_break, no_method,
  bad_method, bad_request_path, bad_http_status, valid_header_name, validate_slot, valid_method,
  request_path_valid,
}

-- Membership in the set `seen`.
unfoldable pub seen_name : Bytes → List Bytes → Bool
seen_name name [] = false
seen_name name (n ∷ ns) = bytes_eq name n || seen_name name ns

-- A value with a carriage return or a line feed in it.
unfoldable pub check_values : List Bytes → Check HostCallError
check_values [] = ok tt
check_values (v ∷ vs) =
    refuse_if (contains_byte v b'\r' || contains_byte v b'\n') header_line_break >> check_values vs

unfoldable pub headers_loop : List Bytes → List (Option HttpHeader) → Check HostCallError
headers_loop seen [] = ok tt
headers_loop seen (none ∷ hs) = err header_name
headers_loop seen (some h ∷ hs) =
    refuse_if (not (valid_header_name h.name)) header_name
    >> refuse_if (seen_name (to_lower h.name) seen) duplicate_header
    >> check_values h.values
    >> headers_loop (to_lower h.name ∷ seen) hs

-- `validateHTTPHeaders`
unfoldable pub validate_http_headers : List (Option HttpHeader) → Check HostCallError
validate_http_headers headers = headers_loop [] headers

-- `OutboundHTTPRequestArgs.Validate`
unfoldable pub validate_http_request : Option OutboundHttpRequestArgs → Check HostCallError
validate_http_request none = err nil_message
validate_http_request (some x) =
    validate_slot x.endpoint
    >> refuse_if (is_empty x.method) no_method
    >> refuse_if (not (valid_method x.method)) bad_method
    >> refuse_if (not (request_path_valid x.path)) bad_request_path
    >> validate_http_headers x.headers

-- `OutboundHTTPResponse.Validate`; an int32 pattern from 2 ^ 31 on is negative
unfoldable pub validate_outbound_response : Option OutboundHttpResponse → Check HostCallError
validate_outbound_response none = err nil_message
validate_outbound_response (some x) =
    refuse_if (not (within 100 599 x.status)) bad_http_status >> validate_http_headers x.headers
