-- ===== src/Lib.antt =====
-- torana-plugin-sdk: the SDK that plugins of the Torana gateway are built with. The host hands a
-- plugin a HookInput, the plugin answers with a HookResult, and pb/v1 holds the contract that both
-- sides check: which inputs and results are well formed, which replacement requests the host may
-- apply, and which part of a request a provider caches.
--
-- Parts, in the order they build on each other:
--   * Proto models the messages of pb/v1/torana.pb.go. Proto.Request has the request tree and the
--     getters of its oneofs, Proto.Envelope the hook inputs and results. A oneof is a data type
--     with one constructor for each wrapper; a nil pointer is `none`. Each message that the
--     validators inspect has a field for its unknown protobuf bytes. Strings and byte slices are
--     lists of bytes below 256. An int32 is its two's complement pattern below 2 ^ 32 and a
--     float64 its IEEE 754 pattern below 2 ^ 64.
--   * GoStd has what the code takes from Go's standard library: unicode/utf8.Valid, appending a
--     rune, strings and strconv.Itoa, the order of strings, and the scanner of encoding/json that finds
--     the kind of a decoded value.
--   * JsonText models pb/v1/jsontext/jsontext.go. `v.pos` becomes the rest of the input, and the
--     stack of member names the argument `scope`. Each nested value uses up fuel: `validate` gives
--     2 * length + 2, for a value and the separator behind it read at least one byte each; a string
--     gets its length + 1, one for each byte and the end.
--   * RequestValidate models ChatRequest.ValidateReplacement of pb/v1/request_validate.go and
--     OutputFormat.Validate of pb/v1/foundation_validate.go: Fields the JSON field table, Blocks
--     and Parts the block, message and tool grammar, Utf8Walk the descriptor walk over all
--     strings, written out field by field; Grammar is about what is accepted. The error names the
--     broken rule, without the position that the source's message adds. The panic of a nil pointer
--     is the error nil_dereference.
--   * ObservablePrefix models pb/v1/observableprefix.go: lastCacheMarker, truncateMessage,
--     RequestObservablePrefix, and in Replace ReplaceLastCacheBreakpoint, which returns the request
--     as it leaves it. Carriers lists all carriers as the specification of the scan.
--   * Envelope models pb/v1/validate.go: Stream the events, Hooks HookInput.ValidateFor and
--     HookResult.ValidateFor, Closed validateClosed of pb/v1/foundation_validate.go. Accepted
--     has the contract of each hook, with Inputs and Results about it; Dispatch is about the events of
--     a result.
--   * Wire models pb/v1/decode.go, the check of a protobuf frame before it is unmarshalled. The depth
--     becomes the levels that are left, 100 for the root, and each loop has the length of its bytes
--     as fuel, for a field and a packed number take a byte at least. Total is about the verdict, Tags
--     and Accepted about accepted frames.
--   * HookBitmap models pb/v1/hooks.go, the bitmap of supported hooks against the manifest. A hook
--     is its enum number there, since any number may come in, and a u32 bitmap is the function from
--     its 32 positions to their bits, which `|`, `&^` and `== 0` are read off from.
--   * StreamAssembly models stream.go: MetaStore the metadata behind env.meta_append as the test
--     host of sdktest/sdktest.go keeps it and pb/v1/hostcall.go answers, Frames the layout of a
--     buffered call, Feed StreamAssembler.Feed and EmitAssembledToolCall, Handler StreamHandler.Handle;
--     Assembly and Calls follow a sequence of events, Completion says what a completed call is, and
--     Reemit feeds an emitted call again. Each fed event is one step of the metadata. A frame whose
--     end wraps in uint32, where the source's slices panic, is an error of the model.
--   * HostCall models pb/v1/hostcall_validate.go and the state, resource and synthetic-response
--     messages of pb/v1/foundation_validate.go: Names the strings (slots, tokens, logical paths,
--     header names, request paths), Headers, Policy, Args and State the messages. Paths, Unique and
--     CachePolicy are about what is accepted.
--   * TestHost models the in-memory host of sdktest/sdktest.go: Maps Go's maps, Replies the answers,
--     Store the durable state of env.state_*, Cache the two caches, Host the other commands of
--     builtinTyped and the seed helpers. A command holds the arguments that protobuf reads from its
--     frame, and a reply the result message before it is serialized; each command is one step, for
--     the host's lock is held. Versions, Outcomes, Order, Matching, Keys and Paging are about the store,
--     History about sequences of steps.
--   * Fingerprint models requestblocks.go and cachekey.go: the check and the frames of a message, in
--     Content the binary layout of tool-result content, in Frames the textual frames, in CacheKey
--     the key of a derived value. View, Injective and Nested read the frames back.
--   * ToolReplacement models the replacement of a long tool output in tool_policy.go. The loops of
--     validPrefix and validSuffix become recursion on the position and on what is left; Cut is about
--     the parts that are retained.
-- Prelude has the shared names, tests and lemmas, Samples the requests that Examples runs on.
--
-- Parameters: protobuf's marshallers (`marshal`, `unmarshal`), the reflective view of a hook
-- input (`reflect`), and whether all numbers of a JSON text fit a float64 (`floats_fit`), which
-- json.Unmarshal into `any` asks for; for the test host also the view of a synthetic response and
-- strconv.FormatInt on the clock (`format_int`).
-- The wire check takes the consumers of google.golang.org/protobuf/encoding/protowire (`Protowire`)
-- and the message descriptors, a table from a number to the fields of a message.
-- The replacement of a tool output takes strings.Fields and strings.TrimSpace (`fields`, `trim_space`).
-- `sha256` is the hash of the fingerprints; nothing is assumed of it, and a theorem on fingerprints
-- ends in equal content or in two inputs with one digest.
--
-- Not modelled: aliasing. The source clones before it edits, and ReplaceLastCacheBreakpoint writes
-- in place what the model returns. The guest's side of its host calls, the registration of callbacks,
-- body edits, the rules of the tool policy, outbound policy, and of the test harness the recorded
-- calls, stubs and dispatch are not part of this development; the Rust SDK and generated code are left aside.
pub mod Prelude
pub mod Proto
pub mod GoStd
pub mod JsonText
pub mod RequestValidate
pub mod ObservablePrefix
pub mod Envelope
pub mod HookBitmap
pub mod StreamAssembly
pub mod HostCall
pub mod TestHost
pub mod Fingerprint
pub mod Wire
pub mod ToolReplacement
pub mod Samples
pub mod Examples
