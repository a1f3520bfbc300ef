-- ===== src/StreamAssembly.antt =====
-- stream.go: the assembly of streamed tool calls. MetaStore is the host's request metadata, Frames
-- the layout of a buffered call in it, Feed the StreamAssembler, Handler the StreamHandler.
-- Protobuf's `Marshal` and `Unmarshal` of a ToolCallRef are parameters.
pub mod MetaStore
pub mod Frames
pub mod Feed
pub mod Handler
pub mod Assembly
pub mod Completion
pub mod Calls
pub mod Reemit
