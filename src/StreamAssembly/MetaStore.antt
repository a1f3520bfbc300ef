-- ===== src/StreamAssembly/MetaStore.antt =====
-- The request metadata behind env.meta_append: `MetaAppendSuccessValue` of pb/v1/hostcall.go,
-- `MetaAppendArgs.Validate` of pb/v1/hostcall_validate.go and the command's case in
-- sdktest/sdktest.go. A buffer is stored under its block index, which stands for the key
-- "block:<index>".
use torana_plugin_sdk.Prelude.{
  ℕ, Bool, true, false, Bytes, List, [], ◌∷◌, ◌++◌, Option, none, some, Result, ok, err, is_empty,
  ◌==◌, if◌then◌else◌,
}
use torana_plugin_sdk.RequestValidate.Blocks.{is_some}
use torana_plugin_sdk.RequestValidate.Parts.{slice_bytes}
use torana_plugin_sdk.Envelope.Stream.{is_negative}

abbrev pub Meta : Type 0
Meta = List (ℕ × Bytes)

unfoldable pub find : ℕ → Meta → Option Bytes
find i [] = none
find i (e ∷ m) = let rest = find i m in if e.0 == i then some e.1 else rest

-- `h.meta[key] = value`
unfoldable pub insert : ℕ → Bytes → Meta → Meta
insert i v [] = (i, v) ∷ []
insert i v (e ∷ m) = let rest = insert i v m in if e.0 == i then (i, v) ∷ m else e ∷ rest

pub data AppendError : Type 0 where
  negative_block_index : AppendError

-- `MetaAppendSuccessValue`
unfoldable pub meta_append_success_value : Bytes → Bytes → Bool → Bytes
meta_append_success_value (c ∷ cs) current present = []
meta_append_success_value [] current false = []
meta_append_success_value [] current true = current

-- What the host stores for a fragment.
unfoldable pub stored : ℕ → Bytes → Meta → Meta
stored i fragment m =
    if is_empty fragment then m else insert i (slice_bytes (find i m) ++ fragment) m

-- The command env.meta_append.
unfoldable pub meta_append : ℕ → Bytes → Meta → Meta × Result AppendError Bytes
unfolding stored meta_append_success_value
meta_append i fragment m = if is_negative i then (m, err negative_block_index) else (
  stored i fragment m,
  ok (meta_append_success_value fragment (slice_bytes (find i m)) (is_some (find i m))),
)
