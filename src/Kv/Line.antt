-- ===== src/Kv/Line.antt =====
-- crates/kapsaro-core/src/model/kv_enc/line.rs: the lines of a kv-enc text.
use kapsaro.Base.{Bool, true, false, ℕ, Option, none, some, if◌then◌else◌, Text}
use kapsaro.Text.{codes, text_eq}

-- The number is private to the type, and `V1` is the only value that the code builds.
pub data KvEncVersion : Type 0 where
  v1 : KvEncVersion

abbrev pub as_u32 : KvEncVersion → ℕ
as_u32 v1 = 1

unfoldable pub parse_version : Text → Option KvEncVersion
parse_version text = if text_eq text (codes "1") then some v1 else none

-- `Display`
abbrev pub format_version : KvEncVersion → Text
format_version v1 = codes "1"

pub data KvEncLine : Type 0 where
  header : KvEncVersion → KvEncLine
  head : Text → KvEncLine
  wrap : Text → KvEncLine
  kv : Text → Text → KvEncLine
  sig : Text → KvEncLine
  empty : KvEncLine

-- The patterns that the code matches a line against.
abbrev pub is_header : KvEncLine → Bool
is_header (header v) = true
is_header _ = false

abbrev pub is_head : KvEncLine → Bool
is_head (head t) = true
is_head _ = false

abbrev pub is_wrap : KvEncLine → Bool
is_wrap (wrap t) = true
is_wrap _ = false

abbrev pub is_kv : KvEncLine → Bool
is_kv (kv k t) = true
is_kv _ = false

abbrev pub is_sig : KvEncLine → Bool
is_sig (sig t) = true
is_sig _ = false

abbrev pub is_empty_line : KvEncLine → Bool
is_empty_line empty = true
is_empty_line _ = false
