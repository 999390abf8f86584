-- ===== src/Batch/Usage.antt =====
-- The usage lines of a batch result file (`parseJSONLUsage`, `handleUsageLine` and
-- `usageAndModel` of model/ibatch/settle.go). A line is a list of bytes. Trimming a line and
-- decoding its JSON are the standard library's, and a parameter.
pub mod Lines
use ai_gateway_api.Prelude.{
  ℕ, suc, ◌+◌, String, Bool, true, false, not, ◌&&◌, List, [], ◌∷◌, ◌++◌, Option, none, some, ◌==◌,
  ltb, nat_eq, length, if◌then◌else◌, Int64, add_int64,
}

abbrev pub Bytes : Type 0
Bytes = List ℕ

pub record UsageTokens : Type 0 where
  pub prompt_tokens : Int64
  pub completion_tokens : Int64

pub record ResponseBody : Type 0 where
  pub model : String
  pub usage : Option UsageTokens

pub record RowResponse : Type 0 where
  pub model : String
  pub usage : Option UsageTokens
  pub body : Option ResponseBody

pub record BatchResultRow : Type 0 where
  pub response : Option RowResponse

pub record UsageTotals : Type 0 where
  pub input_tokens : Int64
  pub output_tokens : Int64
  pub model : String
  pub parsed_lines : ℕ
  pub no_usage_lines : ℕ
  pub bad_lines : ℕ

unfoldable pub no_usage : UsageTotals
no_usage = record {
  input_tokens = 0;
  output_tokens = 0;
  model = "";
  parsed_lines = 0;
  no_usage_lines = 0;
  bad_lines = 0;
}

-- What the manager uses of the standard library's decoders: `bytes.TrimSpace`, `json.Unmarshal`
-- into a row and into a map of counts, and `time.Parse` of RFC 3339. `none` is a decoding error.
pub record Codec : Type 0 where
  pub decode_counts : String → Option (List (String × Int64))
  pub parse_rfc3339 : String → Option ℕ
  pub trim_space : Bytes → Bytes
  pub decode_row : Bytes → Option BatchResultRow

top_level_usage : RowResponse → Option (UsageTokens × String)
top_level_usage r = elim r.usage [ none ↦ none | some usage ↦ some (usage, r.model) ]

body_usage : ResponseBody → Option (UsageTokens × String)
body_usage b = elim b.usage [ none ↦ none | some usage ↦ some (usage, b.model) ]

or_else {ℓ} : {A : Type ℓ} → Option A → Option A → Option A
or_else none other = other
or_else (some a) other = some a

-- The usage and the model of a response: its body's first, else its own.
unfoldable pub usage_and_model : RowResponse → Option (UsageTokens × String)
unfolding top_level_usage body_usage or_else
usage_and_model r = elim r.body [
  | none ↦ top_level_usage r
  | some b ↦ or_else (body_usage b) (top_level_usage r)
]

add_usage : UsageTokens → String → UsageTotals → UsageTotals
add_usage usage model totals = record totals {
  model = if totals.model == "" && not (model == "") then model else totals.model;
  input_tokens = add_int64 totals.input_tokens usage.prompt_tokens;
  output_tokens = add_int64 totals.output_tokens usage.completion_tokens;
  parsed_lines = totals.parsed_lines + 1;
}

handle_response : RowResponse → UsageTotals → UsageTotals
unfolding add_usage usage_and_model
handle_response r totals = elim (usage_and_model r) [
  | none ↦ record totals { no_usage_lines = totals.no_usage_lines + 1 }
  | some (usage, model) ↦ add_usage usage model totals
]

handle_row : Option BatchResultRow → UsageTotals → UsageTotals
unfolding handle_response
handle_row none totals = record totals { bad_lines = totals.bad_lines + 1 }
handle_row (some row) totals = elim row.response [
  | none ↦ totals
  | some r ↦ handle_response r totals
]

unfoldable pub is_blank : Bytes → Bool
is_blank [] = true
is_blank (c ∷ cs) = false

module _ (codec : Codec) where
  unfoldable pub handle_usage_line : Bytes → UsageTotals → UsageTotals
  unfolding handle_row is_blank
  handle_usage_line line totals =
      if is_blank (codec.trim_space line)
      then totals
      else handle_row (codec.decode_row (codec.trim_space line)) totals

longer : ℕ → List (Bytes × Bool) → List (Bytes × Bool)
longer c [] = []
longer c ((seg, complete) ∷ rest) = (c ∷ seg, complete) ∷ rest

-- What `ReadBytes('\n')` returns one after the other: a segment, and whether a newline ended it.
-- The last segment is the one that meets the end of the stream, and may be empty.
unfoldable pub segments : Bytes → List (Bytes × Bool)
unfolding longer
segments [] = ([], false) ∷ []
segments (c ∷ cs) =
    let rest = segments cs in if nat_eq c b'\n' then ([], true) ∷ rest else longer c rest

pub record Scan : Type 0 where
  pub pending : Bytes
  pub dirty : Bool
  pub totals : UsageTotals

module _ (codec : Codec) (max_line_bytes : ℕ) where
  keep_segment : Bytes → Bool → Scan → Scan
  unfolding handle_usage_line
  keep_segment seg complete s =
      if complete
      then record s { pending = []; totals = handle_usage_line codec (s.pending ++ seg) s.totals }
      else record s { pending = s.pending ++ seg }

  -- One round of the loop: the rest of an overlong line is dropped up to its newline.
  scan_segment : Bytes → Bool → Scan → Scan
  unfolding keep_segment is_blank
  scan_segment seg complete s =
      if not complete && is_blank seg
      then s
      else if s.dirty
      then if complete then record s { pending = []; dirty = false } else s
      else if ltb max_line_bytes (length s.pending + length seg)
      then record s { pending = []; dirty = not complete }
      else keep_segment seg complete s

  scan : List (Bytes × Bool) → Scan → Scan
  scan [] s = s
  scan ((seg, complete) ∷ rest) s = scan rest (scan_segment seg complete s)

  at_end : Scan → UsageTotals
  unfolding is_blank handle_usage_line
  at_end s =
      if not s.dirty && not (is_blank (codec.trim_space s.pending))
      then handle_usage_line codec s.pending s.totals
      else s.totals

  -- The whole body, where `fails` is a read error after its last byte, and `none` that error.
  unfoldable pub parse_jsonl_usage : Bytes → Bool → UsageTotals → Option UsageTotals
  unfolding scan scan_segment at_end
  parse_jsonl_usage body fails totals =
      if fails
      then none
      else some
          (at_end (scan (segments body) (record { pending = []; dirty = false; totals = totals })))
