-- ===== src/Batch/Usage/Lines.antt =====
-- The streaming parser against a plain reading of the file: split at the newlines, leave out
-- what is too long, and handle each line.
use ai_gateway_api.Prelude.{
  ℕ, ◌≡◌, refl, Bool, true, false, List, [], ◌∷◌, none, some, leb, nat_eq, length, if◌then◌else◌,
  arith, inl, inr, Bool-cases, ap,
}
use ai_gateway_api.Batch.Usage.{
  Bytes, Codec, UsageTotals, Scan, handle_usage_line, segments, longer, is_blank, scan,
  scan_segment, at_end, parse_jsonl_usage,
}

-- The lines of a text: what stands between its newlines, the part behind the last one included.
extend_first : ℕ → List Bytes → List Bytes
extend_first c [] = (c ∷ []) ∷ []
extend_first c (l ∷ ls) = (c ∷ l) ∷ ls

unfoldable pub split_lines : Bytes → List Bytes
unfolding extend_first
split_lines [] = [] ∷ []
split_lines (c ∷ cs) =
    let rest = split_lines cs in if nat_eq c b'\n' then [] ∷ rest else extend_first c rest

-- The segments of a text, from its first line and the others.
marked : Bytes → List Bytes → List (Bytes × Bool)
marked l [] = (l, false) ∷ []
marked l (k ∷ ls) = (l, true) ∷ marked k ls

marked_lines : List Bytes → List (Bytes × Bool)
unfolding marked
marked_lines [] = []
marked_lines (l ∷ ls) = marked l ls

longer-marked : (c : ℕ) (l : Bytes) (ls : List Bytes) → longer c (marked l ls) ≡ marked (c ∷ l) ls
unfolding longer marked
longer-marked c l [] = refl
longer-marked c l (k ∷ ls) = refl

split_lines-cons : (body : Bytes) → (l : Bytes) × (ls : List Bytes) × (split_lines body ≡ l ∷ ls)
unfolding split_lines
split_lines-cons [] = ([], [], refl)
split_lines-cons (c ∷ cs) = elim (Bool-cases (nat_eq c b'\n')) [
  | inl new ↦ rw new ([], split_lines cs, refl)
  | inr same ↦ let (l, ls, e) = split_lines-cons cs in rw (same, e) (c ∷ l, ls, refl)
]

segments-split_lines : (body : Bytes) → segments body ≡ marked_lines (split_lines body)
unfolding segments split_lines marked_lines marked
segments-split_lines [] = refl
segments-split_lines (c ∷ cs) =
    let (k, ks, q) = split_lines-cons cs in
    elim (Bool-cases (nat_eq c b'\n')) [
      | inl new ↦ rw (new, segments-split_lines cs, q)
      | inr same ↦ rw (same, segments-split_lines cs, q) (longer-marked c k ks)
    ]

module _ (codec : Codec) (max_line_bytes : ℕ) where
  unfoldable pub handle_lines : List Bytes → UsageTotals → UsageTotals
  handle_lines [] totals = totals
  handle_lines (l ∷ ls) totals =
      handle_lines ls
        (if leb (length l) max_line_bytes then handle_usage_line codec l totals else totals)

  idle : UsageTotals → Scan
  idle totals = record { pending = []; dirty = false; totals = totals }

  last_segment :
      (seg : Bytes) (totals : UsageTotals)
      → is_blank (codec.trim_space []) ≡ true
      → at_end codec max_line_bytes (scan_segment codec max_line_bytes seg false (idle totals))
        ≡ (if leb (length seg) max_line_bytes then handle_usage_line codec seg totals else totals)
  unfolding at_end scan_segment idle handle_usage_line
  last_segment [] totals b = ground arith
  last_segment (c ∷ cs) totals b = ground arith

  full_segment :
      (seg : Bytes) (totals : UsageTotals)
      → scan_segment codec max_line_bytes seg true (idle totals)
        ≡ idle
            (if leb (length seg) max_line_bytes then handle_usage_line codec seg totals else totals)
  unfolding scan_segment idle
  full_segment seg totals = ground arith

  scan-marked :
      (l : Bytes) (ls : List Bytes) (totals : UsageTotals)
      → is_blank (codec.trim_space []) ≡ true
      → at_end codec max_line_bytes (scan codec max_line_bytes (marked l ls) (idle totals))
        ≡ handle_lines (l ∷ ls) totals
  unfolding scan marked handle_lines
  scan-marked l [] totals b = last_segment l totals b
  scan-marked l (k ∷ ls) totals b =
      rw (scan, full_segment l totals)
        (scan-marked k ls
          (if leb (length l) max_line_bytes then handle_usage_line codec l totals else totals) b)

  -- Where no read fails and a blank line trims to nothing, the streaming parser handles exactly
  -- the lines of the file that are not longer than the limit, in order, the unterminated last one
  -- included; where a read fails it has no result.
  pub parse_jsonl_usage-lines :
      (body : Bytes) (totals : UsageTotals)
      → is_blank (codec.trim_space []) ≡ true
      → (parse_jsonl_usage codec max_line_bytes body false totals
          ≡ some (handle_lines (split_lines body) totals))
        × (parse_jsonl_usage codec max_line_bytes body true totals ≡ none)
  unfolding parse_jsonl_usage marked_lines idle
  parse_jsonl_usage-lines body totals b =
      let (l, ls, e) = split_lines-cons body in
      (rw (segments-split_lines body, e) (ap some (scan-marked l ls totals b)), refl)
