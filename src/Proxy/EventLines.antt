-- ===== src/Proxy/EventLines.antt =====
-- internal/proxy/usage.go: the lines of a server-sent event and the data in them.
use vllm_priority_gateway.Base.{
  ℕ, Bool, true, not, Option, none, some, List, [], ◌∷◌, ◌++◌, ◌==◌, if◌then◌else◌,
}
use vllm_priority_gateway.Proxy.TokenUsage.{Bytes, same, data_key}

-- `bytes.Split` at line feeds, `bytes.TrimSuffix` of a carriage return, `bytes.Join` with line feeds.
abbrev pub cons_line : ℕ → List Bytes → List Bytes
cons_line c [] = (c ∷ []) ∷ []
cons_line c (line ∷ lines) = (c ∷ line) ∷ lines

unfoldable pub split_lines : Bytes → List Bytes
split_lines [] = [] ∷ []
split_lines (c ∷ cs) =
    let lines = split_lines cs in if c == 10 then [] ∷ lines else cons_line c lines

unfoldable pub trim_cr : Bytes → Bytes
trim_cr [] = []
trim_cr (c ∷ []) = if c == 13 then [] else c ∷ []
trim_cr (c ∷ d ∷ cs) = c ∷ trim_cr (d ∷ cs)

unfoldable pub join_lines : List Bytes → Bytes
join_lines [] = []
join_lines (line ∷ []) = line
join_lines (line ∷ next ∷ lines) = line ++ (10 ∷ join_lines (next ∷ lines))

-- `bytes.Cut` at the first colon; without one the whole line is the field.
unfoldable pub cut_colon : Bytes → Bytes × Bytes
cut_colon [] = ([], [])
cut_colon (c ∷ cs) =
    let (key, value) = cut_colon cs in if c == b':' then ([], cs) else (c ∷ key, value)

abbrev pub trim_space_before : Bytes → Bytes
trim_space_before [] = []
trim_space_before (c ∷ cs) = if c == b' ' then cs else c ∷ cs

abbrev pub is_comment : Bytes → Bool
is_comment [] = true
is_comment (c ∷ cs) = c == b':'

-- The data of a line, where it has any.
unfoldable pub data_of_line : Bytes → Option Bytes
unfolding trim_cr cut_colon
data_of_line line =
    if is_comment (trim_cr line)
    then none
    else if not (same (cut_colon (trim_cr line)).0 data_key)
    then none
    else some (trim_space_before (cut_colon (trim_cr line)).1)

abbrev pub add_data : Option Bytes → List Bytes → List Bytes
add_data none lines = lines
add_data (some d) lines = d ∷ lines

unfoldable pub data_lines : List Bytes → List Bytes
unfolding data_of_line
data_lines [] = []
data_lines (line ∷ lines) = add_data (data_of_line line) (data_lines lines)
