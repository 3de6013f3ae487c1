-- ===== src/Base/Texts.antt =====
-- lib/text.ts and what JavaScript does with texts in a template: joining them, and writing a number in decimal.
use Prim.Native.Nat.{ℕ, zero, suc, ◌+◌, ◌/◌, ◌%◌}
use Prim.Native.String.{String, [], ◌∷◌, ◌++◌, len, slice}
use mathlib.Core.Bool.{Bool, true, false, ◌&&◌}
use mathlib.Core.List.{List}
use agent_harness_os.Base.Tests.{leb, ltb}

-- The texts one after the other.
unfoldable pub concat : List String → String
concat List.[] = ""
concat (List.◌∷◌ s ss) = s ++ concat ss

-- `join(' ')`
unfoldable pub join_with_space : List String → String
join_with_space List.[] = ""
join_with_space (List.◌∷◌ s List.[]) = s
join_with_space (List.◌∷◌ s (List.◌∷◌ t ts)) = s ++ " " ++ join_with_space (List.◌∷◌ t ts)

abbrev digit : ℕ → String
digit d = slice "0123456789" d (d + 1)

-- The digits of a number, on fuel for as many digits as the number has.
unfoldable pub decimal_digits : ℕ → ℕ → String
decimal_digits zero n = ""
decimal_digits (suc fuel) n = elim (leb 10 n) [
  | true ↦ decimal_digits fuel (n / 10) ++ digit (n % 10)
  | false ↦ digit n
]

abbrev pub decimal : ℕ → String
decimal n = decimal_digits (suc n) n

-- `truncateUtf8`: the characters that lie whole within a number of bytes.
abbrev pub truncate_utf8 : String → ℕ → String
truncate_utf8 value max_bytes = slice value zero max_bytes

-- `value || fallback`
abbrev pub or_text : String → String → String
or_text [] fallback = fallback
or_text (c ∷ s) fallback = c ∷ s

-- `isBoundedString` of evaluation/schema.ts, which counts bytes.
abbrev pub has_bytes : String → ℕ → Bool
has_bytes s max_length = ltb 0 (len s) && leb (len s) max_length
