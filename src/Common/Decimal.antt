-- ===== src/Common/Decimal.antt =====
-- Python's `str` of a number that is not negative, and the joining of texts.
use fleet_graph.Common.Tests.{eqb, if◌then◌else◌, ltb}
use Prim.Native.Nat.{suc, zero, ℕ, ◌%◌, ◌/◌}
use Prim.Native.String.{String, ◌++◌}

abbrev digit : ℕ → String
digit n =
    if eqb n 0
    then "0"
    else if eqb n 1
    then "1"
    else if eqb n 2
    then "2"
    else if eqb n 3
    then "3"
    else if eqb n 4
    then "4"
    else if eqb n 5
    then "5"
    else if eqb n 6
    then "6"
    else if eqb n 7
    then "7"
    else if eqb n 8
    then "8"
    else "9"

-- A number has fewer digits than its successor counts.
abbrev digits_from : ℕ → ℕ → String
digits_from zero n = ""
digits_from (suc fuel) n =
    let front = digits_from fuel (n / 10) in if ltb n 10 then digit n else front ++ digit (n % 10)

unfoldable pub decimal : ℕ → String
decimal n = digits_from (suc n) n

-- ":".join(parts)
unfoldable pub with_colon : String → String → String
with_colon a b = a ++ ":" ++ b

unfoldable pub joined_by : String → String → String → String
joined_by separator a b = a ++ separator ++ b

abbrev pub concat : String → String → String
concat a b = a ++ b
