-- ===== src/Prelude/Texts.antt =====
-- Texts: the searches and the decimal printing of the source's standard library.
use Prim.Native.Nat.{ℕ, zero, suc, ◌+◌, ◌/◌, ◌%◌}
use Prim.Native.String.{String, ◌++◌ as append}
use mathlib.Core.Bool.{Bool, ◌||◌}
use mathlib.Core.List.{List, [], ◌∷◌}
use mathlib.Core.Option.{Option, none, some}
use Prim.Native.Char.{code}
use text.Mathlib.Text.{◌==◌ as str_eq, starts_with}
use rd_rs.Prelude.Tests.{ltb, ◌==◌, if◌then◌else◌}
use rd_rs.Prelude.Int.{ℤ, pos, negsuc}

-- `s.ends_with(suffix)`
unfoldable pub ends_with : String → String → Bool
ends_with String.[] suffix = str_eq String.[] suffix
ends_with (String.◌∷◌ c s) suffix = str_eq (String.◌∷◌ c s) suffix || ends_with s suffix

-- `s.contains(part)`
unfoldable pub has_part : String → String → Bool
has_part String.[] part = starts_with String.[] part
has_part (String.◌∷◌ c s) part = starts_with (String.◌∷◌ c s) part || has_part s part

-- `parts.join(separator)`
unfoldable pub join : String → List String → String
join separator [] = ""
join separator (s ∷ []) = s
join separator (s ∷ t ∷ ts) = append s (append separator (join separator (t ∷ ts)))

abbrev pub digit : ℕ → String
digit d =
    if d == 0
    then "0"
    else if d == 1
    then "1"
    else if d == 2
    then "2"
    else if d == 3
    then "3"
    else if d == 4
    then "4"
    else if d == 5
    then "5"
    else if d == 6
    then "6"
    else if d == 7
    then "7"
    else if d == 8
    then "8"
    else "9"

-- A round for each digit.
unfoldable pub decimal_digits : ℕ → ℕ → String
decimal_digits zero n = ""
decimal_digits (suc rounds) n =
    let front = decimal_digits rounds (n / 10) in
    if ltb n 10 then digit n else append front (digit (n % 10))

-- `to_string` of an `i32` or an `i64`, which has twenty digits at most.
unfoldable pub to_string : ℤ → String
unfolding decimal_digits
to_string (pos n) = decimal_digits 20 n
to_string (negsuc n) = append "-" (decimal_digits 20 (n + 1))

-- The texts between the slashes.
unfoldable pub split_path : String → List String
split_path String.[] = "" ∷ []
split_path (String.◌∷◌ c s) = elim (split_path s) [
  | [] ↦ []
  | part ∷ parts ↦ if code c == b'/' then "" ∷ part ∷ parts else String.◌∷◌ c part ∷ parts
]

-- The last component of a path; `.` and empty components do not count.
unfoldable pub last_component : Option String → List String → Option String
last_component last [] = last
last_component last (part ∷ parts) =
    last_component (if str_eq part "" || str_eq part "." then last else some part) parts

abbrev pub normal_component : Option String → Option String
normal_component none = none
normal_component (some part) = if str_eq part ".." then none else some part

-- `Path::file_name`
unfoldable pub file_name : String → Option String
unfolding split_path last_component
file_name path = normal_component (last_component none (split_path path))
