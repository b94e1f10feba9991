-- ===== src/Harness/Expectations/Names.antt =====
-- The names of nodes in compile_delivery_expectations.py; a digit is one of the ten of ASCII.
use Prim.Native.Char.{code}
use Prim.Native.String.{String, [], ◌∷◌, ◌++◌, slice, len}
use text.Mathlib.Text.{starts_with}
use act_sim_scope_infra.Common.{ℕ, Bool, true, false, ◌&&◌, Option, none, some, leb, if◌then◌else◌}

abbrev pub is_digit : ℕ → Bool
is_digit c = leb 48 c && leb c 57

abbrev pub all_digits : String → Bool
all_digits [] = true
all_digits (c ∷ s) = is_digit (code c) && all_digits s

-- `\d+`
abbrev pub some_digits : String → Bool
some_digits [] = false
some_digits (c ∷ s) = all_digits (c ∷ s)

abbrev pub after : ℕ → String → String
after n s = slice s n (len s)

abbrev pub event_node_name : String → Option String
event_node_name node =
    if starts_with node "control_" && some_digits (after 8 node)
    then some ("Control_" ++ after 8 node)
    else if starts_with node "platform_" && some_digits (after 9 node)
    then some ("Platform_" ++ after 9 node)
    else none
