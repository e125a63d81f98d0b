-- ===== src/Tests/Including.antt =====
-- Runs of the resolver of includes and of the readers of values.
use ngxora.Base.{
  codes, ◌≡◌, ◌≢◌, refl, arith, true, [], ◌∷◌, ◌++◌, ◌*◌, Option, none, some, Text, text_eq,
  starts_with, to_string, ltb, if◌then◌else◌,
}
use ngxora.Machine.{from_millis, u64_max}
use ngxora.Outcome.{success}
use ngxora.Config.Ast.{Nodes, directive, block, nil, cons}
use ngxora.Config.Include.{FileSystem, resolve, resolve_list, include_paths, resolve_include_path}
use ngxora.Config.Parser.{parse_config}
use ngxora.Config.Include.Expansion.{IsExpanded, resolve-IsExpanded}
use ngxora.Config.Include.Confinement.{with_contents, resolve_confined}
use ngxora.Compile.Values.{
  unit_multiplier_millis, size_multiplier, parse_size_literal, parse_duration_literal, lower_err,
  invalid_size, size_too_large, out_of_fuel, not_a_boundary,
}
use ngxora.Compile.Values.Sizes.{parse_size_literal-to_string}
use ngxora.Compile.Values.Durations.{Segment, render, millis_of, parse_duration_literal-render}
use ngxora.Compile.Values.Loop.{
  parse_duration_literal-ne-out_of_fuel, parse_duration_literal_panics,
}

abbrev files : Text → Option Text
files path = if text_eq path (codes "/r/a") then some (codes "listen 80;") else none

abbrev fs : FileSystem
fs = record {
  canonicalize = λ path. some path;
  read_to_string = files;
  is_absolute = starts_with (codes "/");
  join = λ dir path. dir ++ (codes "/" ++ path);
  starts_with = λ path root. starts_with root path;
  parent = λ path. some (codes "/r");
}

abbrev included : Nodes
included =
    cons (block (codes "http") [] (cons (directive (codes "include") (codes "a" ∷ [])) nil)) nil

abbrev expanded : Nodes
expanded =
    cons (block (codes "http") [] (cons (directive (codes "listen") (codes "80" ∷ [])) nil)) nil

expands : resolve fs (codes "/r") included ≡ success expanded
unfolding resolve resolve_list text_eq include_paths resolve_include_path starts_with parse_config
expands = refl

resolve-IsExpanded_example :
    IsExpanded expanded × (resolve fs (codes "/r") expanded ≡ success expanded)
resolve-IsExpanded_example = resolve-IsExpanded fs (codes "/r") included expanded expands

-- Other files outside of the root.
abbrev other_files : Text → Option Text
other_files path = if starts_with (codes "/r") path then files path else some (codes "b;")

agree : (path : Text) → starts_with (codes "/r") path ≡ true → files path ≡ other_files path
agree path h = rw h refl

resolve_confined_example :
    resolve fs (codes "/r") included ≡ resolve (with_contents other_files fs) (codes "/r") included
resolve_confined_example =
    resolve_confined fs other_files (codes "/r") (codes "/r") included refl agree

parse_size_literal-to_string_example : parse_size_literal (to_string 8 ++ codes "k") (codes "x") ≡ (
    if ltb u64_max 8
    then lower_err (codes "x") (invalid_size (to_string 8 ++ codes "k"))
    else if ltb u64_max (8 * 1024)
    then lower_err (codes "x") (size_too_large (to_string 8 ++ codes "k"))
    else success (8 * 1024))
unfolding size_multiplier text_eq
parse_size_literal-to_string_example =
    parse_size_literal-to_string 8 1024 (codes "k") (codes "x") refl

hour_unit : unit_multiplier_millis (codes "h") ≡ some 3_600_000
unfolding unit_multiplier_millis text_eq
hour_unit = refl

half_unit : unit_multiplier_millis (codes "ms") ≡ some 1
unfolding unit_multiplier_millis text_eq
half_unit = refl

abbrev hour : Segment
hour = record { count = 1; unit = codes "h"; millis = 3_600_000; is_unit = hour_unit }

abbrev half : Segment
half = record { count = 500; unit = codes "ms"; millis = 1; is_unit = half_unit }

parse_duration_literal-render_example :
    parse_duration_literal (render (hour ∷ half ∷ [])) (codes "x")
    ≡ success (from_millis (millis_of (hour ∷ half ∷ [])))
parse_duration_literal-render_example =
    parse_duration_literal-render (codes "x") hour (half ∷ []) (omega arith)

parse_duration_literal-ne-out_of_fuel_example :
    parse_duration_literal (codes "1h") (codes "x") ≢ lower_err (codes "x") out_of_fuel
parse_duration_literal-ne-out_of_fuel_example =
    parse_duration_literal-ne-out_of_fuel (codes "1h") (codes "x") (codes "x")

-- A number and the sign of a section, which is two bytes.
parse_duration_literal_panics_example :
    parse_duration_literal (to_string 5 ++ (0xc2 ∷ (0xa7 ∷ []))) (codes "x")
    ≡ lower_err (codes "x") not_a_boundary
parse_duration_literal_panics_example =
    parse_duration_literal_panics 5 0xc2 (0xa7 ∷ []) (codes "x") (omega arith) (omega arith)
