-- ===== src/Prelude/Texts.antt =====
-- `strings.TrimRight(s, "/")`, which the SDK applies to the URLs it is given.
use Prim.Native.Char.{code}
use Prim.Native.String.{String}
use mathlib.Core.Bool.{Bool, true, false, ◌&&◌}
use korai_sdk_go.Prelude.Tests.{nat_eq, if◌then◌else◌}

abbrev pub is_empty : String → Bool
is_empty String.[] = true
is_empty (String.◌∷◌ c s) = false

unfoldable pub trim_right_slashes : String → String
trim_right_slashes String.[] = String.[]
trim_right_slashes (String.◌∷◌ c s) =
    let rest = trim_right_slashes s in
    if is_empty rest && nat_eq (code c) 0x2f then String.[] else String.◌∷◌ c rest
