-- ===== src/Prelude/Paths.antt =====
-- `os.path.join` of a directory and a file name that does not begin with a slash.
use Prim.Native.Char.{code}
use mini2_anu_asim.Prelude.{String, ◌<>◌, Bool, false, ◌==◌, str_eq, if◌then◌else◌}

-- Whether a path ends with a slash.
unfoldable pub ends_with_slash : String → Bool
ends_with_slash String.[] = false
ends_with_slash (String.◌∷◌ c String.[]) = code c == b'/'
ends_with_slash (String.◌∷◌ c (String.◌∷◌ d s)) = ends_with_slash (String.◌∷◌ d s)

unfoldable pub join_path : String → String → String
unfolding ends_with_slash
join_path dir name =
    if str_eq dir "" then name else if ends_with_slash dir then dir <> name else dir <> "/" <> name
