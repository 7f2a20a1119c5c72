-- ===== src/Containers/Script.antt =====
-- How pkg/containers/runPod.go reads a script line: `strings.SplitN(scriptName, " ", 2)` after the
-- "./" prefix has been made sure of.
pub mod Laws
use Prim.Native.Char.{Char}
use alustan.Base.{
  String, Bool, true, false, Option, none, some, starts_with, ◌<>◌, ◌==◌, if◌then◌else◌, ◌++◌,
  StringMap, List, [], ◌∷◌,
}

-- `strings.HasPrefix`, then "./" in front.
unfoldable pub with_dot_slash : String → String
with_dot_slash script = if starts_with script "./" then script else "./" <> script

-- The text before the first space, and the text behind it if there is one.
unfoldable pub split_space : String → String × Option String
split_space String.[] = ("", none)
split_space (String.◌∷◌ ch s) =
    let (before, behind) = split_space s in
    if String.◌∷◌ ch String.[] == " " then ("", some s) else (String.◌∷◌ ch before, behind)

abbrev pub args_or_empty : Option String → String
args_or_empty none = ""
args_or_empty (some args) = args

-- The SCRIPT variable, and the ARGS variable where there are arguments.
unfoldable pub script_env : String → StringMap String
unfolding with_dot_slash split_space
script_env script_name =
    let (script, behind) = split_space (with_dot_slash script_name) in
    let args = args_or_empty behind in
    ("SCRIPT", script) ∷ (if args == "" then [] else ("ARGS", args) ∷ [])
