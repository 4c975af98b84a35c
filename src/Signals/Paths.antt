-- ===== src/Signals/Paths.antt =====
-- The tests of paths of ditto_screener/source_signals.py. `casefold` stands for `str.casefold`.
use ditto_screener.Prelude.{
  ℕ, String, codes, Bool, false, ◌||◌, any, List, [], ◌∷◌, ◌++◌, drop, is_empty, ◌==◌, nat_equality,
  if◌then◌else◌,
}
use ditto_screener.Binary.Bytes.{same_bytes, starts_with}

abbrev pub prefixed : String → List ℕ → Bool
prefixed prefix text = starts_with (codes prefix) text

-- `text.endswith(suffix)`
abbrev pub ends_with : List ℕ → List ℕ → Bool
ends_with suffix [] = same_bytes suffix []
ends_with suffix (c ∷ text) = same_bytes suffix (c ∷ text) || ends_with suffix text

-- `part in text`
abbrev pub occurs : List ℕ → List ℕ → Bool
occurs part [] = is_empty part
occurs part (c ∷ text) = starts_with part (c ∷ text) || occurs part text

-- `text in {...}`, `text.endswith((...))`, `text.startswith((...))`
abbrev pub one_of : List String → List ℕ → Bool
one_of names text = any (λ name. same_bytes (codes name) text) names

abbrev pub ends_with_any : List String → List ℕ → Bool
ends_with_any suffixes text = any (λ suffix. ends_with (codes suffix) text) suffixes

abbrev pub starts_with_any : List String → List ℕ → Bool
starts_with_any prefixes text = any (λ prefix. prefixed prefix text) prefixes

-- `text.removeprefix("./")`
unfoldable pub remove_dot : List ℕ → List ℕ
remove_dot text = if prefixed "./" text then drop 2 text else text

-- `text.split("/")`: the parts; the first is `current` and what is in front of the next slash.
abbrev pub split_loop : List ℕ → List ℕ → List (List ℕ)
split_loop current [] = current ∷ []
split_loop current (c ∷ text) =
    let at_slash = c == b'/' in
    let rest = split_loop (if at_slash then [] else current ++ c ∷ []) text in
    if at_slash then current ∷ rest else rest

abbrev pub split : List ℕ → List (List ℕ)
split text = split_loop [] text

-- `text.rsplit("/", 1)[-1]`
abbrev pub last_part : List (List ℕ) → List ℕ
last_part [] = []
last_part (part ∷ []) = part
last_part (part ∷ next ∷ parts) = last_part (next ∷ parts)

abbrev pub base_name : List ℕ → List ℕ
base_name text = last_part (split text)

-- `tuple(part for part in parts if part)`, `parts[:-1]`
abbrev pub not_empty : List (List ℕ) → List (List ℕ)
not_empty [] = []
not_empty (part ∷ parts) = if is_empty part then not_empty parts else part ∷ not_empty parts

abbrev pub all_but_last : List (List ℕ) → List (List ℕ)
all_but_last [] = []
all_but_last (part ∷ []) = []
all_but_last (part ∷ next ∷ parts) = part ∷ all_but_last (next ∷ parts)

abbrev pub build_names : List String
build_names =
    "dockerfile" ∷ "cargo.toml" ∷ "cargo.lock" ∷ "build.rs" ∷ "package.json" ∷ "package-lock.json"
    ∷ "pnpm-lock.yaml" ∷ "yarn.lock" ∷ "bun.lock" ∷ "bun.lockb" ∷ "deno.json" ∷ "deno.lock"
    ∷ "pyproject.toml" ∷ "poetry.lock" ∷ "uv.lock" ∷ "requirements.txt" ∷ "pipfile" ∷ "pipfile.lock"
    ∷ "go.mod" ∷ "go.sum" ∷ "makefile" ∷ "cmakelists.txt" ∷ "build.gradle" ∷ "build.gradle.kts"
    ∷ "pom.xml" ∷ "gemfile" ∷ "gemfile.lock" ∷ "composer.json" ∷ "composer.lock" ∷ "mix.exs"
    ∷ "mix.lock" ∷ []

abbrev pub source_names : List String
source_names =
    "cargo.toml" ∷ "build.rs" ∷ "package.json" ∷ "deno.json" ∷ "pyproject.toml" ∷ "pipfile"
    ∷ "go.mod" ∷ "makefile" ∷ "cmakelists.txt" ∷ "build.gradle" ∷ "build.gradle.kts" ∷ "pom.xml"
    ∷ "gemfile" ∷ "composer.json" ∷ "mix.exs" ∷ []

abbrev pub source_suffixes : List String
source_suffixes =
    ".rs" ∷ ".py" ∷ ".pyx" ∷ ".go" ∷ ".js" ∷ ".jsx" ∷ ".mjs" ∷ ".cjs" ∷ ".ts" ∷ ".tsx" ∷ ".mts"
    ∷ ".cts" ∷ ".c" ∷ ".cc" ∷ ".cpp" ∷ ".cxx" ∷ ".h" ∷ ".hpp" ∷ ".java" ∷ ".kt" ∷ ".kts" ∷ ".cs"
    ∷ ".rb" ∷ ".php" ∷ ".swift" ∷ ".scala" ∷ ".ex" ∷ ".exs" ∷ ".erl" ∷ ".hrl" ∷ ".fs" ∷ ".fsx"
    ∷ ".lua" ∷ ".dart" ∷ ".zig" ∷ ".sh" ∷ ".bash" ∷ ".zsh" ∷ []

abbrev pub other_directories : List String
other_directories = "tests" ∷ "test" ∷ "docs" ∷ "examples" ∷ "benches" ∷ ".github" ∷ []

abbrev pub notes : List String
notes = "readme" ∷ "readme.md" ∷ "security.md" ∷ "license" ∷ []

module _ (casefold : List ℕ → List ℕ) where
  -- `_is_build_file`
  unfoldable pub is_build_file : List ℕ → Bool
  is_build_file path =
      let normalized = casefold path in
      let name = base_name normalized in
      one_of build_names name
      || ends_with_any (".sh" ∷ ".bash" ∷ ".zsh" ∷ []) name
      || prefixed ".github/workflows/" normalized

  -- `_is_non_runtime_path`
  unfoldable pub is_non_runtime_path : List ℕ → Bool
  is_non_runtime_path path =
      let normalized = remove_dot (casefold path) in
      if prefixed "src/" normalized || occurs (codes "/src/") normalized
      then false
      else any (one_of other_directories) (all_but_last (not_empty (split normalized)))
        || one_of notes (base_name normalized)

  -- `_is_executable_source_path`
  unfoldable pub is_executable_source_path : List ℕ → Bool
  is_executable_source_path path =
      let normalized = remove_dot (casefold path) in
      let name = base_name normalized in
      if is_non_runtime_path normalized
      then false
      else prefixed "src/" normalized
        || prefixed "dockerfile" name
        || one_of source_names name
        || ends_with_any source_suffixes name

  -- `_path_priority`
  unfoldable pub path_priority : List ℕ → ℕ × List ℕ
  path_priority path =
      let normalized = remove_dot (casefold path) in
      if prefixed "src/" normalized
      then (0, normalized)
      else if is_build_file normalized
      then (1, normalized)
      else if starts_with_any ("tests/" ∷ "test/" ∷ "docs/" ∷ "examples/" ∷ "benches/" ∷ [])
          normalized
      then (3, normalized)
      else (2, normalized)
