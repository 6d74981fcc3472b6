-- ===== src/Log/Paths.antt =====
-- The functions on paths in sclient/src/common/log/Logger.cpp.
use fastvid.Common.{
  ℕ, suc, ◌+◌, Bool, true, false, Option, none, some, [], ◌∷◌, ◌++◌, length, take, drop, leb, ◌==◌,
  if◌then◌else◌,
}
use fastvid.Text.{Text, codes}

-- `std::string::empty` and `==`
abbrev pub is_empty : Text → Bool
is_empty [] = true
is_empty (c ∷ cs) = false

abbrev pub equal_text : Text → Text → Bool
equal_text [] [] = true
equal_text [] (y ∷ ys) = false
equal_text (x ∷ xs) [] = false
equal_text (x ∷ xs) (y ∷ ys) = if x == y then equal_text xs ys else false

-- `find_last_of` of one character; `none` is npos.
unfoldable pub find_last_of : ℕ → Text → Option ℕ
find_last_of c [] = none
find_last_of c (x ∷ xs) = elim (find_last_of c xs) [
  | some i ↦ some (suc i)
  | none ↦ if x == c then some 0 else none
]

-- `ParentDirectory`
unfoldable pub parent_directory : Text → Text
parent_directory path = elim (find_last_of b'/' path) [
  | none ↦ []
  | some separator ↦ if separator == 0 then codes "/" else take separator path
]

-- `BaseName`
unfoldable pub base_name : Text → Text
base_name path = elim (find_last_of b'/' path) [
  | none ↦ path
  | some separator ↦ if leb (length path) (separator + 1) then [] else drop (separator + 1) path
]

-- `ExecutableBaseName`, of what readlink yields for the running program; `none` is its failure.
unfoldable pub executable_base_name : Option Text → Text
executable_base_name none = codes "stream_server"
executable_base_name (some full_path) =
    if is_empty full_path then codes "stream_server" else elim (find_last_of b'/' full_path) [
      | none ↦ full_path
      | some separator ↦
          if leb (length full_path) (separator + 1)
          then full_path
          else drop (separator + 1) full_path
    ]

-- `ExecutablePath`
abbrev pub executable_path : Option Text → Text
executable_path none = []
executable_path (some path) = path

-- `ResolveLogDirectory`
unfoldable pub resolve_log_directory : Option Text → Text
resolve_log_directory link =
    let executable_dir = parent_directory (executable_path link) in
    let project_root_dir = parent_directory executable_dir in
    if is_empty (executable_path link)
    then codes "logs"
    else (if is_empty executable_dir
        then codes "logs"
        else (if equal_text (base_name executable_dir) (codes "build")
            then (if is_empty project_root_dir
                then codes "logs"
                else project_root_dir ++ codes "/logs")
            else codes "logs"))

-- `LogDirectoryPath`, which nothing calls, of what getcwd yields.
pub log_directory_path : Option Text → Text
log_directory_path none = codes "logs"
log_directory_path (some cwd) = cwd ++ codes "/logs"
