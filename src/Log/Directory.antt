-- ===== src/Log/Directory.antt =====
-- Where the log file is, next to the running program.
use fastvid.Common.{
  ℕ, ◌≤◌, ◌≡◌, refl, sym, ap, ◌∙◌, Bool-cases, inl, inr, false, none, some, [], ◌∷◌, ◌++◌, arith,
  length, if◌then◌else◌, ◌&&◌, take-append, drop-append_add, length-append, append_assoc,
}
use fastvid.Text.{Text, codes, to_string_int}
use fastvid.Log.{System, initial_state, ensure_log_file_initialized, current_log_file_path}
use fastvid.Log.Paths.{
  is_empty, equal_text, find_last_of, parent_directory, base_name, executable_base_name,
  resolve_log_directory,
}
use fastvid.Log.Search.{Lacks}

find_last_of-none : (c : ℕ) (xs : Text) → Lacks c xs → find_last_of c xs ≡ none
unfolding find_last_of
find_last_of-none c [] h = refl
find_last_of-none c (x ∷ xs) (n, h) = ground (arith, find_last_of-none c xs h)

find_last_of-some :
    (c : ℕ) (before after : Text)
    → Lacks c after
    → find_last_of c (before ++ c ∷ after) ≡ some (length before)
unfolding find_last_of
find_last_of-some c [] after h = ground (arith, find_last_of-none c after h)
find_last_of-some c (x ∷ before) after h = ground (arith, find_last_of-some c before after h)

parent_directory-slash :
    (before after : Text)
    → 1 ≤ length before
    → Lacks b'/' after
    → parent_directory (before ++ b'/' ∷ after) ≡ before
unfolding parent_directory
parent_directory-slash before after h lacks =
    ground (arith, find_last_of-some b'/' before after lacks, take-append before (b'/' ∷ after))

base_name-slash :
    (before after : Text) → Lacks b'/' after → base_name (before ++ b'/' ∷ after) ≡ after
unfolding base_name
base_name-slash before [] lacks =
    ground (arith, find_last_of-some b'/' before [] lacks, length-append before (b'/' ∷ []))
base_name-slash before (x ∷ after) lacks = ground (
  arith,
  find_last_of-some b'/' before (x ∷ after) lacks,
  drop-append_add before (b'/' ∷ x ∷ after) 1,
  length-append before (b'/' ∷ x ∷ after),
)

is_empty-append : (xs : Text) (c : ℕ) (ys : Text) → is_empty (xs ++ c ∷ ys) ≡ false
is_empty-append [] c ys = refl
is_empty-append (x ∷ xs) c ys = refl

is_empty-false : (xs : Text) → 1 ≤ length xs → is_empty xs ≡ false
is_empty-false [] h = absurd (omega arith)
is_empty-false (x ∷ xs) h = refl

executable_base_name-slash :
    (before after : Text)
    → 1 ≤ length after
    → Lacks b'/' after
    → executable_base_name (some (before ++ b'/' ∷ after)) ≡ after
unfolding executable_base_name
executable_base_name-slash before [] h lacks = absurd (omega arith)
executable_base_name-slash before (x ∷ after) h lacks = ground (
  arith,
  is_empty-append before b'/' (x ∷ after),
  find_last_of-some b'/' before (x ∷ after) lacks,
  drop-append_add before (b'/' ∷ x ∷ after) 1,
  length-append before (b'/' ∷ x ∷ after),
)

-- Where a program's log goes: to the directory logs of `root` if the program's directory is build.
abbrev pub directory_for : Text → Text → Text
directory_for root dir =
    if equal_text dir (codes "build") then root ++ codes "/logs" else codes "logs"

-- The file of the program `name` in a directory, with the time stamp and the process of `sys`.
abbrev pub file_for : System → Text → Text → Text
file_for sys directory name =
    directory
    ++ (codes "/"
        ++ (name
            ++ (codes "_"
                ++ (sys.clock_compact ++ (codes "_" ++ (to_string_int sys.pid ++ codes ".log"))))))

resolve-base_name :
    (root dir name : Text)
    → 1 ≤ length root
    → 1 ≤ length name
    → Lacks b'/' dir
    → Lacks b'/' name
    → let link = some (root ++ b'/' ∷ (dir ++ b'/' ∷ name)) in
      (resolve_log_directory link ≡ directory_for root dir) × (executable_base_name link ≡ name)
unfolding resolve_log_directory
resolve-base_name root dir name hr hn ld ln =
    let program = root ++ b'/' ∷ dir in
    let whole : root ++ b'/' ∷ (dir ++ b'/' ∷ name) ≡ program ++ b'/' ∷ name =
      sym (append_assoc root (b'/' ∷ dir) (b'/' ∷ name)) in
    let inner : 1 ≤ length program = omega (arith, length-append root (b'/' ∷ dir)) in
    rw whole (
      ground (
        arith,
        parent_directory-slash program name inner ln,
        parent_directory-slash root dir hr ld,
        base_name-slash root dir ld,
        is_empty-append program b'/' name,
        is_empty-append root b'/' dir,
        is_empty-false root hr,
      ),
      executable_base_name-slash program name hn ln,
    )

is_empty-directory_for : (root dir : Text) → is_empty (directory_for root dir) ≡ false
is_empty-directory_for root dir = elim (Bool-cases (equal_text dir (codes "build"))) [
  | inl build ↦ rw build (is_empty-append root b'/' (codes "logs"))
  | inr other ↦ rw other refl
]

first_path :
    (sys : System)
    → let directory = resolve_log_directory sys.executable in
      let path = file_for sys directory (executable_base_name sys.executable) in
      (current_log_file_path sys initial_state).1 ≡ (
        if (if is_empty directory then false else sys.has_directory directory) && sys.can_open path
        then path
        else [])
unfolding current_log_file_path ensure_log_file_initialized
first_path sys = ground arith

opened_path :
    (sys : System) (directory name : Text)
    → resolve_log_directory sys.executable ≡ directory
    → executable_base_name sys.executable ≡ name
    → is_empty directory ≡ false
    → let path = file_for sys directory name in
      (current_log_file_path sys initial_state).1
      ≡ (if sys.has_directory directory && sys.can_open path then path else [])
opened_path sys directory name resolved base some_name =
    first_path sys ∙ rw (resolved, base, some_name) refl

-- A program `name` in the directory `dir` of `root`, with `root` and `name` not empty, of which
-- `dir` and `name` hold no slash, at the first use of its logger: its log goes to the directory logs
-- of `root` if `dir` is build, and to logs in the working directory otherwise, and the path that
-- `CurrentLogFilePath` returns is that of the file in this directory that is named after `name`, the
-- time and the process; or it is empty if the directory is not there or the file does not open.
pub current_log_file_path-initial_state :
    (sys : System) (root dir name : Text)
    → sys.executable ≡ some (root ++ b'/' ∷ (dir ++ b'/' ∷ name))
    → 1 ≤ length root
    → 1 ≤ length name
    → Lacks b'/' dir
    → Lacks b'/' name
    → let directory = directory_for root dir in
      let path = file_for sys directory name in
      (current_log_file_path sys initial_state).1
      ≡ (if sys.has_directory directory && sys.can_open path then path else [])
current_log_file_path-initial_state sys root dir name e hr hn ld ln =
    let (directory, base) = resolve-base_name root dir name hr hn ld ln in
    opened_path sys (directory_for root dir) name (ap resolve_log_directory e ∙ directory)
      (ap executable_base_name e ∙ base) (is_empty-directory_for root dir)
