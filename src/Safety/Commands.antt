-- ===== src/Safety/Commands.antt =====
-- src/safety.rs: what a command is taken to be (`classify_command`), and whether it uses the
-- network. A text is the list of its code points.
use dtcoder_test.Prelude.{
  ℕ, ◌≡◌, refl, Bool, false, ◌&&◌, ◌||◌, String, List, [], ◌∷◌, ◌++◌, if◌then◌else◌,
}
use dtcoder_test.Prelude.Text.{codes, is_whitespace}
use dtcoder_test.Safety.Words.{
  text_eq, is_one_of, to_ascii_lowercase, starts_with, contains, remove, split_at, split_whitespace,
  join_words, trim_matches, base_name, is_any,
}

pub data CommandDecision : Type 0 where
  allowed : CommandDecision
  needs_approval blocked : String → CommandDecision

abbrev pub is_core_edge : ℕ → Bool
is_core_edge c = is_any c (codes "'\"`$(){};")

abbrev pub shell_token_core : List ℕ → List ℕ
shell_token_core token = trim_matches is_core_edge token

abbrev pub separates_programs : ℕ → Bool
separates_programs c = is_whitespace c || is_any c (codes ";|&()")

-- `base == *program || base.starts_with(&format!("{program}."))`
abbrev pub is_program : List ℕ → List String → Bool
is_program base [] = false
is_program base (p ∷ ps) =
    text_eq base (codes p) || starts_with (codes p ++ codes ".") base || is_program base ps

abbrev pub any_program : List (List ℕ) → List String → Bool
any_program [] programs = false
any_program (token ∷ tokens) programs =
    is_program (base_name [] (shell_token_core token)) programs || any_program tokens programs

unfoldable pub contains_program : List ℕ → List String → Bool
contains_program command programs = any_program (split_at separates_programs [] command) programs

-- `token.starts_with('-') && token.contains(flag)`
abbrev pub any_flag : String → List (List ℕ) → Bool
any_flag flag [] = false
any_flag flag (token ∷ tokens) =
    (starts_with (codes "-") token && contains (codes flag) token) || any_flag flag tokens

abbrev pub is_raw_edge : ℕ → Bool
is_raw_edge c = is_any c (codes "'\"`();")

abbrev pub any_catastrophic_target : List (List ℕ) → Bool
any_catastrophic_target [] = false
any_catastrophic_target (token ∷ tokens) =
    is_one_of (shell_token_core token) ("/" ∷ "/*" ∷ "~" ∷ "~/" ∷ [])
    || is_one_of (trim_matches is_raw_edge token) ("$home" ∷ "${home}" ∷ [])
    || any_catastrophic_target tokens

unfoldable pub is_catastrophic_rm : List ℕ → Bool
is_catastrophic_rm command =
    let tokens = split_whitespace command in
    contains_program command ("rm" ∷ [])
    && any_flag "r" tokens
    && any_flag "f" tokens
    && any_catastrophic_target tokens

abbrev pub any_root : List (List ℕ) → Bool
any_root [] = false
any_root (token ∷ tokens) = is_one_of (shell_token_core token) ("/" ∷ "/*" ∷ []) || any_root tokens

unfoldable pub targets_root : List ℕ → Bool
targets_root command = any_root (split_whitespace command)

abbrev pub has : String → List ℕ → Bool
has pattern text = contains (codes pattern) text

-- The tests of `classify_command`, one after the other.
abbrev pub classify_normalized : List ℕ → List ℕ → CommandDecision
classify_normalized normalized compact =
    if has ":(){:|:&};:" compact
    then blocked "fork 炸弹"
    else if contains_program normalized ("mkfs" ∷ "wipefs" ∷ [])
    then blocked "文件系统擦除/格式化"
    else if contains_program normalized ("fdisk" ∷ "sfdisk" ∷ "parted" ∷ [])
        && has "/dev/" normalized
    then blocked "直接修改磁盘分区"
    else if contains_program normalized ("dd" ∷ []) && has "of=/dev/" compact
    then blocked "向块设备直接写入"
    else if has ">/dev/sd" compact || has ">/dev/nvme" compact || has ">/dev/mmcblk" compact
    then blocked "重定向覆盖块设备"
    else if is_catastrophic_rm normalized
    then blocked "递归强制删除系统或主目录"
    else if contains_program normalized ("chmod" ∷ [])
        && has "-r" normalized
        && has " 000 " normalized
        && targets_root normalized
    then blocked "递归移除根目录权限"
    else if contains_program normalized ("chown" ∷ [])
        && has "-r" normalized
        && targets_root normalized
    then blocked "递归修改根目录所有权"
    else if contains_program normalized ("mv" ∷ []) && has " /dev/null" normalized
    then blocked "将文件移动到 /dev/null"
    else if contains_program normalized ("find" ∷ [])
        && targets_root normalized
        && has "-delete" normalized
    then blocked "从根目录递归删除"
    else if contains_program normalized ("kill" ∷ "pkill" ∷ "killall" ∷ [])
        || contains_program normalized ("sudo" ∷ "su" ∷ [])
        || contains_program normalized ("shutdown" ∷ "reboot" ∷ "poweroff" ∷ "halt" ∷ [])
        || has "git reset --hard" normalized
        || has "git clean -fd" normalized
        || has "cargo publish" normalized
        || (has "curl " normalized && has "| sh" normalized)
        || (has "wget " normalized && has "| sh" normalized)
    then needs_approval "可能影响进程、系统或难以恢复的状态"
    else allowed

abbrev pub normalize_command : List ℕ → List ℕ
normalize_command command = to_ascii_lowercase (join_words (split_whitespace command))

unfoldable pub classify_command : List ℕ → CommandDecision
classify_command command =
    let normalized = normalize_command command in
    classify_normalized normalized (remove is_whitespace normalized)

unfoldable pub command_uses_network : List ℕ → Bool
command_uses_network command =
    let normalized = to_ascii_lowercase command in
    has "http://" normalized
    || has "https://" normalized
    || contains_program normalized
        ("curl" ∷ "wget" ∷ "ssh" ∷ "scp" ∷ "rsync" ∷ "nc" ∷ "netcat" ∷ [])

abbrev pub is_command_key : List ℕ → Bool
is_command_key key = is_one_of (to_ascii_lowercase key) ("command" ∷ "cmd" ∷ "shell" ∷ [])

rm_root : classify_command (codes "sudo  RM -r \t -f '/'") ≡ blocked "递归强制删除系统或主目录"
unfolding classify_command contains_program is_catastrophic_rm contains split_at targets_root
rm_root = refl

kill_asks : classify_command (codes "kill -9 4") ≡ needs_approval "可能影响进程、系统或难以恢复的状态"
unfolding classify_command contains_program is_catastrophic_rm contains split_at targets_root
kill_asks = refl
