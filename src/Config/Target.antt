-- ===== src/Config/Target.antt =====
-- config.py: validation of one path target, its syntax alone and then against the repository.
pub mod Laws
use pyrepo_check.Base.{
  String, ◌<>◌, code, Bool, true, false, ◌&&◌, ◌||◌, Option, none, some, List, [], ◌∷◌, ◌==◌,
  nat_eq, string_eq, contains, Outcome, returned, raised, ◌>>=◌, ◌>>◌, refuse, if◌then◌else◌,
}
use pyrepo_check.Base.Text.{lstrip, is_blank, has_code, starts_with_code, is_absolute, parts}

-- One constructor for each `raise ValueError`.
pub data TargetError : Type 0 where
  empty nul option_like absolute climbing missing outside uninspectable : TargetError

-- `target.split("::", 1)[0]`
unfoldable pub path_part : String → String
path_part String.[] = ""
path_part (String.◌∷◌ c s) =
    let rest = String.◌∷◌ c (path_part s) in
    if code c == b':' && starts_with_code b':' s then "" else rest

-- `"::" + target.split("::", 1)[1]` if the separator is there, and nothing if not.
unfoldable pub selector_part : String → String
selector_part String.[] = ""
selector_part (String.◌∷◌ c s) =
    let rest = selector_part s in
    if code c == b':' && starts_with_code b':' s then String.◌∷◌ c s else rest

unfoldable pub validate_project_target_syntax : String → Outcome TargetError String
validate_project_target_syntax target = do
  refuse (is_blank target || path_part target == "") empty
  refuse (has_code 0 target) nul
  refuse (starts_with_code b'-' (lstrip target)) option_like
  refuse (is_absolute (path_part target)) absolute
  refuse (contains (parts (path_part target)) "..") climbing
  returned (path_part target)

-- What resolving `root / path` strictly, and relating the result to the root, comes to.
pub data Inspection : Type 0 where
  beneath not_found elsewhere failed : Inspection

-- What `lstat` of `root / path` comes to.
pub data Status : Type 0 where
  found absent unreadable : Status

-- The repository's file system, seen from its root.
pub record FileTree : Type 0 where
  pub resolve : String → Inspection
  pub lstat : String → Status

abbrev pub inspected : Inspection → Outcome TargetError Unit
inspected beneath = returned tt
inspected not_found = raised missing
inspected elsewhere = raised outside
inspected failed = raised uninspectable

module _ (tree : FileTree) where
  unfoldable pub validate_project_target : String → Outcome TargetError String
  validate_project_target target = do
    path ← validate_project_target_syntax target
    inspected (tree.resolve path)
    returned (path <> selector_part target)

  -- `_target_exists`
  unfoldable pub target_exists : String → Bool
  target_exists target = elim (validate_project_target target) [
    | returned path ↦ true
    | raised error ↦ false
  ]

  -- The result is a set: only membership is used.
  unfoldable pub collect_existing_positionals : List String → List String
  unfolding target_exists
  collect_existing_positionals [] = []
  collect_existing_positionals (token ∷ tokens) =
      let rest = collect_existing_positionals tokens in
      if target_exists token then token ∷ rest else rest
