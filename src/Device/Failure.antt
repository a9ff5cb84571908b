-- ===== src/Device/Failure.antt =====
-- Go error values of internal/fastiron: what `errors.Is` and `errors.Join` see of them. A number
-- stands for the identity of an error value; an error that wraps or joins others is a new value.
use fastiron_tofu.Prelude.{ℕ, Bool, false, ◌||◌, ◌&&◌, Option, none, some, String, Error, ◌==◌}

pub data Failure : Type 0 where
  plain : ℕ → String → Failure
  -- restconf.HTTPError: its identity, its status and whether it reports an absent object.
  http : ℕ → ℕ → Bool → Failure
  native : Error → Failure
  joined : Failure → Failure → Failure
  joined_one : Failure → Failure

-- The identity of restconf.ErrNotFound.
abbrev pub rest_not_found : Failure
rest_not_found = plain 0 "RESTCONF object not found"

-- The same error value.
abbrev pub same_failure : Failure → Failure → Bool
same_failure (plain i s) (plain j t) = i == j
same_failure (http i a b) (http j c d) = i == j
same_failure _ _ = false

-- `HTTPError.Is`
abbrev pub http_is : ℕ → Bool → Failure → Bool
http_is status missing (plain i s) = i == 0 && (status == 404 || missing)
http_is status missing _ = false

-- `errors.Is`
unfoldable pub is : Failure → Failure → Bool
is (plain i s) target = same_failure (plain i s) target
is (http i status missing) target =
    same_failure (http i status missing) target || http_is status missing target
is (native e) target = false
is (joined a b) target = is a target || is b target
is (joined_one a) target = is a target

-- `errors.Join(first, second)`
abbrev pub join : Failure → Option Failure → Failure
join first none = joined_one first
join first (some second) = joined first second

-- `errors.Is` on an error that may be nil.
abbrev pub is_opt : Option Failure → Failure → Bool
is_opt none target = false
is_opt (some e) target = is e target
