-- ===== src/GoError.antt =====
-- Go's `error` values, as the library makes, joins, wraps and inspects them. A `nil` error is
-- `none`. The text of an error is kept as the call that makes it.
use wadjit.Prelude.{ℕ, String, Bool, true, false, ◌||◌, Option, none, some, ◌≡◌, arith}

pub data GoError : Type 0 where
  -- `errors.New`, at a call whose value nobody compares with
  message : String → GoError
  -- the package's own sentinels
  invalid_dns_policy no_ttl_answer : GoError
  -- sentinels of the standard library
  eof canceled deadline_exceeded : GoError
  -- an error of the outside: its kind is a number that `errors.Is` does not match above
  external : ℕ → GoError
  -- `errors.Join` of one and of two errors that are not nil
  joined_one : GoError → GoError
  joined : GoError → GoError → GoError
  -- `fmt.Errorf` with `%w`, and with another verb, which does not wrap
  wrapped : String → GoError → GoError
  formatted : String → GoError → GoError

-- `errors.Join(a, b)`
unfoldable pub join : Option GoError → Option GoError → Option GoError
join none none = none
join (some a) none = some (joined_one a)
join none (some b) = some (joined_one b)
join (some a) (some b) = some (joined a b)

pub data Sentinel : Type 0 where
  invalid_dns_policy_sentinel no_ttl_answer_sentinel : Sentinel
  eof_sentinel canceled_sentinel deadline_exceeded_sentinel : Sentinel

-- `errors.Is(err, target)`: the error or one that it wraps is the target.
unfoldable pub is : GoError → Sentinel → Bool
is invalid_dns_policy invalid_dns_policy_sentinel = true
is no_ttl_answer no_ttl_answer_sentinel = true
is eof eof_sentinel = true
is canceled canceled_sentinel = true
is deadline_exceeded deadline_exceeded_sentinel = true
is (joined_one e) target = is e target
is (joined a b) target = is a target || is b target
is (wrapped _ e) target = is e target
is _ target = false

-- `errors.Is` of an error that may be nil
unfoldable pub is? : Option GoError → Sentinel → Bool
unfolding is
is? none target = false
is? (some e) target = is e target

-- A join is the target when one of its parts is.
pub is?-join :
    (a b : Option GoError) (target : Sentinel)
    → is? (join a b) target ≡ (is? a target || is? b target)
unfolding is? join
is?-join a b target = ground arith
