-- ===== src/Wadjit/Options.antt =====
-- The functional options of `New`, and `applyOptions` (wadjit.go).
use wadjit.Prelude.{
  Bool, true, false, Option, none, some, List, [], ◌∷◌, ◌++◌, if◌then◌else◌, ℤ, pos, ltb_ℤ,
}
use wadjit.Dns.Policy.{DnsPolicy}

abbrev pub default_response_chan_buffer_size : ℤ
default_response_chan_buffer_size = pos 512

-- The options of the task manager are a type `O`, those of loggers a type `L`.
pub record Options (O L : Type 0) : Type 0 where
  pub buffer_size : ℤ
  pub default_dns_policy : DnsPolicy
  pub has_default_dns_policy : Bool
  pub logger : Option L
  pub logger_set : Bool
  pub taskman_options : List O

pub data WadjitOption (O L : Type 0) : Type 0 where
  with_buffer_size : ℤ → WadjitOption O L
  with_default_dns_policy : DnsPolicy → WadjitOption O L
  -- the logger, and the option that makes it the task manager's, its level clamped
  with_logger : L → O → WadjitOption O L
  -- nil options are `none`
  with_taskman_options : List (Option O) → WadjitOption O L

unfoldable pub filtered : {O : Type 0} → List (Option O) → List O
filtered [] = []
filtered (none ∷ l) = filtered l
filtered (some o ∷ l) = o ∷ filtered l

module _ {O L : Type 0} where
  unfoldable pub apply : WadjitOption O L → Options O L → Options O L
  unfolding filtered
  apply (with_buffer_size size) o =
      if ltb_ℤ size (pos 0) then o else record o { buffer_size = size }
  apply (with_default_dns_policy policy) o = record o {
    default_dns_policy = policy;
    has_default_dns_policy = true;
  }
  apply (with_logger logger as_option) o = record o {
    logger = some logger;
    logger_set = true;
    taskman_options = o.taskman_options ++ as_option ∷ [];
  }
  apply (with_taskman_options opts) o = record o {
    taskman_options = o.taskman_options ++ filtered opts;
  }

  -- A nil option is ignored.
  unfoldable pub apply_each : List (Option (WadjitOption O L)) → Options O L → Options O L
  unfolding apply
  apply_each [] o = o
  apply_each (none ∷ l) o = apply_each l o
  apply_each (some opt ∷ l) o = apply_each l (apply opt o)

  -- `nop` is `zerolog.Nop()`.
  sane : L → Options O L → Options O L
  sane nop o =
      let sized : Options O L =
        if ltb_ℤ o.buffer_size (pos 0)
        then record o { buffer_size = default_response_chan_buffer_size }
        else o in
      if o.logger_set then sized else record sized { logger = some nop }

  -- `zero_policy` is the zero value of a policy.
  unfoldable pub apply_options : L → DnsPolicy → List (Option (WadjitOption O L)) → Options O L
  unfolding apply_each sane
  apply_options nop zero_policy opts = sane nop (
      apply_each opts (record {
        buffer_size = default_response_chan_buffer_size;
        default_dns_policy = zero_policy;
        has_default_dns_policy = false;
        logger = none;
        logger_set = false;
        taskman_options = [];
      }))
