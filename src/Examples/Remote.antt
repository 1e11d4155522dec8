-- ===== src/Examples/Remote.antt =====
-- A text that sets a limit.
use edgelord.Common.{ℕ, ◌≡◌, ◌⊎◌, refl, false, Option, some, none, ok, if◌then◌else◌, ◌==◌, All}
use edgelord.Common.Int.{ℤ, pos}
use edgelord.Money.Cents.{cents}
use edgelord.Examples.Data.{idle}
use edgelord.State.{max_slippage}
use edgelord.State.Limits.{AreValid}
use edgelord.Telegram.Text.{Text, codes, text_eq, is_whitespace}
use edgelord.Telegram.Command.{set_risk, parse_command}
use edgelord.Telegram.RoundTrip.{set_risk_command, parse_command-set_risk_command}
use edgelord.Telegram.Dispatch.{TelegramControl, command_response_for_message}
use edgelord.Telegram.Authority.{SameBooks, command_response_authority}

-- A reader of the one decimal "1", a whole unit.
abbrev from_str : Text → Option ℤ
from_str t = if t == codes "1" then some (pos 100) else none

abbrev control : TelegramControl ℤ ℕ ℕ
control = record { today = none; runtime_stats = none; position_display_limit = 10 }

one_solid : All (λ c. is_whitespace c ≡ false) (codes "1")
unfolding is_whitespace
one_solid = (refl, tt)

parse_command-set_risk_command_example :
    parse_command from_str (set_risk_command max_slippage (codes "1"))
    ≡ ok (set_risk max_slippage (pos 100))
parse_command-set_risk_command_example =
    parse_command-set_risk_command from_str max_slippage (codes "1") refl refl one_solid

idle-AreValid : AreValid idle.risk_limits
idle-AreValid = record {
  position_pos = refl;
  exposure_pos = refl;
  profit_nonneg = refl;
  slippage_nonneg = refl;
  slippage-le-one = refl;
}

command_response_authority_example :
    SameBooks control idle
      (command_response_for_message control from_str (codes "/pause") 7 8 idle).1
    × AreValid
        (command_response_for_message control from_str (codes "/pause") 7 8 idle).1.risk_limits
    × (((command_response_for_message control from_str (codes "/pause") 7 8 idle).1 ≡ idle)
        ⊎ (◌≡◌ {A = ℕ} 7 8))
command_response_authority_example =
    command_response_authority control from_str (codes "/pause") 7 8 idle idle-AreValid
