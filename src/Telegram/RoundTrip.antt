-- ===== src/Telegram/RoundTrip.antt =====
-- What is typed as a command is read as it
-- (src/adapter/outbound/notifier/telegram/command.rs and src/port/inbound/runtime.rs).
use edgelord.Common.{
  ◌≡◌, ◌∙◌, ap, refl, false, [], ◌∷◌, ◌++◌, Option, some, ok, lookup, is_empty, All, arith,
}
use edgelord.State.{
  RiskLimitKind, max_position_per_market, max_total_exposure, min_profit_threshold, max_slippage,
  as_str,
}
use edgelord.Telegram.Text.{
  Text, codes, is_whitespace, split_whitespace, words_from, words_from_solid, before_at, text_eq,
}
use edgelord.Telegram.Command.{
  set_risk, parse_command, parse_words, parse_set_risk, parse_risk_limit_kind,
}

-- The command that sets a limit, as the help describes it.
unfoldable pub set_risk_command : RiskLimitKind → Text → Text
set_risk_command kind value = codes "/set_risk " ++ (codes (as_str kind) ++ (codes " " ++ value))

words-set_risk_command :
    (kind : RiskLimitKind) (value : Text)
    → split_whitespace (set_risk_command kind value)
      ≡ codes "/set_risk" ∷ codes (as_str kind) ∷ split_whitespace value
unfolding set_risk_command words_from is_whitespace as_str
words-set_risk_command max_position_per_market value = refl
words-set_risk_command max_total_exposure value = refl
words-set_risk_command min_profit_threshold value = refl
words-set_risk_command max_slippage value = refl

as_str-parse_risk_limit_kind :
    (kind : RiskLimitKind) → parse_risk_limit_kind (codes (as_str kind)) ≡ ok kind
unfolding parse_risk_limit_kind as_str lookup
as_str-parse_risk_limit_kind max_position_per_market = refl
as_str-parse_risk_limit_kind max_total_exposure = refl
as_str-parse_risk_limit_kind min_profit_threshold = refl
as_str-parse_risk_limit_kind max_slippage = refl

-- Each limit can be set under the name that the reply gives it: the command with that name and a
-- decimal, written without white space, is read as the setting of that limit to that value.
pub parse_command-set_risk_command :
    {D : Type 0} (from_str : Text → Option D) (kind : RiskLimitKind) (value : Text) {v : D}
    → from_str value ≡ some v
    → is_empty value ≡ false
    → All (λ c. is_whitespace c ≡ false) value
    → parse_command from_str (set_risk_command kind value) ≡ ok (set_risk kind v)
unfolding parse_command parse_words parse_set_risk before_at lookup
parse_command-set_risk_command from_str kind value h full solid =
    ap (parse_words from_str) (words-set_risk_command kind value)
    ∙ ap (λ ws. parse_words from_str (codes "/set_risk" ∷ codes (as_str kind) ∷ ws))
        (words_from_solid [] value full solid)
    ∙ ground (arith, h, as_str-parse_risk_limit_kind kind)
