-- ===== src/Telegram/Command.antt =====
-- src/adapter/outbound/notifier/telegram/command.rs: the parser of the commands. Reading a decimal is
-- rust_decimal's.
use edgelord.Common.{
  List, [], ◌∷◌, Option, none, some, Bool, false, Result, ok, err, ◌==◌, lookup, nat_beq,
  if◌then◌else◌, String,
}
use edgelord.State.{
  RiskLimitKind, max_position_per_market, max_total_exposure, min_profit_threshold, max_slippage,
}
use edgelord.Telegram.Text.{Text, codes, text_eq, split_whitespace, before_at}

pub data TelegramCommand (D : Type 0) : Type 0 where
  start help status health positions stats pool markets version pause resume : TelegramCommand D
  set_risk : (kind : RiskLimitKind) (value : D) → TelegramCommand D

pub data CommandParseError : Type 0 where
  not_a_command : CommandParseError
  unknown_command : Text → CommandParseError
  missing_argument : String → CommandParseError
  invalid_risk_field : Text → CommandParseError
  invalid_decimal : Text → CommandParseError

abbrev risk_fields : List (Text × RiskLimitKind)
risk_fields =
    (codes "min_profit", min_profit_threshold)
    ∷ (codes "min_profit_threshold", min_profit_threshold)
    ∷ (codes "max_slippage", max_slippage)
    ∷ (codes "slippage", max_slippage)
    ∷ (codes "max_position", max_position_per_market)
    ∷ (codes "max_position_per_market", max_position_per_market)
    ∷ (codes "max_exposure", max_total_exposure)
    ∷ (codes "max_total_exposure", max_total_exposure)
    ∷ []

unfoldable pub parse_risk_limit_kind : Text → Result RiskLimitKind CommandParseError
parse_risk_limit_kind value = elim (lookup value risk_fields) [
  | some kind ↦ ok kind
  | none ↦ err (invalid_risk_field value)
]

module _ {D : Type 0} (from_str : Text → Option D) where
  -- The arms with no argument.
  abbrev plain_commands : List (Text × TelegramCommand D)
  plain_commands =
      (codes "/start", start)
      ∷ (codes "/help", help)
      ∷ (codes "/status", status)
      ∷ (codes "/health", health)
      ∷ (codes "/positions", positions)
      ∷ (codes "/stats", stats)
      ∷ (codes "/pool", pool)
      ∷ (codes "/markets", markets)
      ∷ (codes "/version", version)
      ∷ (codes "/pause", pause)
      ∷ (codes "/resume", resume)
      ∷ []

  -- The arm for `/set_risk`, over the words after it; more words are ignored.
  unfoldable pub parse_set_risk : List Text → Result (TelegramCommand D) CommandParseError
  parse_set_risk [] = err (missing_argument "field")
  parse_set_risk (raw_field ∷ []) = err (missing_argument "value")
  parse_set_risk (raw_field ∷ raw_value ∷ more) = elim (parse_risk_limit_kind raw_field) [
    | err e ↦ err e
    | ok kind ↦ elim (from_str raw_value) [
      | none ↦ err (invalid_decimal raw_value)
      | some value ↦ ok (set_risk kind value)
    ]
  ]

  abbrev starts_with_slash : Text → Bool
  starts_with_slash [] = false
  starts_with_slash (c ∷ cs) = nat_beq c 47

  unfoldable pub parse_words : List Text → Result (TelegramCommand D) CommandParseError
  parse_words [] = err not_a_command
  parse_words (raw_command ∷ parts) =
      let command = before_at raw_command in
      if starts_with_slash raw_command
      then elim (lookup command plain_commands) [
        | some known ↦ ok known
        | none ↦
            if command == codes "/set_risk"
            then parse_set_risk parts
            else err (unknown_command command)
      ]
      else err not_a_command

  unfoldable pub parse_command : Text → Result (TelegramCommand D) CommandParseError
  parse_command text = parse_words (split_whitespace text)
