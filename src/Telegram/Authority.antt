-- ===== src/Telegram/Authority.antt =====
-- What the remote control can change (src/adapter/outbound/notifier/telegram).
use edgelord.Common.{
  ℕ, ◌≡◌, ◌≢◌, ◌⊎◌, inl, inr, sym, subst, Option, ok, err, Result, Bool-cases, nat_beq, nat_beq_iff,
  arith,
}
use edgelord.Money.{Decimal}
use edgelord.Domain.Opportunity.{Opportunity}
use edgelord.Risk.{approved, check}
use edgelord.Risk.Check.{check-approved_iff}
use edgelord.State.{
  AppState, RiskLimitKind, set_risk_limit, activate_circuit_breaker, reset_circuit_breaker,
}
use edgelord.State.Limits.{AreValid, set_risk_limit-AreValid}
use edgelord.Telegram.Text.{Text}
use edgelord.Telegram.Command.{
  TelegramCommand, start, help, status, health, positions, stats, pool, markets, version, pause,
  resume, set_risk, parse_command, CommandParseError,
}
use edgelord.Telegram.Dispatch.{
  TelegramControl, execute, pause_text, resume_text, set_risk_text, respond,
  command_response_for_message,
}

module _ {D F S : Type 0} ⦃d : Decimal D⦄ (c : TelegramControl D F S) where
  -- The positions, the locks and the reservations are the same.
  abbrev pub SameBooks : AppState D → AppState D → Type 0
  SameBooks s t =
      (t.positions ≡ s.positions)
      × (t.pending_executions ≡ s.pending_executions)
      × (t.pending_exposure ≡ s.pending_exposure)

  execute-SameBooks :
      (command : TelegramCommand D) (s : AppState D) → SameBooks s (execute c command s).1
  unfolding execute pause_text resume_text set_risk_text set_risk_limit activate_circuit_breaker
      reset_circuit_breaker
  execute-SameBooks command s = ground arith

  set_risk_text-limits :
      (kind : RiskLimitKind) (value : D) (s : AppState D)
      → (set_risk_text c kind value s).1 ≡ (set_risk_limit kind value s).0
  unfolding set_risk_text
  set_risk_text-limits kind value s = ground arith

  execute-AreValid :
      (command : TelegramCommand D) (s : AppState D)
      → AreValid s.risk_limits
      → AreValid (execute c command s).1.risk_limits
  unfolding execute pause_text resume_text activate_circuit_breaker reset_circuit_breaker
  execute-AreValid pause s v = ground arith
  execute-AreValid resume s v = ground arith
  execute-AreValid (set_risk kind value) s v =
      subst (λ t. AreValid t.risk_limits) (sym (set_risk_text-limits kind value s))
        (set_risk_limit-AreValid kind value s v)
  execute-AreValid start s v = v
  execute-AreValid help s v = v
  execute-AreValid status s v = v
  execute-AreValid health s v = v
  execute-AreValid positions s v = v
  execute-AreValid stats s v = v
  execute-AreValid pool s v = v
  execute-AreValid markets s v = v
  execute-AreValid version s v = v

  respond-SameBooks :
      (answer : Result (TelegramCommand D) CommandParseError) (s : AppState D)
      → AreValid s.risk_limits
      → SameBooks s (respond c answer s).1 × AreValid (respond c answer s).1.risk_limits
  unfolding respond
  respond-SameBooks (ok command) s v = (execute-SameBooks command s, execute-AreValid command s v)
  respond-SameBooks (err e) s v = ground (arith, v)

  -- Whatever text comes from whatever chat, the positions, the locks and the reservations stay, valid
  -- limits stay valid, and if anything changes then the chat is the allowed one.
  pub command_response_authority :
      (from_str : Text → Option D) (text : Text) (incoming_chat allowed_chat : ℕ) (s : AppState D)
      → AreValid s.risk_limits
      → SameBooks s (command_response_for_message c from_str text incoming_chat allowed_chat s).1
        × AreValid
            (command_response_for_message c from_str text incoming_chat allowed_chat
              s).1.risk_limits
        × (((command_response_for_message c from_str text incoming_chat allowed_chat s).1 ≡ s)
            ⊎ (incoming_chat ≡ allowed_chat))
  unfolding command_response_for_message
  command_response_authority from_str text incoming_chat allowed_chat s v =
      let kept = respond-SameBooks (parse_command from_str text) s v in
      elim (Bool-cases (nat_beq incoming_chat allowed_chat)) [
        | inl same ↦
            let it_is = (nat_beq_iff incoming_chat allowed_chat).0 same in
            (ground (arith, same, kept), ground (arith, same, kept), inr it_is)
        | inr other ↦ (ground (arith, other), ground (arith, other, v), inl (ground (arith, other)))
      ]

  -- From the allowed chat, a text that reads as `/pause` stops trading: no opportunity is approved
  -- until the circuit breaker is reset.
  pub pause-check :
      (from_str : Text → Option D) (text : Text) (chat : ℕ) (s : AppState D) (o : Opportunity D)
      → parse_command from_str text ≡ ok pause
      → (check o (command_response_for_message c from_str text chat chat s).1).1 ≢ approved
  unfolding command_response_for_message respond execute pause_text activate_circuit_breaker
  pause-check from_str text chat s o h e =
      let after = (command_response_for_message c from_str text chat chat s).1 in
      let live = (check-approved_iff o after).0 e in ground (arith, live.0, h)
