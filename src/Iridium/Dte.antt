-- ===== src/Iridium/Dte.antt =====
-- lib/iridium/dte.c and lib/iridium/inc/isu/dte.h: the data terminal equipment.
use isbd_zephyr_module.Prelude.{ℕ, List, Io, ◌>>=◌, ◌>>◌, modify, pure}
use isbd_zephyr_module.Serial.{Serial}
use isbd_zephyr_module.Libc.Print.{Piece}
use isbd_zephyr_module.AtUart.Types.{AtErr, at_err_value, AtConfig, AtUart}
use isbd_zephyr_module.AtUart.Command.{send_tiny_cmd}
use isbd_zephyr_module.AtUart.Basic.{setup}

-- `isu_dte_err_t`
pub data DteErr : Type 0 where
  ok err_at err_unk err_cmd err_setup : DteErr

-- `isu_dte_config_t`
pub record DteConfig : Type 0 where
  pub at_uart : AtConfig

-- `isu_dte_t`; no value that is assigned to `err` is negative.
pub record Dte (Z : Type 0) : Type 0 where
  pub err : ℕ
  pub at_uart : AtUart Z
  pub config : DteConfig

-- A call on `&dte->at_uart`.
abbrev pub on_at : {Z A : Type 0} → Io (AtUart Z) A → Io (Dte Z) A
on_at m dte = let (a, u) = m dte.at_uart in (a, record dte { at_uart = u })

-- `dte->err = …`
abbrev pub set_err : {Z : Type 0} → ℕ → Io (Dte Z) (Unit {0})
set_err n = modify (λ dte. record dte { err = n })

-- `dte->err == AT_UART_OK ? ISU_DTE_OK : …`
abbrev pub ok_or : DteErr → AtErr → DteErr
ok_or e AtErr.ok = DteErr.ok
ok_or e _ = e

-- The early return of SEND_TINY_CMD_OR_RET, with what the caller's variables hold then.
abbrev pub or_ret : {S A : Type 0} → (DteErr → A) → DteErr → Io S A → Io S A
or_ret f DteErr.ok rest = rest
or_ret f e rest = pure (f e)

module _ {Z : Type 0} where
  unfoldable pub dte_get_err : Dte Z → ℕ
  dte_get_err dte = dte.err

  -- It is not implemented.
  unfoldable pub dte_send_cmd : List Piece → Io (Dte Z) DteErr
  dte_send_cmd tmpl = pure DteErr.err_cmd

module _ {Z : Type 0} ⦃line : Serial Z⦄ where
  unfoldable pub dte_setup : DteConfig → Io (Dte Z) DteErr
  dte_setup config = do
    modify (λ dte. record dte { config = config })
    ret ← on_at (setup config.at_uart)
    pure (ok_or DteErr.err_setup ret)

  unfoldable pub dte_send_tiny_cmd : List Piece → Io (Dte Z) DteErr
  dte_send_tiny_cmd tmpl = do
    err ← on_at (send_tiny_cmd tmpl)
    set_err (at_err_value err)
    pure (ok_or DteErr.err_at err)
