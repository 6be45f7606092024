-- ===== src/AtUart/Types.antt =====
-- The data of lib/at_uart/inc/at_uart.h.
use isbd_zephyr_module.Prelude.{ℕ, Bool, true, false}
use isbd_zephyr_module.ZUart.Types.{ZuartConfig}

-- `at_uart_err_t`
pub data AtErr : Type 0 where
  ok timeout overflow err unk : AtErr

-- The numbers of the enumeration.
abbrev pub at_err_value : AtErr → ℕ
at_err_value ok = 0
at_err_value timeout = 1
at_err_value overflow = 2
at_err_value err = 3
at_err_value unk = 4

abbrev pub is_ok : AtErr → Bool
is_ok ok = true
is_ok _ = false

abbrev pub is_unk : AtErr → Bool
is_unk unk = true
is_unk _ = false

-- `at_uart_config_t`
pub record AtConfig : Type 0 where
  pub echo : Bool
  pub verbose : Bool
  pub zuart : ZuartConfig

-- `at_uart_t`, over the port `Z`
pub record AtUart (Z : Type 0) : Type 0 where
  pub echoed : Bool
  pub eol : ℕ
  pub zuart : Z
  pub config : AtConfig
