-- ===== src/ZUart/Types.antt =====
-- The data of lib/zuart/inc/zuart.h.
use isbd_zephyr_module.Prelude.{ℕ, Option}

-- `zuart_err_t`
pub data ZuartErr : Type 0 where
  ok err setup overrun timeout : ZuartErr

-- `zuart_mode_t`
pub data Mode : Type 0 where
  irq poll mixed : Mode

-- The functions of zuart.c that `read_proto` and `write_proto` point at.
pub data Proto : Type 0 where
  irq_proto poll_proto : Proto

-- `struct zuart_config`; `none` is the null pointer, and a buffer stands for its address. The device
-- pointer is not kept: the driver serves one device.
pub record ZuartConfig : Type 0 where
  pub mode : Mode
  pub tx_buf : Option ℕ
  pub tx_buf_size : ℕ
  pub rx_buf : Option ℕ
  pub rx_buf_size : ℕ
  pub read_proto : Option Proto
  pub write_proto : Option Proto
