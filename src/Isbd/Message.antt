-- ===== src/Isbd/Message.antt =====
-- The data of lib/iridium/inc/isbd.h, and the state of the service.
use isbd_zephyr_module.Prelude.{ℕ, Bytes, Bool, Option, codes}
use isbd_zephyr_module.Iridium.Dte.{Dte}

-- `struct isbd_mo_msg`; `data` is an address, `none` the null pointer.
pub record MoMsg : Type 0 where
  pub alert : Bool
  pub sn : ℕ
  pub retries : ℕ
  pub block : Option ℕ
  pub len : ℕ

-- `struct isbd_mt_msg`
pub record MtMsg : Type 0 where
  pub sn : ℕ
  pub block : Option ℕ
  pub len : ℕ

-- `isbd_err_t`
pub data IsbdErr : Type 0 where
  ok err_unk err_mt err_mo err_mem err_space : IsbdErr

-- `isbd_evt_t`: the identifier with the member of the union that goes with it.
pub data IsbdEvt : Type 0 where
  mt : MtMsg → IsbdEvt
  mo : MoMsg → IsbdEvt
  svca sigq : ℕ → IsbdEvt
  failed : IsbdErr → IsbdEvt
  ring unk : IsbdEvt

unfoldable pub err_name : IsbdErr → Bytes
err_name IsbdErr.ok = codes "ISBD_OK"
err_name IsbdErr.err_mo = codes "ISBD_ERR_MO"
err_name IsbdErr.err_mt = codes "ISBD_ERR_MT"
err_name IsbdErr.err_space = codes "ISBD_ERR_SPACE"
err_name _ = codes "ISBD_ERR_UNKNOWN"

-- `isbd_config_t`, with the terminal that it points at; the priority goes to the kernel only.
pub record IsbdConfig (Z : Type 0) : Type 0 where
  pub sigq_threshold : ℕ
  pub mo_queue_len : ℕ
  pub evt_queue_len : ℕ
  pub dte : Dte Z

-- `struct isbd` with the heap and the terminal; the configuration is the threshold, since nothing else of
-- it is read behind the set-up. The queue of MT messages is never used.
pub record Isbd (H M E Z : Type 0) : Type 0 where
  pub service : ℕ
  pub signal : ℕ
  pub sigq_threshold : ℕ
  pub mo_msgq_buf : Option ℕ
  pub evt_msgq_buf : Option ℕ
  pub mo_q : M
  pub evt_q : E
  pub heap : H
  pub dte : Dte Z
