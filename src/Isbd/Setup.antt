-- ===== src/Isbd/Setup.antt =====
-- `isbd_setup` of lib/iridium/isbd/isbd.c.
pub mod Laws
use isbd_zephyr_module.Prelude.{ℕ, ◌*◌, Option, none, some, Io}
use isbd_zephyr_module.Isbd.Kernel.{Heap, MsgQueue}
use isbd_zephyr_module.Isbd.Message.{MoMsg, IsbdErr, IsbdEvt, IsbdConfig, Isbd}

module _ {H M E Z : Type 0} ⦃heap : Heap H⦄ ⦃mos : MsgQueue MoMsg M⦄
    ⦃evts : MsgQueue IsbdEvt E⦄ where
  -- Lines 415 to 416: the configuration.
  abbrev pub configured : IsbdConfig Z → Isbd H M E Z → Isbd H M E Z
  configured conf s = record s { sigq_threshold = conf.sigq_threshold; dte = conf.dte; service = 0 }

  -- Lines 424 to 443, with the two buffers.
  unfoldable pub init_queues :
      IsbdConfig Z → Option ℕ → Option ℕ → Isbd H M E Z → IsbdErr × Isbd H M E Z
  init_queues conf none evt_buf s = (IsbdErr.err_mem, s)
  init_queues conf (some a) none s = (IsbdErr.err_mem, record s { heap = heap.free a s.heap })
  init_queues conf (some a) (some b) s = (
    IsbdErr.ok,
    record s { mo_q = mos.init conf.mo_queue_len; evt_q = evts.init conf.evt_queue_len },
  )

  -- `mo_size` and `evt_size` are the sizes of the two structures. Behind an OK the thread was created.
  unfoldable pub isbd_setup : ℕ → ℕ → IsbdConfig Z → Io (Isbd H M E Z) IsbdErr
  isbd_setup mo_size evt_size conf s =
      let (mo_buf, h₁) = heap.malloc (mo_size * conf.mo_queue_len) s.heap in
      let (evt_buf, h₂) = heap.malloc (evt_size * conf.evt_queue_len) h₁ in
      init_queues conf mo_buf evt_buf
        (record (configured conf s) { mo_msgq_buf = mo_buf; evt_msgq_buf = evt_buf; heap = h₂ })
