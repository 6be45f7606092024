-- ===== src/Isbd/Delivery/Incoming.antt =====
-- What a modem says that hands over a message to lib/iridium/isbd/isbd.c, and how it is read.
use isbd_zephyr_module.Prelude.{
  ℕ, zero, suc, ◌<◌, ◌≤◌, ◌≡◌, ◌^◌, Bytes, Bool, true, false, none, some, [], ◌∷◌, ◌++◌, length,
  take-length, append-nil, ◌==◌, arith, refl, codes, inl, drop,
}
use isbd_zephyr_module.Serial.{Serial}
use isbd_zephyr_module.Serial.Delivery.{Delivers}
use isbd_zephyr_module.Libc.Print.{render}
use isbd_zephyr_module.Libc.Scan.Fields.{fields}
use isbd_zephyr_module.Libc.Network.{htons}
use isbd_zephyr_module.AtUart.Types.{ok}
use isbd_zephyr_module.AtUart.Parse.{parse_resp}
use isbd_zephyr_module.AtUart.Parse.Line.{IsEol}
use isbd_zephyr_module.AtUart.Parse.Response.{Blanks, Gap}
use isbd_zephyr_module.AtUart.Parse.Skip.{code_response}
use isbd_zephyr_module.Iridium.Checksum.{compute_checksum}
use isbd_zephyr_module.Iridium.Dte.{DteErr, Dte}
use isbd_zephyr_module.Iridium.Evt.{evt_wait}
use isbd_zephyr_module.Iridium.Isu.Query.{short_response, long_response}
use isbd_zephyr_module.Iridium.Isu.Query.Answer.{answered}
use isbd_zephyr_module.Iridium.Isu.Session.{Session}
use isbd_zephyr_module.Iridium.Isu.Session.Answer.{Answers, session_numbers, sbdix_cmd}
use isbd_zephyr_module.Iridium.Isu.Binary.{overlay, mo_buff, clear_buffer, cmd_end}
use isbd_zephyr_module.Iridium.Isu.Binary.Clear.{Coded, sbdd_cmd, clear_buffer_run}
use isbd_zephyr_module.Iridium.Isu.Binary.GetMt.{Brings, get_mt_message}
use isbd_zephyr_module.Isbd.Kernel.{Heap, MsgQueue}
use isbd_zephyr_module.Isbd.Message.{MoMsg, MtMsg, IsbdEvt, Isbd}
use isbd_zephyr_module.Isbd.Service.{Junk, is_ok, read_mt_msg}

drop_all : (n : ℕ) (s : Bytes) → length s ≤ n → drop n s ≡ []
drop_all zero [] h = refl
drop_all zero (x ∷ s) h = absurd (omega arith)
drop_all (suc n) [] h = refl
drop_all (suc n) (x ∷ s) h = drop_all n s (omega arith)

-- A message that fills the array.
overlay_whole : (msg buf : Bytes) → length buf ≤ length msg → overlay msg buf ≡ msg
overlay_whole msg buf h = rw (drop_all (length msg) buf h) (append-nil msg)

-- A request for a session, as `isbd_request_session` puts it into the queue.
abbrev pub request_msg : Bool → ℕ → ℕ → MoMsg
request_msg alert sn retries = record {
  alert = alert;
  sn = sn;
  retries = retries;
  block = none;
  len = 0;
}

abbrev pub mt_msg : ℕ → ℕ → ℕ → MtMsg
mt_msg sn b len = record { sn = sn; block = some b; len = len }

module _ {Z : Type 0} ⦃line : Serial Z⦄ where
  -- Behind the session.
  abbrev pub waited : Dte Z → Z → Dte Z
  waited d z = (evt_wait 10 (answered d 0 z)).1

  -- What the modem says in a session that brings a message: it clears its buffer, answers with the
  -- session, hands over the message with its checksum, and no event comes within the 10 ms behind the
  -- session nor within `t` at the end of the round.
  pub record Receives (d : Dte Z) (msg : Bytes) (session : Session) (t : ℕ) (z₁ z₂ m z₃ : Z)
      : Type 0 where
    pub clears : Coded d (render (sbdd_cmd mo_buff)) 0 ok z₁
    pub blank : Bool
    pub answers :
        Answers
          (answered d 0 z₁)
          (render (sbdix_cmd true))
          (codes "+SBDIX:" ++ fields blank (session_numbers session))
          long_response
          z₂
    pub quiet : is_ok (evt_wait 10 (answered d 0 z₂)).0.0 ≡ false
    pub brings : Brings (waited d z₂) (length msg) msg (htons (compute_checksum msg)) m
    pub pre : Bytes
    pub gap : Bytes
    pub pre_blank : Blanks pre
    pub gap_blank : Gap (waited d z₂).at_uart.eol gap
    pub ends :
        Delivers short_response
          (code_response (waited d z₂).at_uart.config.verbose (waited d z₂).at_uart.eol pre gap ok)
          m
          z₃
    pub quiet_after : is_ok (evt_wait t (answered (waited d z₂) 0 z₃)).0.0 ≡ false

  pub waited_eol : (d : Dte Z) (z : Z) → (waited d z).at_uart.eol ≡ d.at_uart.eol
  unfolding evt_wait parse_resp
  waited_eol d z = refl

  pub cleared :
      (junk : ℕ) (d : Dte Z) (z' : Z)
      → IsEol d.at_uart.eol
      → Coded d (render (sbdd_cmd mo_buff)) 0 ok z'
      → clear_buffer junk mo_buff d ≡ (DteErr.ok, answered d 0 z')
  unfolding cmd_end
  cleared junk d z' ee x = clear_buffer_run junk d mo_buff 0 ok z' ee (inl refl) x

module _ {H M E Z : Type 0} ⦃heap : Heap H⦄ ⦃mos : MsgQueue MoMsg M⦄ ⦃evts : MsgQueue IsbdEvt E⦄
    ⦃line : Serial Z⦄ where
  -- The message is read into the block at `b`.
  pub read_whole_msg :
      (junk : Junk) (b : ℕ) (msg pre gap : Bytes) (m z₃ : Z) (s : Isbd H M E Z)
      → IsEol s.dte.at_uart.eol
      → length msg < 2 ^ 16
      → Brings s.dte (length msg) msg (htons (compute_checksum msg)) m
      → Blanks pre
      → Gap s.dte.at_uart.eol gap
      → Delivers short_response
          (code_response s.dte.at_uart.config.verbose s.dte.at_uart.eol pre gap ok)
          m
          z₃
      → read_mt_msg junk b (length msg) s ≡ (
        (true, length msg),
        record s { dte = answered s.dte 0 z₃; heap = heap.store b msg s.heap },
      )
  unfolding read_mt_msg
  read_whole_msg junk b msg pre gap m z₃ s ee h x hp hg d =
      let buf = heap.load b (length msg) s.heap in
      let g =
        get_mt_message s.dte buf junk.csum msg pre gap (length msg) m z₃ ee (omega arith) h x hp hg
          d in
      let o = overlay_whole msg buf (heap.load_le b (length msg) s.heap) in
      let same : (compute_checksum msg == compute_checksum msg) ≡ true = ground arith in
      rw (g, o, take-length msg, same, read_mt_msg) refl
