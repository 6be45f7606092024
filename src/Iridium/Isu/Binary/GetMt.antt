-- ===== src/Iridium/Isu/Binary/GetMt.antt =====
-- How `isu_get_mt` takes a message from the ISU.
use isbd_zephyr_module.Prelude.{
  ℕ, ◌<◌, ◌≤◌, ◌≡◌, ◌^◌, Bytes, true, false, [], length, arith, refl, ap, ◌∙◌, codes, ltb, some,
  inl, List,
}
use isbd_zephyr_module.Serial.{Serial}
use isbd_zephyr_module.Serial.Delivery.{Delivers}
use isbd_zephyr_module.Libc.Print.{Piece, render}
use isbd_zephyr_module.Libc.Network.{htons, ntohs, ntohs-htons}
use isbd_zephyr_module.AtUart.Types.{ok, overflow, AtUart}
use isbd_zephyr_module.AtUart.Command.{max_cmd_size, exec, read}
use isbd_zephyr_module.AtUart.Command.Exchange.{Exchange}
use isbd_zephyr_module.AtUart.Parse.Line.{IsEol}
use isbd_zephyr_module.AtUart.Parse.Response.{Blanks, Gap}
use isbd_zephyr_module.AtUart.Parse.Skip.{code_response, skip_resp_code}
use isbd_zephyr_module.Iridium.Checksum.{compute_checksum, compute_checksum_lem}
use isbd_zephyr_module.Iridium.Dte.{DteErr, Dte, dte_send_tiny_cmd}
use isbd_zephyr_module.Iridium.Isu.Query.{short_response}
use isbd_zephyr_module.Iridium.Isu.Query.Answer.{answered, dte_send_lem}
use isbd_zephyr_module.Iridium.Isu.Binary.{
  get_mt, unpack_bin_resp, unpack_rest, unpack_message, unpack_checksum, overlay,
}

abbrev pub sbdrb_cmd : List Piece
sbdrb_cmd = exec (codes "+SBDRB")

length-sbdrb_cmd : length (render sbdrb_cmd) < max_cmd_size
unfolding render
length-sbdrb_cmd = omega arith

checksum_back :
    (csum msg : Bytes) → ntohs (overlay (htons (compute_checksum msg)) csum) ≡ compute_checksum msg
unfolding htons ntohs
checksum_back csum msg = omega (arith, compute_checksum_lem msg)

module _ {Z : Type 0} ⦃line : Serial Z⦄ where
  read_whole :
      (n t : ℕ) (u : AtUart Z) (got : Bytes) (z : Z)
      → line.read n t u.zuart ≡ (got, z)
      → length got ≡ n
      → read n t u ≡ ((ok, got), record u { zuart = z })
  unfolding read
  read_whole n t u got z e h = ground arith

  unpack_fits :
      (u : AtUart Z) (buf csum msg two : Bytes) (cap t : ℕ) (m z : Z)
      → length msg ≤ cap
      → length two ≡ 2
      → line.read (length msg) t u.zuart ≡ (msg, m)
      → line.read 2 t m ≡ (two, z)
      → unpack_message buf cap csum t (length msg) u ≡ (
        (ok, overlay msg buf, length msg, some (ntohs (overlay two csum))),
        record u { zuart = z },
      )
  unfolding unpack_message unpack_checksum
  unpack_fits u buf csum msg two cap t m z hl h2 r₁ r₂ =
      let no : ltb cap (length msg) ≡ false = ground arith in
      rw
        (
          no,
          read_whole (length msg) t u msg m r₁ refl,
          read_whole 2 t (record u { zuart = m }) two z r₂ h2,
        )
        refl

  unpack_cut :
      (u : AtUart Z) (buf csum got two : Bytes) (cap len t : ℕ) (m z : Z)
      → cap < len
      → length got ≡ cap
      → length two ≡ 2
      → line.read cap t u.zuart ≡ (got, m)
      → line.read 2 t m ≡ (two, z)
      → unpack_message buf cap csum t len u ≡ (
        (overflow, overlay got buf, cap, some (ntohs (overlay two csum))),
        record u { zuart = z },
      )
  unfolding unpack_message unpack_checksum
  unpack_cut u buf csum got two cap len t m z hl hg h2 r₁ r₂ =
      let yes : ltb cap len ≡ true = ground arith in
      rw (yes, read_whole cap t u got m r₁ hg, read_whole 2 t (record u { zuart = m }) two z r₂ h2)
        refl

  -- From `dte` the line takes the command, and delivers the length and then `got` and two bytes, each
  -- to one read in time.
  pub record Brings (dte : Dte Z) (len : ℕ) (got two : Bytes) (z' : Z) : Type 0 where
    pub start : Z
    pub asked : Exchange dte.at_uart (render sbdrb_cmd) [] short_response start
    pub sized : Z
    pub size : line.read 2 short_response start ≡ (htons len, sized)
    pub filled : Z
    pub message : line.read (length got) short_response sized ≡ (got, filled)
    pub two_bytes : length two ≡ 2
    pub trailer : line.read 2 short_response filled ≡ (two, z')

  unpack_bin_sized :
      (u : AtUart Z) (buf csum : Bytes) (cap len : ℕ) (m : Z)
      → len < 2 ^ 16
      → line.read 2 short_response u.zuart ≡ (htons len, m)
      → unpack_bin_resp buf cap csum short_response u
        ≡ unpack_message buf cap csum short_response len (record u { zuart = m })
  unfolding unpack_bin_resp unpack_rest htons
  unpack_bin_sized u buf csum cap len m h r =
      rw (read_whole 2 short_response u (htons len) m r refl, ntohs-htons len h) refl

  asked_lem :
      (dte : Dte Z) (len : ℕ) (got two : Bytes) (z' : Z)
      → (x : Brings dte len got two z')
      → dte_send_tiny_cmd sbdrb_cmd dte ≡ (DteErr.ok, answered dte 0 x.start)
  asked_lem dte len got two z' x =
      dte_send_lem dte sbdrb_cmd [] short_response x.start length-sbdrb_cmd x.asked
      ∙ ap (λ m. (DteErr.ok, answered dte 0 m)) x.asked.replies

  -- Where the modem answers AT+SBDRB in time with the length of a message that fits the caller's array,
  -- the message, its checksum and OK, `isu_get_mt` returns OK, the message at the start of the array, its
  -- length, and a checksum equal to that of the message.
  pub get_mt_message :
      (dte : Dte Z) (buf csum msg pre gap : Bytes) (cap : ℕ) (m z' : Z)
      → IsEol dte.at_uart.eol
      → length msg ≤ cap
      → length msg < 2 ^ 16
      → Brings dte (length msg) msg (htons (compute_checksum msg)) m
      → Blanks pre
      → Gap dte.at_uart.eol gap
      → Delivers short_response
          (code_response dte.at_uart.config.verbose dte.at_uart.eol pre gap ok)
          m
          z'
      → get_mt buf cap csum dte
        ≡ ((DteErr.ok, overlay msg buf, length msg, some (compute_checksum msg)), answered dte 0 z')
  unfolding get_mt
  get_mt_message dte buf csum msg pre gap cap m z' ee hl hw x hp hg d =
      let two = htons (compute_checksum msg) in
      let u : AtUart Z = (answered dte 0 x.start).at_uart in
      let v : AtUart Z = (answered dte 0 x.sized).at_uart in
      rw
        (
          asked_lem dte (length msg) msg two m x,
          unpack_bin_sized u buf csum cap (length msg) x.sized hw x.size,
          unpack_fits v buf csum msg two cap short_response x.filled m hl x.two_bytes x.message
              x.trailer,
          skip_resp_code (answered dte 0 m).at_uart pre gap 1 short_response ok z' ee hp hg
              (inl refl) d,
        )
        (ap (λ c. ((DteErr.ok, overlay msg buf, length msg, some c), answered dte 0 z'))
          (checksum_back csum msg))

  -- Where the message is longer than the caller's array, `isu_get_mt` returns an AT error with the code
  -- of an overflow, and the array is filled with the start of the message; the two bytes of the message
  -- behind it are taken for the checksum, and the rest of the answer stays on the line.
  pub get_mt_overflow :
      (dte : Dte Z) (buf csum got two : Bytes) (cap len : ℕ) (z' : Z)
      → length got ≡ cap
      → cap < len
      → len < 2 ^ 16
      → Brings dte len got two z'
      → get_mt buf cap csum dte ≡ (
        (DteErr.err_at, overlay got buf, cap, some (ntohs (overlay two csum))),
        answered dte 2 z',
      )
  unfolding get_mt
  get_mt_overflow dte buf csum got two cap len z' hg hl hw x =
      let u : AtUart Z = (answered dte 0 x.start).at_uart in
      let v : AtUart Z = (answered dte 0 x.sized).at_uart in
      rw
        (
          asked_lem dte len got two z' x,
          unpack_bin_sized u buf csum cap len x.sized hw x.size,
          unpack_cut v buf csum got two cap len short_response x.filled z' hl hg x.two_bytes
              (rw hg at x.message) x.trailer,
        )
        refl
