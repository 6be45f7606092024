-- ===== src/Iridium/Isu/Binary/SetMo.antt =====
-- How `isu_set_mo` hands a message to the ISU.
use isbd_zephyr_module.Prelude.{
  ℕ, ◌<◌, ◌≤◌, ◌≡◌, ◌^◌, ◌%◌, Bytes, Bool, true, false, ◌++◌, List, length, length-append,
  length-replicate, replicate, c_str, arith, refl, ap, ◌∙◌, codes, some, inl, peek,
}
use isbd_zephyr_module.Serial.{Serial}
use isbd_zephyr_module.Serial.Delivery.{Delivers, sent-Delivers, sent-write_whole}
use isbd_zephyr_module.Stru.{streq}
use isbd_zephyr_module.Stru.Laws.{streq_iff}
use isbd_zephyr_module.Libc.Print.{Piece, render, decimal}
use isbd_zephyr_module.Libc.Print.Laws.{length-decimal}
use isbd_zephyr_module.Libc.Scan.{is_digit}
use isbd_zephyr_module.Libc.Network.{htons}
use isbd_zephyr_module.AtUart.Types.{ok, unk, AtUart}
use isbd_zephyr_module.AtUart.Code.{get_str_code}
use isbd_zephyr_module.AtUart.Command.{max_cmd_size, set_int, write}
use isbd_zephyr_module.AtUart.Command.Exchange.{
  Exchange, sent_cmd, sent-Exchange, in_order-Exchange,
}
use isbd_zephyr_module.AtUart.Parse.Line.{IsEol}
use isbd_zephyr_module.AtUart.Parse.Response.{Blanks, Gap, IsText}
use isbd_zephyr_module.AtUart.Parse.Skip.{code_response, skip_resp_code}
use isbd_zephyr_module.AtUart.Parse.Single.{line_response, get_resp_code_word}
use isbd_zephyr_module.AtUart.Parse.Zero.{get_resp_code_digits, IsNumber}
use isbd_zephyr_module.Iridium.Checksum.{compute_checksum}
use isbd_zephyr_module.Iridium.Dte.{Dte}
use isbd_zephyr_module.Iridium.Isu.Query.{short_response}
use isbd_zephyr_module.Iridium.Isu.Query.Answer.{answered, dte_send_lem}
use isbd_zephyr_module.Iridium.Isu.Binary.{set_mo, mo_payload, write_message, cmd_end, cmd_result}

abbrev pub sbdwb_cmd : Bytes → List Piece
sbdwb_cmd msg = set_int (codes "+SBDWB") (length msg)

-- The two bytes behind the message.
abbrev pub checksum_bytes : Bytes → Bytes
checksum_bytes msg = htons (compute_checksum msg)

pub length-sbdwb_cmd :
    (msg : Bytes) → length msg < 2 ^ 16 → length (render (sbdwb_cmd msg)) < max_cmd_size
unfolding render
length-sbdwb_cmd msg h = omega (
  arith,
  length-append (decimal (length msg)) (codes "\r"),
  length-decimal 4 (length msg) (omega arith),
)

ready-IsText : (verbose : Bool) → IsText verbose 16 (codes "READY")
unfolding get_str_code streq
ready-IsText true = record {
  chars = ground arith;
  some_char = omega arith;
  fits = omega arith;
  no_code = refl;
}
ready-IsText false = record {
  chars = ground arith;
  some_char = omega arith;
  fits = omega arith;
  no_code = refl;
}

ready-no_digit : is_digit (peek (codes "READY")) ≡ false
ready-no_digit = refl

module _ {Z : Type 0} ⦃line : Serial Z⦄ where
  -- A modem that takes the length, asks for the message by READY, takes the message and two bytes, and
  -- answers with a code and OK, each in time.
  pub record Takes (dte : Dte Z) (msg : Bytes) (code : ℕ) (z' : Z) : Type 0 where
    pub pre : Bytes
    pub gap : Bytes
    pub pre_blank : Blanks pre
    pub gap_blank : Gap dte.at_uart.eol gap
    pub asked : Z
    pub ready :
        Exchange dte.at_uart
          (render (sbdwb_cmd msg))
          (line_response dte.at_uart.eol pre (codes "READY") gap)
          short_response
          asked
    pub message : (line.write msg short_response asked).0 ≡ length msg
    pub checksum :
        (line.write (checksum_bytes msg) short_response (line.write msg short_response asked).1).0
        ≡ 2
    pub coded : Z
    pub code_text : IsNumber dte.at_uart.config.verbose 16 code
    pub codes_it :
        Delivers short_response
          (line_response dte.at_uart.eol pre (decimal code) gap)
          (line.write (checksum_bytes msg) short_response (line.write msg short_response asked).1).1
          coded
    pub ends :
        Delivers short_response
          (code_response dte.at_uart.config.verbose dte.at_uart.eol pre gap ok)
          coded
          z'

  write_state :
      (src : Bytes) (t : ℕ) (u : AtUart Z)
      → (write src t u).1 ≡ record u { zuart = (line.write src t u.zuart).1 }
  unfolding write
  write_state src t u = refl

  write_message_lem :
      (dte : Dte Z) (msg b : Bytes) (code : ℕ) (z' : Z)
      → IsEol dte.at_uart.eol
      → 16 ≤ length b
      → (x : Takes dte msg code z')
      → write_message msg b (answered dte 0 x.asked).at_uart
        ≡ (some (code % 2 ^ 8), (answered dte 0 x.coded).at_uart)
  unfolding write_message
  write_message_lem dte msg b code z' ee h x =
      let u : AtUart Z = (answered dte 0 x.asked).at_uart in
      let v : AtUart Z = record u { zuart = (line.write msg short_response u.zuart).1 } in
      let w : AtUart Z = record v {
        zuart = (line.write (checksum_bytes msg) short_response v.zuart).1;
      } in
      let (c, e, _) =
        get_resp_code_digits w b x.pre x.gap code 16 short_response x.coded ee h (omega arith)
          (omega arith) x.code_text x.pre_blank x.gap_blank x.codes_it in
      rw (write_state msg short_response u, write_state (checksum_bytes msg) short_response v, e)
        refl

  mo_payload_ready :
      (b msg : Bytes) (u : AtUart Z)
      → c_str b ≡ codes "READY"
      → mo_payload unk b msg u ≡ write_message msg b u
  unfolding mo_payload
  mo_payload_ready b msg u h =
      let s : streq b (codes "READY") ≡ true = (streq_iff b (codes "READY")).1 h in rw s refl

  sent_message :
      (dte : Dte Z) (msg : Bytes) (code : ℕ) (z' : Z)
      → line.in_order dte.at_uart.zuart ≡ true
      → (x : Takes dte msg code z')
      → line.sent z'
        ≡ ((line.sent dte.at_uart.zuart ++ render (sbdwb_cmd msg)) ++ msg) ++ checksum_bytes msg
  unfolding htons
  sent_message dte msg code z' o x =
      let cmd = render (sbdwb_cmd msg) in
      let z₂ = (line.write msg short_response x.asked).1 in
      let z₃ = (line.write (checksum_bytes msg) short_response z₂).1 in
      let o₁ : line.in_order x.asked ≡ true =
        in_order-Exchange dte.at_uart cmd _ short_response x.asked o x.ready in
      let o₂ = line.in_order-write msg short_response x.asked o₁ in
      let s₁ = sent-Exchange dte.at_uart cmd _ short_response x.asked o x.ready in
      sent-Delivers short_response _ x.coded z' x.ends
      ∙ sent-Delivers short_response _ z₃ x.coded x.codes_it
      ∙ sent-write_whole (checksum_bytes msg) short_response z₂ o₂ x.checksum
      ∙ ap (λ s. s ++ checksum_bytes msg)
          (sent-write_whole msg short_response x.asked o₁ x.message ∙ ap (λ s. s ++ msg) s₁)

  -- The result, in whatever order the writes come out.
  pub set_mo_ready :
      (junk : ℕ) (dte : Dte Z) (msg : Bytes) (code : ℕ) (z' : Z)
      → IsEol dte.at_uart.eol
      → length msg < 2 ^ 16
      → Takes dte msg code z'
      → set_mo junk msg dte ≡ (cmd_result (code % 2 ^ 8), answered dte (code % 2 ^ 8) z')
  unfolding set_mo cmd_end
  set_mo_ready junk dte msg code z' ee h x =
      let (b, e, c, l) =
        get_resp_code_word (sent_cmd dte.at_uart x.ready.middle) (replicate 16 0) x.pre
          (codes "READY") x.gap 16 short_response x.asked ee
          (omega (arith, length-replicate {A = ℕ} 16 0)) (omega arith)
          (ready-IsText dte.at_uart.config.verbose) (ready-no_digit) x.pre_blank x.gap_blank
          x.ready.replies in
      rw
        (
          dte_send_lem dte (sbdwb_cmd msg) _ short_response x.asked (length-sbdwb_cmd msg h)
              x.ready,
          e,
          mo_payload_ready b msg (answered dte 0 x.asked).at_uart c,
          write_message_lem dte msg b code z' ee (omega (arith, l, length-replicate {A = ℕ} 16 0))
              x,
          skip_resp_code (answered dte 0 x.coded).at_uart x.pre x.gap 1 short_response ok z' ee
              x.pre_blank x.gap_blank (inl refl) x.ends,
        )
        refl

  pub set_mo_taken :
      (junk : ℕ) (dte : Dte Z) (msg : Bytes) (code : ℕ) (z' : Z)
      → IsEol dte.at_uart.eol
      → line.in_order dte.at_uart.zuart ≡ true
      → length msg < 2 ^ 16
      → Takes dte msg code z'
      → (set_mo junk msg dte ≡ (cmd_result (code % 2 ^ 8), answered dte (code % 2 ^ 8) z'))
        × (line.sent z'
            ≡ ((line.sent dte.at_uart.zuart ++ render (sbdwb_cmd msg)) ++ msg)
              ++ checksum_bytes msg)
  set_mo_taken junk dte msg code z' ee o h x =
      (set_mo_ready junk dte msg code z' ee h x, sent_message dte msg code z' o x)
