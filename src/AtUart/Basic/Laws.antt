-- ===== src/AtUart/Basic/Laws.antt =====
-- `at_uart_setup` and the basic commands with a modem that answers.
use isbd_zephyr_module.Prelude.{
  ℕ, ◌<◌, ◌≡◌, ◌⊎◌, Bytes, Bool, true, false, List, if◌then◌else◌, codes, length, arith, refl, ap,
  sym, ◌∙◌, ◌++◌, length-append, inl, inr,
}
use isbd_zephyr_module.Serial.{Serial}
use isbd_zephyr_module.Libc.Print.{Piece, render, decimal}
use isbd_zephyr_module.Libc.Print.Laws.{length-decimal}
use isbd_zephyr_module.AtUart.Types.{AtErr, ok, err, AtConfig, AtUart}
use isbd_zephyr_module.AtUart.Command.{short_timeout, max_cmd_size, exec_int}
use isbd_zephyr_module.AtUart.Command.Exchange.{Exchange, sent_cmd, send_tiny_cmd_lem}
use isbd_zephyr_module.AtUart.Parse.Line.{IsEol}
use isbd_zephyr_module.AtUart.Parse.Response.{Blanks, Gap}
use isbd_zephyr_module.AtUart.Parse.Skip.{code_response, skip_resp_code}
use isbd_zephyr_module.AtUart.Basic.{
  flag, run_cmd, set_flow_control, set_dtr, set_quiet, enable_echo, set_verbose,
  three_wire_connection, configure, setup,
}

end-IsEol : (verbose : Bool) → IsEol (if verbose then b'\n' else b'\r')
end-IsEol true = inl refl
end-IsEol false = inr refl

flag_lt : (b : Bool) → flag b < 10
flag_lt true = omega arith
flag_lt false = omega arith

wire_lt : (off : Bool) → (if off then 0 else 3) < 10
wire_lt off = ground arith

-- The commands are short.
length-exec_int :
    (name : Bytes) (n : ℕ)
    → length name < 8
    → n < 10
    → length (render (exec_int name n)) < max_cmd_size
unfolding render
length-exec_int name n h l = omega (
  arith,
  length-append name (decimal n ++ codes "\r"),
  length-append (decimal n) (codes "\r"),
  length-decimal 0 n (omega arith),
)

module _ {Z : Type 0} ⦃line : Serial Z⦄ where
  -- The modem takes a command and answers with a result code in time.
  pub record Replies (u : AtUart Z) (tmpl : List Piece) (code : AtErr) (z' : Z) : Type 0 where
    pub pre : Bytes
    pub gap : Bytes
    pub pre_blank : Blanks pre
    pub gap_blank : Gap u.eol gap
    pub is_code : (code ≡ ok) ⊎ (code ≡ err)
    pub exchange :
        Exchange u
          (render tmpl)
          (code_response u.config.verbose u.eol pre gap code)
          short_timeout
          z'

  pub run_cmd_lem :
      (u : AtUart Z) (tmpl : List Piece) (code : AtErr) (z' : Z)
      → IsEol u.eol
      → length (render tmpl) < max_cmd_size
      → Replies u tmpl code z'
      → run_cmd tmpl u ≡ (code, sent_cmd u z')
  unfolding run_cmd
  run_cmd_lem u tmpl code z' ee h x =
      rw (send_tiny_cmd_lem u tmpl _ short_timeout z' h x.exchange) (
        skip_resp_code (sent_cmd u x.exchange.middle) x.pre x.gap 1 short_timeout code z' ee
          x.pre_blank x.gap_blank x.is_code x.exchange.replies)

  -- What a modem has to do in the course of `at_uart_setup`, from the state behind its configuration: it
  -- answers the first three commands by any codes, the flow control by OK or ERROR, and behind OK the
  -- setting of DTR. `code` is the last code that it gives.
  pub record Course (config : AtConfig) (a : AtUart Z) (code : AtErr) (z' : Z) : Type 0 where
    pub quiet_code : AtErr
    pub echo_code : AtErr
    pub verbose_code : AtErr
    pub flow_code : AtErr
    pub z₁ : Z
    pub z₂ : Z
    pub z₃ : Z
    pub z₄ : Z
    pub quiet : Replies a (exec_int (codes "q") 0) quiet_code z₁
    pub echo : Replies (sent_cmd a z₁) (exec_int (codes "e") (flag config.echo)) echo_code z₂
    pub verbose :
        Replies (sent_cmd a z₂) (exec_int (codes "v") (flag config.verbose)) verbose_code z₃
    pub flow :
        Replies
          (sent_cmd a z₃)
          (exec_int (codes "&k") (if line.no_flow_control z₃ then 0 else 3))
          flow_code
          z₄
    pub dtr :
        ((flow_code ≡ err) × (code ≡ err) × (z' ≡ z₄))
        ⊎ ((flow_code ≡ ok)
            × Replies
                (sent_cmd a z₄)
                (exec_int (codes "&d") (if line.no_flow_control z₃ then 0 else 3))
                code
                z')

  stopped :
      (off : Bool) (u u' : AtUart Z)
      → set_flow_control (if off then 0 else 3) u ≡ (err, u')
      → three_wire_connection off u ≡ (err, u')
  unfolding three_wire_connection
  stopped off u u' e = rw (e, three_wire_connection) refl

  went_on :
      (off : Bool) (u u' : AtUart Z)
      → set_flow_control (if off then 0 else 3) u ≡ (ok, u')
      → three_wire_connection off u ≡ set_dtr (if off then 0 else 3) u'
  unfolding three_wire_connection
  went_on off u u' e = rw (e, three_wire_connection) refl

  wire_lem :
      (u : AtUart Z) (off : Bool) (c code : AtErr) (z₄ z' : Z)
      → IsEol u.eol
      → Replies u (exec_int (codes "&k") (if off then 0 else 3)) c z₄
      → ((c ≡ err) × (code ≡ err) × (z' ≡ z₄))
        ⊎ ((c ≡ ok)
            × Replies (sent_cmd u z₄) (exec_int (codes "&d") (if off then 0 else 3)) code z')
      → three_wire_connection off u ≡ (code, sent_cmd u z')
  unfolding set_flow_control set_dtr
  wire_lem u off c code z₄ z' ee x (inl (p, q, r)) =
      let n : ℕ = if off then 0 else 3 in
      let k =
        run_cmd_lem u _ c z₄ ee (length-exec_int (codes "&k") n (omega arith) (wire_lt off)) x in
      stopped off u (sent_cmd u z₄) (k ∙ ap (λ v. (v, sent_cmd u z₄)) p)
      ∙ ap (λ v. (v, sent_cmd u z₄)) (sym q)
      ∙ ap (λ v. (code, sent_cmd u v)) (sym r)
  wire_lem u off c code z₄ z' ee x (inr (p, y)) =
      let n : ℕ = if off then 0 else 3 in
      let k =
        run_cmd_lem u _ c z₄ ee (length-exec_int (codes "&k") n (omega arith) (wire_lt off)) x in
      went_on off u (sent_cmd u z₄) (k ∙ ap (λ v. (v, sent_cmd u z₄)) p)
      ∙ run_cmd_lem (sent_cmd u z₄) _ code z' ee
          (length-exec_int (codes "&d") n (omega arith) (wire_lt off)) y

  -- Where the modem answers each command in time, `at_uart_setup` returns the code of the last: of the
  -- setting of DTR, or of the flow control if that is an ERROR and DTR is left alone. The codes of the
  -- first three commands do not matter. Behind it the configuration is the new one, with its end of line.
  pub setup_lem :
      (config : AtConfig) (u : AtUart Z) (code : AtErr) (z' : Z)
      → Course config (configure config u) code z'
      → setup config u ≡ (code, sent_cmd (configure config u) z')
  unfolding setup configure set_quiet enable_echo set_verbose
  setup_lem config u code z' x =
      let a = configure config u in
      let ee = end-IsEol config.verbose in
      let e = flag config.echo in
      let v = flag config.verbose in
      let q₁ =
        run_cmd_lem a _ x.quiet_code x.z₁ ee
          (length-exec_int (codes "q") 0 (omega arith) (omega arith)) x.quiet in
      let q₂ =
        run_cmd_lem (sent_cmd a x.z₁) _ x.echo_code x.z₂ ee
          (length-exec_int (codes "e") e (omega arith) (flag_lt config.echo)) x.echo in
      let q₃ =
        run_cmd_lem (sent_cmd a x.z₂) _ x.verbose_code x.z₃ ee
          (length-exec_int (codes "v") v (omega arith) (flag_lt config.verbose)) x.verbose in
      let w =
        wire_lem (sent_cmd a x.z₃) (line.no_flow_control x.z₃) x.flow_code code x.z₄ z' ee x.flow
          x.dtr in
      rw (q₁, q₂, q₃) w
