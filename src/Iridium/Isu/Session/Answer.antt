-- ===== src/Iridium/Isu/Session/Answer.antt =====
-- What the numeric queries of lib/iridium/isu.c make of an answer that comes in time.
use isbd_zephyr_module.Prelude.{
  ℕ, ◌+◌, ◌*◌, ◌<◌, ◌≡◌, ◌^◌, Bytes, Bool, true, false, [], ◌∷◌, ◌++◌, List, length,
  length-replicate, replicate, All, arith, refl, ap, ◌∙◌, codes, if◌then◌else◌, ◌==◌, some, inr,
  inl,
}
use isbd_zephyr_module.Serial.{Serial}
use isbd_zephyr_module.Libc.Print.{Piece, render}
use isbd_zephyr_module.Libc.Scan.{chars, scanf, sscanf}
use isbd_zephyr_module.Libc.Scan.Fields.{fields, all_unsigned, Fit, scanf-fields}
use isbd_zephyr_module.AtUart.Types.{ok}
use isbd_zephyr_module.AtUart.Command.{max_cmd_size, exec, exec_str}
use isbd_zephyr_module.AtUart.Command.Exchange.{Exchange}
use isbd_zephyr_module.AtUart.Parse.Line.{IsEol, IsChar}
use isbd_zephyr_module.AtUart.Parse.Response.{Blanks, Gap, response}
use isbd_zephyr_module.Iridium.Dte.{DteErr, Dte}
use isbd_zephyr_module.Iridium.Numbers.{numbers-IsText}
use isbd_zephyr_module.Iridium.Isu.Query.{short_response, long_response}
use isbd_zephyr_module.Iridium.Isu.Query.Answer.{answered, query_text}
use isbd_zephyr_module.Iridium.Isu.Session.{
  Session, store_session, query_numbers, init_session, net_reg, registered,
}

-- The layout of an answer in time.
pub record Answers {Z : Type 0} ⦃line : Serial Z⦄ (dte : Dte Z) (cmd text : Bytes) (t : ℕ) (z' : Z)
    : Type 0 where
  pub pre : Bytes
  pub gap : Bytes
  pub mid : Bytes
  pub pre_blank : Blanks pre
  pub gap_blank : Gap dte.at_uart.eol gap
  pub mid_blank : Blanks mid
  pub exchange :
      Exchange dte.at_uart cmd
        (response dte.at_uart.config.verbose dte.at_uart.eol pre text gap mid ok)
        t
        z'

module _ {Z : Type 0} ⦃line : Serial Z⦄ where
  -- An answer of a name and numbers that fit the template is read back number by number.
  pub query_numbers_lem :
      (dte : Dte Z) (tmpl : List Piece) (size t : ℕ) (name : Bytes) (blank : Bool) (ws ns : List ℕ)
      (z' : Z)
      → length (render tmpl) < max_cmd_size
      → IsEol dte.at_uart.eol
      → size + 8 < 2 ^ 16
      → All IsChar name
      → All (λ n. n < 10 ^ 5) ns
      → length name + 1 + 7 * length ns < size
      → Fit ws ns
      → Answers dte (render tmpl) (b'+' ∷ name ++ fields blank ns) t z'
      → query_numbers tmpl size t (chars (b'+' ∷ name) (all_unsigned ws)) dte
        ≡ ((DteErr.ok, ns), answered dte 0 z')
  unfolding query_numbers sscanf
  query_numbers_lem dte tmpl size t name blank ws ns z' hl ee hw ha hb hs hf x =
      let (b, e, c, l) =
        query_text dte tmpl (replicate size 0) x.pre (b'+' ∷ name ++ fields blank ns) x.gap x.mid
          size 2 t ok z' hl ee (omega (arith, length-replicate {A = ℕ} size 0)) hw
          (numbers-IsText dte.at_uart.config.verbose size name blank ns ha hb hs) x.pre_blank
          x.gap_blank x.mid_blank (inr refl) (inl refl) x.exchange in
      rw e (
        ap (λ (vs : List ℕ). ((DteErr.ok, vs), answered dte 0 z'))
          (ap (scanf (chars (b'+' ∷ name) (all_unsigned ws))) c
            ∙ scanf-fields (b'+' ∷ name) blank ws ns hf))

-- The numbers of a session in the order of the answer.
abbrev pub session_numbers : Session → List ℕ
session_numbers s = s.mo_sts ∷ s.mo_msn ∷ s.mt_sts ∷ s.mt_msn ∷ s.mt_len ∷ s.mt_queued ∷ []

-- Each number fits its variable.
pub record IsSession (s : Session) : Type 0 where
  pub mo_sts_byte : s.mo_sts < 2 ^ 8
  pub mo_msn_word : s.mo_msn < 2 ^ 16
  pub mt_sts_byte : s.mt_sts < 2 ^ 8
  pub mt_msn_word : s.mt_msn < 2 ^ 16
  pub mt_len_word : s.mt_len < 2 ^ 16
  pub mt_queued_byte : s.mt_queued < 2 ^ 8

abbrev pub sbdix_cmd : Bool → List Piece
sbdix_cmd alert = exec_str (codes "+SBDIX") (if alert then codes "A" else [])

length-sbdix_cmd : (alert : Bool) → length (render (sbdix_cmd alert)) < max_cmd_size
unfolding render
length-sbdix_cmd true = omega arith
length-sbdix_cmd false = omega arith

store_session_numbers : (old s : Session) → store_session (session_numbers s) old ≡ s
unfolding store_session
store_session_numbers old s = refl

length-sbdreg_cmd : length (render (exec (codes "+SBDREG"))) < max_cmd_size
unfolding render
length-sbdreg_cmd = omega arith

module _ {Z : Type 0} ⦃line : Serial Z⦄ where
  registered_lem :
      (old status code : ℕ) (dte : Dte Z)
      → registered (some old) (status ∷ code ∷ []) dte ≡ (
        (if code == 0 then DteErr.ok else DteErr.err_cmd, some status),
        record dte { err = code },
      )
  unfolding registered
  registered_lem old status code dte = refl

  -- Where the modem takes AT+SBDIX, or AT+SBDIXA for an alert, and answers in time with the six
  -- numbers of a session that fit their variables, `isu_init_session` returns OK and exactly that
  -- session.
  pub init_session_lem :
      (dte : Dte Z) (old s : Session) (alert blank : Bool) (z' : Z)
      → IsEol dte.at_uart.eol
      → IsSession s
      → Answers dte
          (render (sbdix_cmd alert))
          (codes "+SBDIX:" ++ fields blank (session_numbers s))
          long_response
          z'
      → init_session old alert dte ≡ ((DteErr.ok, s), answered dte 0 z')
  unfolding init_session
  init_session_lem dte old s alert blank z' ee h x =
      rw
        (query_numbers_lem dte (sbdix_cmd alert) 64 long_response (codes "SBDIX:") blank
          (8 ∷ 16 ∷ 8 ∷ 16 ∷ 16 ∷ 8 ∷ []) (session_numbers s) z' (length-sbdix_cmd alert) ee
          (omega arith) (ground arith) (omega arith) (omega arith) (omega arith) x)
        (ap (λ (q : Session). ((DteErr.ok, q), answered dte 0 z')) (store_session_numbers old s))

  -- Where the modem answers +SBDREG with a status and an error code of a byte each, `isu_net_reg` stores
  -- the status and records the code, and returns OK exactly if the code is 0.
  pub net_reg_lem :
      (dte : Dte Z) (old status code : ℕ) (blank : Bool) (z' : Z)
      → IsEol dte.at_uart.eol
      → status < 2 ^ 8
      → code < 2 ^ 8
      → Answers dte
          (render (exec (codes "+SBDREG")))
          (codes "+SBDREG:" ++ fields blank (status ∷ code ∷ []))
          short_response
          z'
      → net_reg (some old) dte
        ≡ ((if code == 0 then DteErr.ok else DteErr.err_cmd, some status), answered dte code z')
  unfolding net_reg
  net_reg_lem dte old status code blank z' ee hs hc x =
      rw
        (query_numbers_lem dte (exec (codes "+SBDREG")) 32 short_response (codes "SBDREG:") blank
          (8 ∷ 8 ∷ []) (status ∷ code ∷ []) z' length-sbdreg_cmd ee (omega arith) (ground arith)
          (omega arith) (omega arith) (omega arith) x)
        (registered_lem old status code (answered dte 0 z'))
