-- ===== src/Tests/Modem.antt =====
-- A modem that follows a script, and its exchanges.
use isbd_zephyr_module.Prelude.{
  ℕ, Bytes, arith, true, false, none, List, [], ◌∷◌, ◌≢◌, refl, ◌++◌, All, append_assoc, append-nil,
  subst,
}
use isbd_zephyr_module.Serial.Delivery.{Delivers}
use isbd_zephyr_module.Serial.Scripted.{Script, scripted}
use isbd_zephyr_module.ZUart.Types.{Mode}
use isbd_zephyr_module.AtUart.Types.{AtConfig, AtUart}
use isbd_zephyr_module.AtUart.Command.Exchange.{Exchange}
use isbd_zephyr_module.AtUart.Parse.Response.{Blanks, Gap}
use isbd_zephyr_module.Iridium.Dte.{Dte}

abbrev pub crlf : Bytes
crlf = b'\r' ∷ b'\n' ∷ []

abbrev pub cr : Bytes
cr = b'\r' ∷ []

pub crlf-Blanks : Blanks crlf
crlf-Blanks = (refl, (refl, tt))

pub cr-Gap : Gap b'\n' cr
cr-Gap = ((refl, λ e. absurd (omega arith)), tt)

abbrev pub at_config : AtConfig
at_config = record {
  echo = true;
  verbose = true;
  zuart = record {
    mode = Mode.poll;
    tx_buf = none;
    tx_buf_size = 0;
    rx_buf = none;
    rx_buf_size = 0;
    read_proto = none;
    write_proto = none;
  };
}

-- A line on which bytes wait, or replies are still to come.
abbrev pub script : Bytes → Bytes → List Bytes → Script
script written ready replies = record { written = written; ready = ready; replies = replies }

abbrev pub at_port : Script → AtUart Script
at_port z = record { echoed = false; eol = b'\n'; zuart = z; config = at_config }

abbrev pub dte_port : Script → Dte Script
dte_port z = record { err = 0; at_uart = at_port z; config = record { at_uart = at_config } }

-- What a script has ready comes in time.
pub deliver :
    (t : ℕ) (bs w rest : Bytes) (rs : List Bytes)
    → Delivers t bs (script w (bs ++ rest) rs) (script w rest rs)
deliver t [] w rest rs = refl
deliver t (b ∷ bs) w rest rs = (script w (bs ++ rest) rs, refl, deliver t bs w rest rs)

pub deliver_all :
    (t : ℕ) (bs w : Bytes) (rs : List Bytes) → Delivers t bs (script w bs rs) (script w [] rs)
deliver_all t bs w rs =
    subst (λ r. Delivers t bs (script w r rs) (script w [] rs)) (append-nil bs)
      (deliver t bs w [] rs)

-- A script whose next reply is the echo of a command and an answer.
abbrev pub exchange :
    (t : ℕ) (cmd echo reply : Bytes) (rs : List Bytes)
    → All (λ b. b ≢ b'\r') echo
    → Exchange
        (at_port (script [] [] ((echo ++ (b'\r' ∷ reply)) ∷ rs)))
        cmd
        reply
        t
        (script cmd [] rs)
exchange t cmd echo reply rs a = record {
  accepted = refl;
  echo = echo;
  echo_chars = a;
  middle = script cmd reply rs;
  echoes =
      subst (λ r. Delivers 1000 (echo ++ b'\r' ∷ []) (script cmd r rs) (script cmd reply rs))
        (append_assoc echo (b'\r' ∷ []) reply) (deliver 1000 (echo ++ b'\r' ∷ []) cmd reply rs);
  replies = deliver_all t reply cmd rs;
}

-- An exchange behind whose answer more is to come.
abbrev pub exchange_more :
    (t : ℕ) (cmd echo reply more : Bytes) (rs : List Bytes)
    → All (λ b. b ≢ b'\r') echo
    → Exchange
        (at_port (script [] [] ((echo ++ (b'\r' ∷ (reply ++ more))) ∷ rs)))
        cmd
        reply
        t
        (script cmd more rs)
exchange_more t cmd echo reply more rs a = record {
  accepted = refl;
  echo = echo;
  echo_chars = a;
  middle = script cmd (reply ++ more) rs;
  echoes =
      subst
        (λ r. Delivers 1000 (echo ++ b'\r' ∷ []) (script cmd r rs) (script cmd (reply ++ more) rs))
        (append_assoc echo (b'\r' ∷ []) (reply ++ more))
        (deliver 1000 (echo ++ b'\r' ∷ []) cmd (reply ++ more) rs);
  replies = deliver t reply cmd more rs;
}
