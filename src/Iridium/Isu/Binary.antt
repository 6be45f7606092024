-- ===== src/Iridium/Isu/Binary.antt =====
-- The commands of lib/iridium/isu.c that carry binary messages, and `isu_clear_buffer`.
pub mod SetMo
pub mod GetMt
pub mod Clear
pub mod Refuse
use isbd_zephyr_module.Prelude.{
  ℕ, ◌+◌, ◌%◌, ◌^◌, Bytes, Bool, true, false, ◌&&◌, [], ◌∷◌, ◌++◌, List, Option, none, some, ◌==◌,
  ltb, if◌then◌else◌, codes, length, drop, replicate, Io, ◌>>=◌, ◌>>◌, pure,
}
use isbd_zephyr_module.Serial.{Serial}
use isbd_zephyr_module.Stru.{streq}
use isbd_zephyr_module.Libc.Network.{htons, ntohs}
use isbd_zephyr_module.AtUart.Types.{AtErr, ok, overflow, is_unk, at_err_value, AtUart}
use isbd_zephyr_module.AtUart.Parse.{skip_resp, get_resp_code}
use isbd_zephyr_module.AtUart.Command.{exec, exec_int, set_int, write, read}
use isbd_zephyr_module.Iridium.Checksum.{compute_checksum}
use isbd_zephyr_module.Iridium.Dte.{DteErr, Dte, on_at, set_err, ok_or, or_ret, dte_send_tiny_cmd}
use isbd_zephyr_module.Iridium.Isu.Query.{short_response}

-- `isu_clear_buffer_t`
pub data ClearBuffer : Type 0 where
  mo_buff mt_buff mo_mt_buff : ClearBuffer

abbrev pub clear_buffer_value : ClearBuffer → ℕ
clear_buffer_value mo_buff = 0
clear_buffer_value mt_buff = 1
clear_buffer_value mo_mt_buff = 2

-- A variable behind an assignment that may not have been made.
abbrev pub assigned : ℕ → Option ℕ → ℕ
assigned old none = old
assigned old (some v) = v

-- An array behind bytes that were copied to its start.
abbrev pub overlay : Bytes → Bytes → Bytes
overlay got mem = got ++ drop (length got) mem

-- The code of a command: 0 is success.
abbrev pub cmd_result : ℕ → DteErr
cmd_result code = if code == 0 then DteErr.ok else DteErr.err_cmd

-- Rest of an exchange on the structure below, made only behind an OK.
abbrev pub if_ok : {S : Type 0} → AtErr → Io S AtErr → Io S AtErr
if_ok AtErr.ok rest = rest
if_ok e rest = pure e

module _ {Z : Type 0} ⦃line : Serial Z⦄ where
  -- How `isu_clear_buffer` and `isu_set_mo` end: with the code of the command, or the AT error.
  unfoldable pub cmd_end : AtErr → ℕ → Io (Dte Z) DteErr
  cmd_end AtErr.ok code = do set_err code; pure (cmd_result code)
  cmd_end e code = do set_err (at_err_value e); pure DteErr.err_at

  -- `code` is the variable of that name, which starts with any value.
  unfoldable pub clear_buffer : ℕ → ClearBuffer → Io (Dte Z) DteErr
  clear_buffer code buffer = do
    sent ← dte_send_tiny_cmd (exec_int (codes "+SBDD") (clear_buffer_value buffer))
    or_ret (λ e. e) sent
        (do
          r ← on_at (get_resp_code (replicate 16 0) 16 short_response)
          e ← if_ok r.0 (on_at (skip_resp 1 short_response))
          cmd_end e (assigned code r.1))

  -- The message and its checksum, most significant byte first, and the code in the answer. The
  -- results of the two writes are dropped.
  unfoldable pub write_message : Bytes → Bytes → Io (AtUart Z) (Option ℕ)
  write_message msg str_code = do
    _ ← write msg short_response
    _ ← write (htons (compute_checksum msg)) short_response
    r ← get_resp_code str_code 16 short_response
    pure r.1

  -- The second part of `isu_set_mo`, behind the answer to the length.
  unfoldable pub mo_payload : AtErr → Bytes → Bytes → Io (AtUart Z) (Option ℕ)
  mo_payload at_err str_code msg =
      if is_unk at_err && streq str_code (codes "READY")
      then write_message msg str_code
      else pure none

  -- `code` is the variable of that name, which starts with any value.
  unfoldable pub set_mo : ℕ → Bytes → Io (Dte Z) DteErr
  set_mo code msg = do
    sent ← dte_send_tiny_cmd (set_int (codes "+SBDWB") (length msg))
    or_ret (λ e. e) sent
        (do
          r ← on_at (get_resp_code (replicate 16 0) 16 short_response)
          v ← on_at (mo_payload r.0 r.2 msg)
          e ← on_at (skip_resp 1 short_response)
          cmd_end e (assigned (assigned code r.1) v))

  -- The checksum behind a message that was read; `csum` is the memory of the caller's variable.
  unfoldable pub unpack_checksum : AtErr → Bytes → ℕ → Io (AtUart Z) (AtErr × Option ℕ)
  unpack_checksum AtErr.ok csum t = do r ← read 2 t; pure (r.0, some (ntohs (overlay r.1 csum)))
  unpack_checksum e csum t = pure (e, none)

  -- The message behind its length, as much of it as fits: the code, the caller's array, its length,
  -- and the checksum if it is assigned.
  unfoldable pub unpack_message :
      Bytes → ℕ → Bytes → ℕ → ℕ → Io (AtUart Z) (AtErr × Bytes × ℕ × Option ℕ)
  unpack_message msg cap csum t msg_len = do
    let overflowed = ltb cap msg_len
    let n : ℕ = if overflowed then cap else msg_len
    r ← read n t
    c ← unpack_checksum r.0 csum t
    pure (if overflowed then overflow else c.0, overlay r.1 msg, n, c.1)

  -- The rest of `_unpack_bin_resp` behind the two bytes of the length.
  unfoldable pub unpack_rest :
      AtErr → Bytes → ℕ → Bytes → ℕ → Bytes → Io (AtUart Z) (AtErr × Bytes × ℕ × Option ℕ)
  unpack_rest AtErr.ok msg cap csum t two = unpack_message msg cap csum t (ntohs two)
  unpack_rest e msg cap csum t two = pure (e, msg, cap, none)

  -- `_unpack_bin_resp`
  unfoldable pub unpack_bin_resp :
      Bytes → ℕ → Bytes → ℕ → Io (AtUart Z) (AtErr × Bytes × ℕ × Option ℕ)
  unpack_bin_resp msg cap csum t = do r ← read 2 t; unpack_rest r.0 msg cap csum t r.1

  -- The error, the array, the length and the checksum if they are assigned.
  unfoldable pub get_mt : Bytes → ℕ → Bytes → Io (Dte Z) (DteErr × Bytes × ℕ × Option ℕ)
  get_mt msg cap csum = do
    sent ← dte_send_tiny_cmd (exec (codes "+SBDRB"))
    or_ret (λ e. (e, msg, cap, none)) sent
        (do
          r ← on_at (unpack_bin_resp msg cap csum short_response)
          e ← if_ok r.0 (on_at (skip_resp 1 short_response))
          set_err (at_err_value e)
          pure (ok_or DteErr.err_at e, r.1, r.2, r.3))
