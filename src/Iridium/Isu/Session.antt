-- ===== src/Iridium/Isu/Session.antt =====
-- The commands of lib/iridium/isu.c whose response is a list of numbers, read by `sscanf`.
pub mod Answer
pub mod Status
use isbd_zephyr_module.Prelude.{
  ℕ, ◌%◌, ◌^◌, Bytes, Bool, true, false, [], ◌∷◌, List, Option, none, some, ◌==◌, if◌then◌else◌,
  codes, get_or, length, replicate, Io, ◌>>=◌, ◌>>◌, pure,
}
use isbd_zephyr_module.Serial.{Serial}
use isbd_zephyr_module.Libc.Print.{Piece}
use isbd_zephyr_module.Libc.Scan.{Directive, char, unsigned, chars, sscanf}
use isbd_zephyr_module.AtUart.Parse.{array}
use isbd_zephyr_module.AtUart.Command.{exec, exec_str, read_value}
use isbd_zephyr_module.Iridium.Dte.{DteErr, Dte, set_err, or_ret}
use isbd_zephyr_module.Iridium.Isu.Query.{query, short_response, long_response}

-- `isu_session_ext_t`
pub record Session : Type 0 where
  pub mo_sts : ℕ
  pub mt_sts : ℕ
  pub mo_msn : ℕ
  pub mt_msn : ℕ
  pub mt_len : ℕ
  pub mt_queued : ℕ

-- The values that `sscanf` has stored, in the order of its arguments; the other fields stay.
unfoldable pub store_session : List ℕ → Session → Session
store_session vs session = record {
  mo_sts = get_or vs 0 session.mo_sts;
  mt_sts = get_or vs 2 session.mt_sts;
  mo_msn = get_or vs 1 session.mo_msn;
  mt_msn = get_or vs 3 session.mt_msn;
  mt_len = get_or vs 4 session.mt_len;
  mt_queued = get_or vs 5 session.mt_queued;
}

-- "+SBDIX:%hhu,%hu,%hhu,%hu,%hu,%hhu"
abbrev pub sbdix : List Directive
sbdix = chars (codes "+SBDIX:") (
    unsigned 8
    ∷ char b','
    ∷ unsigned 16
    ∷ char b','
    ∷ unsigned 8
    ∷ char b','
    ∷ unsigned 16
    ∷ char b','
    ∷ unsigned 16
    ∷ char b','
    ∷ unsigned 8
    ∷ [])

-- `read == n ? ISU_DTE_OK : ISU_DTE_ERR_UNK`
abbrev pub all_read : ℕ → List ℕ → DteErr
all_read n vs = if length vs == n then DteErr.ok else DteErr.err_unk

module _ {Z : Type 0} ⦃line : Serial Z⦄ where
  -- A query into a local array, and the numbers in its answer; none where the exchange fails. What
  -- the array holds before is not read, so it starts with zeros.
  unfoldable pub query_numbers : List Piece → ℕ → ℕ → List Directive → Io (Dte Z) (DteErr × List ℕ)
  query_numbers tmpl size t format = do
    r ← query tmpl (some (replicate size 0)) size 2 t
    or_ret (λ e. (e, [])) r.0 (pure (DteErr.ok, sscanf format (array r.1)))

  unfoldable pub init_session : Session → Bool → Io (Dte Z) (DteErr × Session)
  init_session session alert = do
    r ←
        query_numbers (exec_str (codes "+SBDIX") (if alert then codes "A" else [])) 64 long_response
          sbdix
    or_ret (λ e. (e, session)) r.0 (pure (all_read 6 r.1, store_session r.1 session))

  unfoldable pub get_sig_q : ℕ → Io (Dte Z) (DteErr × ℕ)
  get_sig_q signal_q = do
    r ←
        query_numbers (exec (codes "+CSQ")) 16 long_response
          (chars (codes "+CSQ:") (unsigned 8 ∷ []))
    or_ret (λ e. (e, signal_q)) r.0 (pure (all_read 1 r.1, get_or r.1 0 signal_q))

  unfoldable pub get_mt_alert : ℕ → Io (Dte Z) (DteErr × ℕ)
  get_mt_alert alert = do
    r ←
        query_numbers (read_value (codes "+SBDMTA")) 32 short_response
          (chars (codes "+SBDMTA:") (unsigned 8 ∷ []))
    or_ret (λ e. (e, alert)) r.0
        (pure
          (if length r.1 == 1 then (DteErr.ok, get_or r.1 0 alert) else (DteErr.err_unk, alert)))

  -- The two numbers of +SBDREG: the status, for a pointer that may be null, and the error code.
  unfoldable pub registered : Option ℕ → List ℕ → Io (Dte Z) (DteErr × Option ℕ)
  registered out_sts (status ∷ code ∷ []) = do
    set_err code
    pure (
      if code == 0 then DteErr.ok else DteErr.err_cmd,
      elim out_sts [ none ↦ none | some _ ↦ some status ],
    )
  registered out_sts _ = pure (DteErr.err_unk, out_sts)

  unfoldable pub net_reg : Option ℕ → Io (Dte Z) (DteErr × Option ℕ)
  net_reg out_sts = do
    r ←
        query_numbers (exec (codes "+SBDREG")) 32 short_response
          (chars (codes "+SBDREG:") (unsigned 8 ∷ char b',' ∷ unsigned 8 ∷ []))
    or_ret (λ e. (e, out_sts)) r.0 (registered out_sts r.1)

  -- `*ring_sts` is assigned also where the second number could not be read; then it is what the
  -- variable `sri` happened to hold.
  unfoldable pub get_ring_sts : ℕ → ℕ → Io (Dte Z) (DteErr × ℕ)
  get_ring_sts sri ring_sts = do
    r ←
        query_numbers (exec (codes "+CRIS")) 32 short_response
          (chars (codes "+CRIS:") (unsigned 8 ∷ char b',' ∷ unsigned 8 ∷ []))
    or_ret (λ e. (e, ring_sts)) r.0 (pure (all_read 2 r.1, get_or r.1 1 sri))
