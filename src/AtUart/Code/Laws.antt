-- ===== src/AtUart/Code/Laws.antt =====
-- Which texts are result codes.
use isbd_zephyr_module.Prelude.{
  Bytes, Bool, true, false, ◌≡◌, ◌≢◌, ◌↔◌, ◌⊎◌, [], codes, c_str, arith, refl,
}
use isbd_zephyr_module.Stru.{streq}
use isbd_zephyr_module.Stru.Laws.{streq_iff}
use isbd_zephyr_module.AtUart.Types.{AtErr, ok, timeout, overflow, err, unk, is_unk}
use isbd_zephyr_module.AtUart.Code.{get_str_code}

-- The text of a result code in the two response formats.
abbrev pub code_text : Bool → AtErr → Bytes
code_text true ok = codes "OK"
code_text true err = codes "ERROR"
code_text false ok = codes "0"
code_text false err = codes "4"
code_text _ _ = []

-- A line is a result code exactly if its string is the text of that code, and any other line is
-- unknown, in both response formats.
pub get_str_code_iff :
    (verbose : Bool) (buf : Bytes)
    → ((get_str_code verbose buf ≡ ok) ↔ (c_str buf ≡ code_text verbose ok))
      × ((get_str_code verbose buf ≡ err) ↔ (c_str buf ≡ code_text verbose err))
      × ((get_str_code verbose buf ≡ ok)
          ⊎ (get_str_code verbose buf ≡ err)
          ⊎ (get_str_code verbose buf ≡ unk))
unfolding get_str_code
get_str_code_iff true buf =
    ground (arith, streq_iff buf (codes "OK"), streq_iff buf (codes "ERROR"))
get_str_code_iff false buf = ground (arith, streq_iff buf (codes "0"), streq_iff buf (codes "4"))

-- The texts of the codes are looked up as those codes.
pub get_str_code-code_text :
    (verbose : Bool) (code : AtErr)
    → (code ≡ ok) ⊎ (code ≡ err)
    → (get_str_code verbose (code_text verbose code) ≡ code)
      × (is_unk code ≡ false)
      × (code_text verbose code ≢ [])
unfolding get_str_code streq
get_str_code-code_text true ok h = (refl, refl, λ e. cc)
get_str_code-code_text true err h = (refl, refl, λ e. cc)
get_str_code-code_text false ok h = (refl, refl, λ e. cc)
get_str_code-code_text false err h = (refl, refl, λ e. cc)
get_str_code-code_text _ timeout h = absurd (ground arith)
get_str_code-code_text _ overflow h = absurd (ground arith)
get_str_code-code_text _ unk h = absurd (ground arith)
