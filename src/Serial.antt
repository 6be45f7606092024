-- ===== src/Serial.antt =====
-- What lib/at_uart uses of lib/zuart: the calls of zuart.h on a port, with what the layers above rely
-- on. `Z` is the port together with its line: what the other end will still send, and when.
pub mod Delivery
pub mod Scripted
use isbd_zephyr_module.Prelude.{ℕ, ◌+◌, ◌≤◌, ◌≡◌, Bytes, ◌++◌, Bool, true, length, take}
use isbd_zephyr_module.ZUart.Types.{ZuartErr, ZuartConfig}

pub record Serial (Z : Type 0) : Type 0 where
  -- `zuart_read`: the number of bytes asked for, the timeout; the bytes that came
  pub read : ℕ → ℕ → Z → Bytes × Z
  -- `zuart_write`: the bytes, the timeout; how many were taken
  pub write : Bytes → ℕ → Z → ℕ × Z
  pub drain : Z → ℕ × Z
  pub get_err : Z → ZuartErr
  pub setup : ZuartConfig → Z → ZuartErr × Z
  -- `uart_config_get` of the driver: is flow control off?
  pub no_flow_control : Z → Bool
  -- a bound on the bytes that the port can still deliver
  pub pending : Z → ℕ
  -- the bytes that writes have handed over so far
  pub sent : Z → Bytes
  -- a write does not overtake one before it
  pub in_order : Z → Bool
  pub read_le : (n t : ℕ) (z : Z) → length (read n t z).0 ≤ n
  pub read_pending : (n t : ℕ) (z : Z) → pending (read n t z).1 + length (read n t z).0 ≤ pending z
  pub write_le : (s : Bytes) (t : ℕ) (z : Z) → (write s t z).0 ≤ length s
  pub write_pending : (s : Bytes) (t : ℕ) (z : Z) → pending (write s t z).1 ≤ pending z
  pub drain_pending : (z : Z) → pending (drain z).1 ≤ pending z
  pub sent-read : (n t : ℕ) (z : Z) → sent (read n t z).1 ≡ sent z
  pub sent-write :
      (s : Bytes) (t : ℕ) (z : Z)
      → in_order z ≡ true
      → sent (write s t z).1 ≡ sent z ++ take (write s t z).0 s
  pub sent-drain : (z : Z) → sent (drain z).1 ≡ sent z
  pub in_order-read : (n t : ℕ) (z : Z) → in_order z ≡ true → in_order (read n t z).1 ≡ true
  pub in_order-write :
      (s : Bytes) (t : ℕ) (z : Z) → in_order z ≡ true → in_order (write s t z).1 ≡ true
  pub in_order-drain : (z : Z) → in_order z ≡ true → in_order (drain z).1 ≡ true
