-- ===== src/ZUart/Kernel.antt =====
-- What lib/zuart uses of the Zephyr kernel and its UART driver, with what it relies on.
use isbd_zephyr_module.Prelude.{
  ℕ, ◌+◌, ◌≤◌, ◌<◌, ◌≡◌, Bytes, Bool, List, Option, none, some, [], ◌∷◌, ◌++◌, length, take, drop,
  min, ◌==◌,
}

-- ring_buffer.h; `items` are the bytes that it holds, the oldest first.
pub record RingBuf (R : Type 0) : Type 0 where
  pub init : ℕ → R
  pub put : Bytes → R → ℕ × R
  pub get : ℕ → R → Bytes × R
  pub is_empty : R → Bool
  pub size_get : R → ℕ
  pub space_get : R → ℕ
  pub items : R → Bytes
  pub items-init : (n : ℕ) → items (init n) ≡ []
  pub put_lem : (s : Bytes) (r : R) → (put s r).0 ≡ min (length s) (space_get r)
  pub items-put : (s : Bytes) (r : R) → items (put s r).1 ≡ items r ++ take (put s r).0 s
  pub get_lem : (n : ℕ) (r : R) → (get n r).0 ≡ take n (items r)
  pub items-get : (n : ℕ) (r : R) → items (get n r).1 ≡ drop n (items r)
  pub space-get : (n : ℕ) (r : R) → space_get r ≤ space_get (get n r).1
  pub is_empty_lem : (r : R) → is_empty r ≡ (length (items r) == 0)
  pub size_get_lem : (r : R) → size_get r ≡ length (items r)

-- A semaphore with a limit of 1. `take` is what `k_sem_take` does to one that is available.
pub record Sem (S : Type 0) : Type 0 where
  pub init : S
  pub count : S → ℕ
  pub give : S → S
  pub take : S → S
  pub reset : S → S
  pub count-give : (s : S) → count (give s) ≡ 1
  pub count-take : (s : S) → 0 < count s → count (take s) < count s
  pub count-reset : (s : S) → count (reset s) ≡ 0

-- What can happen beside the thread that reads or writes: an interrupt, or another thread that calls
-- `zuart_force_read_timeout` or `zuart_force_write_timeout`.
pub data Event : Type 0 where
  interrupt force_read force_write : Event

-- `uart_poll_in`: 0 and a byte, -1, or another code.
pub data PollIn : Type 0 where
  byte : ℕ → PollIn
  nothing failed : PollIn

-- The bytes of a result.
abbrev pub polled : PollIn → Bytes
polled (byte b) = b ∷ []
polled nothing = []
polled failed = []

abbrev pub fifo_bytes : Option ℕ → Bytes
fifo_bytes none = []
fifo_bytes (some b) = b ∷ []

-- A call took the bytes `got` from the line and put `out` on it. Each of the four is a reading of a
-- device: the bytes taken so far, those put so far, how many can still be taken, and how often the
-- clock can still be read below a time.
pub record Moves {D : Type 0} (arrived sent : D → Bytes) (to_come : D → ℕ) (until : ℕ → D → ℕ)
    (d : D) (got out : Bytes) (d' : D) : Type 0 where
  pub arrived_eq : arrived d' ≡ arrived d ++ got
  pub sent_eq : sent d' ≡ sent d ++ out
  pub to_come_le : to_come d' + length got ≤ to_come d
  pub until_le : (t : ℕ) → until t d' ≤ until t d

-- drivers/uart.h, `k_uptime_get`, `k_yield`, and the schedule: what happens before the next statement
-- that looks at shared state, and while a thread waits for a time.
pub record Uart (D : Type 0) : Type 0 where
  pub irq_update : D → Bool × D
  pub irq_rx_ready : D → Bool
  pub irq_tx_ready : D → Bool
  pub irq_tx_complete : D → Bool
  pub fifo_read : D → Option ℕ × D
  pub fifo_fill : ℕ → D → D
  pub irq_tx_enable : D → D
  pub irq_tx_disable : D → D
  pub irq_rx_enable : D → D
  pub irq_callback_set : D → D
  pub poll_in : D → PollIn × D
  pub poll_out : ℕ → D → D
  pub yield_cpu : D → D
  pub uptime : D → ℕ × D
  pub events : D → List Event × D
  pub window : ℕ → D → List Event × D
  pub no_flow_control : D → Bool
  pub arrived : D → Bytes
  pub sent : D → Bytes
  pub to_come : D → ℕ
  pub until : ℕ → D → ℕ
  pub irq_callback_set_moves :
      (d : D) → Moves arrived sent to_come until d [] [] (irq_callback_set d)
  pub irq_rx_enable_moves : (d : D) → Moves arrived sent to_come until d [] [] (irq_rx_enable d)
  pub irq_update_moves : (d : D) → Moves arrived sent to_come until d [] [] (irq_update d).1
  pub fifo_read_moves :
      (d : D) → Moves arrived sent to_come until d (fifo_bytes (fifo_read d).0) [] (fifo_read d).1
  pub fifo_fill_moves :
      (b : ℕ) (d : D) → Moves arrived sent to_come until d [] (b ∷ []) (fifo_fill b d)
  pub irq_tx_enable_moves : (d : D) → Moves arrived sent to_come until d [] [] (irq_tx_enable d)
  pub irq_tx_disable_moves : (d : D) → Moves arrived sent to_come until d [] [] (irq_tx_disable d)
  pub poll_in_moves :
      (d : D) → Moves arrived sent to_come until d (polled (poll_in d).0) [] (poll_in d).1
  pub poll_out_moves :
      (b : ℕ) (d : D) → Moves arrived sent to_come until d [] (b ∷ []) (poll_out b d)
  pub yield_cpu_moves : (d : D) → Moves arrived sent to_come until d [] [] (yield_cpu d)
  pub uptime_moves : (d : D) → Moves arrived sent to_come until d [] [] (uptime d).1
  pub events_moves : (d : D) → Moves arrived sent to_come until d [] [] (events d).1
  pub window_moves : (t : ℕ) (d : D) → Moves arrived sent to_come until d [] [] (window t d).1
  -- Time passes: the clock does not show less than `t` for ever.
  pub uptime_until : (t : ℕ) (d : D) → (uptime d).0 < t → until t (uptime d).1 < until t d
