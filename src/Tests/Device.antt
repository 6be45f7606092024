-- ===== src/Tests/Device.antt =====
-- Ring buffers, semaphores and a device that follows a script.
use isbd_zephyr_module.Prelude.{
  ℕ, suc, ◌-◌, Bytes, Bool, true, false, none, some, Option, List, [], ◌∷◌, ◌++◌, ◌==◌, length,
  take, drop, min, length-drop, append-nil, arith, refl, sym,
}
use isbd_zephyr_module.ZUart.Kernel.{
  RingBuf, Sem, Uart, Moves, Event, PollIn, byte, nothing, fifo_bytes, polled,
}
use isbd_zephyr_module.ZUart.Types.{ZuartErr, Mode, Proto, ZuartConfig}
use isbd_zephyr_module.ZUart.Port.{Port}

pub record Ring : Type 0 where
  pub capacity : ℕ
  pub held : Bytes

abbrev room : Ring → ℕ
room r = r.capacity - length r.held

abbrev put_count : Bytes → Ring → ℕ
put_count s r = min (length s) (room r)

instance abbrev pub ring_double : RingBuf Ring
ring_double = record {
  init = λ n. record { capacity = n; held = [] };
  put = λ s r. (put_count s r, record r { held = r.held ++ take (put_count s r) s });
  get = λ n r. (take n r.held, record r { held = drop n r.held });
  is_empty = λ r. length r.held == 0;
  size_get = λ r. length r.held;
  space_get = room;
  items = λ r. r.held;
  items-init = λ n. refl;
  put_lem = λ s r. refl;
  items-put = λ s r. refl;
  get_lem = λ n r. refl;
  items-get = λ n r. refl;
  space-get = λ n r. omega (arith, length-drop n r.held);
  is_empty_lem = λ r. refl;
  size_get_lem = λ r. refl;
}

instance abbrev pub sem_double : Sem ℕ
sem_double = record {
  init = 0;
  count = λ s. s;
  give = λ s. 1;
  take = λ s. s - 1;
  reset = λ s. 0;
  count-give = λ s. refl;
  count-take = λ s h. omega arith;
  count-reset = λ s. refl;
}

-- What will come, what was taken and put, what happens at each point and in each wait, and the time.
pub record Line : Type 0 where
  pub coming : Bytes
  pub taken : Bytes
  pub placed : Bytes
  pub points : List (List Event)
  pub waits : List (List Event)
  pub clock : ℕ

abbrev first : List (List Event) → List Event
first [] = []
first (e ∷ es) = e

abbrev later : List (List Event) → List (List Event)
later [] = []
later (e ∷ es) = es

abbrev next_byte : Bytes → Option ℕ
next_byte [] = none
next_byte (b ∷ bs) = some b

abbrev next_poll : Bytes → PollIn
next_poll [] = nothing
next_poll (b ∷ bs) = byte b

abbrev ready : Bytes → Bool
ready [] = false
ready (b ∷ bs) = true

abbrev pop : Line → Line
pop d = record d { coming = drop 1 d.coming; taken = d.taken ++ take 1 d.coming }

abbrev push : ℕ → Line → Line
push b d = record d { placed = d.placed ++ b ∷ [] }

abbrev LineMoves : Line → Bytes → Bytes → Line → Type 0
LineMoves = Moves (λ d. d.taken) (λ d. d.placed) (λ d. length d.coming) (λ t d. t - d.clock)

abbrev same_line :
    (d : Line) (points waits : List (List Event))
    → LineMoves d [] [] (record d { points = points; waits = waits })
same_line d ps ws = record {
  arrived_eq = sym (append-nil d.taken);
  sent_eq = sym (append-nil d.placed);
  to_come_le = omega arith;
  until_le = λ t. omega arith;
}

pub ticks : (d : Line) → LineMoves d [] [] (record d { clock = suc d.clock })
ticks d = record {
  arrived_eq = sym (append-nil d.taken);
  sent_eq = sym (append-nil d.placed);
  to_come_le = omega arith;
  until_le = λ t. omega arith;
}

pub pushes : (b : ℕ) (d : Line) → LineMoves d [] (b ∷ []) (push b d)
pushes b d = record {
  arrived_eq = sym (append-nil d.taken);
  sent_eq = refl;
  to_come_le = omega arith;
  until_le = λ t. omega arith;
}

pub pops :
    (c a p : Bytes) (es ws : List (List Event)) (t : ℕ)
    → let d : Line = record {
      coming = c;
      taken = a;
      placed = p;
      points = es;
      waits = ws;
      clock = t;
    } in
      LineMoves d (fifo_bytes (next_byte c)) [] (pop d)
      × LineMoves d (polled (next_poll c)) [] (pop d)
pops [] a p es ws t = (
  record {
    arrived_eq = refl;
    sent_eq = sym (append-nil p);
    to_come_le = omega arith;
    until_le = λ t. omega arith;
  },
  record {
    arrived_eq = refl;
    sent_eq = sym (append-nil p);
    to_come_le = omega arith;
    until_le = λ t. omega arith;
  },
)
pops (b ∷ c) a p es ws t = (
  record {
    arrived_eq = refl;
    sent_eq = sym (append-nil p);
    to_come_le = omega arith;
    until_le = λ t. omega arith;
  },
  record {
    arrived_eq = refl;
    sent_eq = sym (append-nil p);
    to_come_le = omega arith;
    until_le = λ t. omega arith;
  },
)

instance abbrev pub uart_double : Uart Line
uart_double = record {
  irq_update = λ d. (true, d);
  irq_rx_ready = λ d. ready d.coming;
  irq_tx_ready = λ d. true;
  irq_tx_complete = λ d. true;
  fifo_read = λ d. (next_byte d.coming, pop d);
  fifo_fill = push;
  irq_tx_enable = λ d. d;
  irq_tx_disable = λ d. d;
  irq_rx_enable = λ d. d;
  irq_callback_set = λ d. d;
  poll_in = λ d. (next_poll d.coming, pop d);
  poll_out = push;
  yield_cpu = λ d. d;
  uptime = λ d. (d.clock, record d { clock = suc d.clock });
  events = λ d. (first d.points, record d { points = later d.points });
  window = λ t d. (first d.waits, record d { waits = later d.waits });
  no_flow_control = λ d. true;
  arrived = λ d. d.taken;
  sent = λ d. d.placed;
  to_come = λ d. length d.coming;
  until = λ t d. t - d.clock;
  irq_update_moves = λ d. same_line d d.points d.waits;
  fifo_read_moves = λ d. (pops d.coming d.taken d.placed d.points d.waits d.clock).0;
  fifo_fill_moves = pushes;
  irq_callback_set_moves = λ d. same_line d d.points d.waits;
  irq_rx_enable_moves = λ d. same_line d d.points d.waits;
  irq_tx_enable_moves = λ d. same_line d d.points d.waits;
  irq_tx_disable_moves = λ d. same_line d d.points d.waits;
  poll_in_moves = λ d. (pops d.coming d.taken d.placed d.points d.waits d.clock).1;
  poll_out_moves = pushes;
  yield_cpu_moves = λ d. same_line d d.points d.waits;
  uptime_moves = ticks;
  events_moves = λ d. same_line d (later d.points) d.waits;
  window_moves = λ t d. same_line d d.points (later d.waits);
  uptime_until = λ t d h. omega arith;
}

abbrev pub irq_config : ZuartConfig
irq_config = record {
  mode = Mode.irq;
  tx_buf = some 1;
  tx_buf_size = 4;
  rx_buf = some 2;
  rx_buf_size = 4;
  read_proto = some Proto.irq_proto;
  write_proto = some Proto.irq_proto;
}

-- A port with buffers of four bytes on such a line.
abbrev pub port : Line → Port Ring ℕ Line
port d = record {
  overrun = false;
  err = ZuartErr.ok;
  dev = d;
  rx_sem = 0;
  tx_sem = 0;
  rx_rbuf = record { capacity = 4; held = [] };
  tx_rbuf = record { capacity = 4; held = [] };
  config = irq_config;
}
