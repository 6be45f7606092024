-- ===== src/Serial/Scripted.antt =====
-- A line for examples: the other end takes every write, and answers each by the next of its replies.
use isbd_zephyr_module.Prelude.{
  ℕ, ◌+◌, ◌≤◌, ◌≡◌, Bytes, true, [], ◌∷◌, ◌++◌, List, length, length-append, length-take,
  length-drop, take-length, take, drop, arith, refl,
}
use isbd_zephyr_module.ZUart.Types.{ZuartErr}
use isbd_zephyr_module.Serial.{Serial}

pub record Script : Type 0 where
  pub written : Bytes
  pub ready : Bytes
  pub replies : List Bytes

abbrev pub total : List Bytes → ℕ
total [] = 0
total (r ∷ rs) = length r + total rs

abbrev answer : List Bytes → Bytes
answer [] = []
answer (r ∷ rs) = r

abbrev later : List Bytes → List Bytes
later [] = []
later (r ∷ rs) = rs

abbrev pub read_script : ℕ → Script → Bytes × Script
read_script n z = (take n z.ready, record z { ready = drop n z.ready })

abbrev pub write_script : Bytes → Script → ℕ × Script
write_script s z = (
  length s,
  record {
    written = z.written ++ s;
    ready = z.ready ++ answer z.replies;
    replies = later z.replies;
  },
)

abbrev pub pending_script : Script → ℕ
pending_script z = length z.ready + total z.replies

pub read_pending_lem :
    (n : ℕ) (z : Script)
    → pending_script (read_script n z).1 + length (read_script n z).0 ≤ pending_script z
read_pending_lem n z = omega (arith, length-take n z.ready, length-drop n z.ready)

pub write_pending_lem :
    (s : Bytes) (w r : Bytes) (rs : List Bytes)
    → length (r ++ answer rs) + total (later rs) ≤ length r + total rs
write_pending_lem s w r [] = omega (arith, length-append r [])
write_pending_lem s w r (a ∷ rs) = omega (arith, length-append r a)

pub sent_write_lem : (s : Bytes) (z : Script) → z.written ++ s ≡ z.written ++ take (length s) s
sent_write_lem s z = rw take-length

pub read_le_lem : (n : ℕ) (s : Bytes) → length (take n s) ≤ n
read_le_lem n s = omega (arith, length-take n s)

pub drain_script_lem : (z : Script) → pending_script (record z { ready = [] }) ≤ pending_script z
drain_script_lem z = omega arith

pub write_le_lem : (n : ℕ) → n ≤ n
write_le_lem n = omega arith

instance abbrev pub scripted : Serial Script
scripted = record {
  read = λ n t z. read_script n z;
  write = λ s t z. write_script s z;
  drain = λ z. (length z.ready, record z { ready = [] });
  get_err = λ z. ZuartErr.timeout;
  setup = λ c z. (ZuartErr.ok, z);
  no_flow_control = λ z. true;
  pending = pending_script;
  sent = λ z. z.written;
  in_order = λ z. true;
  read_le = λ n t z. read_le_lem n z.ready;
  read_pending = λ n t z. read_pending_lem n z;
  write_le = λ s t z. write_le_lem (length s);
  write_pending = λ s t z. write_pending_lem s z.written z.ready z.replies;
  drain_pending = λ z. drain_script_lem z;
  sent-read = λ n t z. refl;
  sent-write = λ s t z h. sent_write_lem s z;
  sent-drain = λ z. refl;
  in_order-read = λ n t z h. refl;
  in_order-write = λ s t z h. refl;
  in_order-drain = λ z h. refl;
}
