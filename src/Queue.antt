-- ===== src/Queue.antt =====
-- 02.Kernel64/queue.rs: the ring queue of fixed capacity behind kPutQueue and kGetQueue.
-- The buffer holds `max_data_count` slots of `data_size` bytes. A slot is only copied whole, so it
-- is one value of any type. Indices are u32, and their sums are taken modulo 2 ^ 32.
pub mod Holds
pub mod Refine
mod Tests
use mintos.Base.{
  ℕ, ◌≡◌, Bool, true, false, not, ◌&&◌, Option, none, some, List, ◌==◌, leb, if◌then◌else◌, inc32,
  get_or, set,
}

pub record Queue {ℓ} (A : Type ℓ) : Type ℓ where
  pub max_data_count : ℕ
  pub queue_array : List A
  pub put_index : ℕ
  pub get_index : ℕ
  pub last_operation_put : Bool

module _ {ℓ} {A : Type ℓ} where
  -- kInitializeQueue
  unfoldable pub initialize_queue : List A → ℕ → Queue A
  initialize_queue buffer count = record {
    max_data_count = count;
    queue_array = buffer;
    put_index = 0;
    get_index = 0;
    last_operation_put = false;
  }

  -- kIsQueueFull
  unfoldable pub is_queue_full : Queue A → Bool
  is_queue_full q = (q.get_index == q.put_index) && q.last_operation_put

  -- kIsQueueEmpty
  unfoldable pub is_queue_empty : Queue A → Bool
  is_queue_empty q = (q.get_index == q.put_index) && not q.last_operation_put

  -- `if next >= max_data_count { 0 } else { next }`
  abbrev pub next_index : Queue A → ℕ → ℕ
  next_index q i = if leb q.max_data_count (inc32 i) then 0 else inc32 i

  -- kPutQueue
  unfoldable pub put_queue : Queue A → A → Bool × Queue A
  unfolding is_queue_full
  put_queue q x = if is_queue_full q then (false, q) else (
    true,
    record q {
      queue_array = set q.queue_array q.put_index x;
      put_index = next_index q q.put_index;
      last_operation_put = true;
    },
  )

  -- kGetQueue: the option is what the call copies out. `d` is what lies behind the buffer.
  unfoldable pub get_queue : A → Queue A → Option A × Queue A
  unfolding is_queue_empty
  get_queue d q = if is_queue_empty q then (none, q) else (
    some (get_or q.queue_array q.get_index d),
    record q { get_index = next_index q q.get_index; last_operation_put = false },
  )
