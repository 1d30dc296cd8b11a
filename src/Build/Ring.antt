-- ===== src/Build/Ring.antt =====
-- The ring buffer of the build queue (m_Queue, m_QueueCapacity, m_QueueReadIndex,
-- m_QueueWriteIndex of BuildQueue): the index arithmetic of AvailableNodeCount, Enqueue and
-- NextNode, in `uint32_t` and with the capacity's mask.
pub mod Index
pub mod Fifo
use Prim.Native.Nat.{bit_and}
use tundra.Prelude.{
  ℕ, zero, suc, ◌+◌, ◌-◌, ◌%◌, ◌^◌, ◌≤◌, ◌<◌, List, [], ◌∷◌, length, get_or, set, if◌then◌else◌,
  ltb, ◌==◌, ◌≡◌,
}

pub record Ring : Type 0 where
  pub queue : List ℕ
  pub capacity : ℕ
  pub read_index : ℕ
  pub write_index : ℕ

-- `(write_index - read_index) & queue_mask`
unfoldable pub available_node_count : Ring → ℕ
available_node_count r = bit_and ((r.write_index + 2 ^ 32 - r.read_index) % 2 ^ 32) (r.capacity - 1)

-- `(index + 1) & queue_mask`
unfoldable pub next_index : ℕ → ℕ → ℕ
next_index capacity i = bit_and ((i + 1) % 2 ^ 32) (capacity - 1)

-- The three statements of Enqueue that store an index.
unfoldable pub put : Ring → ℕ → Ring
put r state_index = record r {
  queue = set r.queue r.write_index state_index;
  write_index = next_index r.capacity r.write_index;
}

-- The two statements of NextNode that fetch an index; the caller has seen that one is available.
unfoldable pub fetch : Ring → ℕ × Ring
fetch r =
    (get_or r.queue r.read_index 0, record r { read_index = next_index r.capacity r.read_index })

-- The capacity is a power of two below 2^32, as NextPowerOfTwo makes it, and both indices are in
-- range.
pub record IsRing (r : Ring) : Type 0 where
  pub shift : ℕ
  pub shift_le : shift ≤ 31
  pub is_power : r.capacity ≡ 2 ^ shift
  pub allocated : length r.queue ≡ r.capacity
  pub read_in : r.read_index < r.capacity
  pub write_in : r.write_index < r.capacity

-- The next index round a ring of the given capacity.
abbrev pub wrap_next : ℕ → ℕ → ℕ
wrap_next cap i = if i + 1 == cap then 0 else i + 1

-- The steps from the read index round to the write index.
abbrev pub distance : ℕ → ℕ → ℕ → ℕ
distance cap r w = if ltb w r then w + cap - r else w - r

-- The `n` indices that are stored from index `i` on.
abbrev pub slots : List ℕ → ℕ → ℕ → ℕ → List ℕ
slots queue cap i zero = []
slots queue cap i (suc n) = get_or queue i 0 ∷ slots queue cap (wrap_next cap i) n

-- What the ring holds, the next index to be fetched first.
abbrev pub contents : Ring → List ℕ
contents r = slots r.queue r.capacity r.read_index (distance r.capacity r.read_index r.write_index)
