-- ===== src/ScriptPool.antt =====
-- msg_tx.go: scriptFreeList, the channel of buffers that decoders share. A buffer is known by the
-- number of its allocation and by its capacity; each operation on the channel is one step, so that
-- the steps of several decoders are a sequence.
pub mod Invariant
use go_wire.Prelude.{◌++◌, if◌then◌else◌, ltb, List, ◌∷◌, suc, [], not, ℕ, ◌==◌, length}

abbrev pub free_list_max_script_size : ℕ
free_list_max_script_size = 512

abbrev pub free_list_max_items : ℕ
free_list_max_items = 12500

pub record Buffer : Type 0 where
  pub id : ℕ
  pub cap : ℕ

-- The buffers in the channel, the oldest first, and the number of the next allocation.
pub record ScriptFreeList : Type 0 where
  pub free : List Buffer
  pub next : ℕ

pub record Borrowed : Type 0 where
  pub buffer : Buffer
  pub list : ScriptFreeList

-- `make([]byte, size)`
unfoldable pub allocate : ℕ → ScriptFreeList → Borrowed
allocate size s = record {
  buffer = record { id = s.next; cap = size };
  list = record s { next = suc s.next };
}

-- `select { case buf = <-c: default: buf = make(…) }`
unfoldable pub receive : ScriptFreeList → List Buffer → Borrowed
receive s [] = allocate free_list_max_script_size s
receive s (b ∷ rest) = record { buffer = b; list = record s { free = rest } }

-- The length of the slice is the size that was asked for.
unfoldable pub borrow : ℕ → ScriptFreeList → Borrowed
borrow size s = if ltb free_list_max_script_size size then allocate size s else receive s s.free

-- `select { case c <- buf: default: }`
unfoldable pub send : Buffer → ScriptFreeList → ScriptFreeList
send buf s =
    if ltb (length s.free) free_list_max_items then record s { free = s.free ++ (buf ∷ []) } else s

unfoldable pub return_buffer : Buffer → ScriptFreeList → ScriptFreeList
return_buffer buf s = if not (buf.cap == free_list_max_script_size) then s else send buf s

-- scriptPool
abbrev pub script_pool : ScriptFreeList
script_pool = record { free = []; next = 0 }

-- The pool with the buffers that are lent.
pub record Pool : Type 0 where
  pub list : ScriptFreeList
  pub lent : List Buffer

-- A caller borrows a buffer, or returns one that is lent to it.
pub data Step : Pool → Pool → Type 0 where
  borrows :
      (size : ℕ) (list : ScriptFreeList) (lent : List Buffer)
      → Step
          (record { list = list; lent = lent })
          (record { list = (borrow size list).list; lent = (borrow size list).buffer ∷ lent })
  returns :
      (list : ScriptFreeList) (before : List Buffer) (buf : Buffer) (after : List Buffer)
      → Step
          (record { list = list; lent = before ++ (buf ∷ after) })
          (record { list = return_buffer buf list; lent = before ++ after })

-- any number of steps, the last one first
pub data Reaches : Pool → Pool → Type 0 where
  here : (p : Pool) → Reaches p p
  then_step : (p q r : Pool) → Reaches p q → Step q r → Reaches p r
