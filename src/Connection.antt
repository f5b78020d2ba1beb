-- ===== src/Connection.antt =====
-- The connections of src/server.h and src/connection.c. A change of `events` goes to the kernel by
-- EPOLL_CTL_MOD, and nothing reads what that call returns, so the record stands for both.
pub mod Heap
pub mod ShiftUp
pub mod ShiftDown
pub mod Members
pub mod NewTime
pub mod Activity
pub mod Register
pub mod Unregister
use sy_server.Base.{ℕ, Bool, true, false}

pub data Side : Type 0 where
  front back : Side

-- `sy_connection_t`; `watch_in` and `watch_out` are the bits EVENTS_IN and EVENTS_OUT of its event,
-- and `r` is the address of the request.
pub record Connection : Type 0 where
  pub fd : ℕ
  pub side : Side
  pub watch_in : Bool
  pub watch_out : Bool
  pub r : ℕ
  pub active_time : ℕ
  pub heap_idx : ℕ

unfoldable pub disable_in : Connection → Connection
disable_in c = record c { watch_in = false }

unfoldable pub enable_in : Connection → Connection
enable_in c = record c { watch_in = true }

unfoldable pub disable_out : Connection → Connection
disable_out c = record c { watch_out = false }

unfoldable pub enable_out : Connection → Connection
enable_out c = record c { watch_out = true }
