-- ===== src/Pipe/Fifo.antt =====
-- src/src/pipe/mfkifo.cpp: FIFOs for the functions that a service over pipes is given. What the system
-- calls `mkfifo`, `stat` and `open` do is a parameter.
pub mod Opening
use nil_service.Common.{Bool, true, false, Option, none, some, ℕ, List, [], ◌∷◌, Bytes}
use nil_service.Pipe.{}
use nil_service.Pipe.Opening.{no_fd, retry_fd, Fd, fd}

-- `errno` after a call that has failed.
pub data Errno : Type 0 where
  eexist enxio eagain ewouldblock other_errno : Errno

-- The mode that `stat` reports.
pub data Mode : Type 0 where
  is_fifo is_other : Mode

pub data Flags : Type 0 where
  rdwr rdonly wronly : Flags

pub data Opened : Type 0 where
  descriptor : ℕ → Opened
  refused : Errno → Opened

-- The system, for one path: `mkfifo` may fail, `stat` reports a mode or fails, and `open` is called with
-- `O_NONBLOCK` added to its flags.
pub record System : Type 0 where
  pub mkfifo : Option Errno
  pub stat : Option Mode
  pub open_ : Flags → Opened

-- `::mkfifo(path) != 0 && errno != EEXIST`
unfoldable pub mkfifo_failed : Option Errno → Bool
mkfifo_failed none = false
mkfifo_failed (some eexist) = false
mkfifo_failed (some enxio) = true
mkfifo_failed (some eagain) = true
mkfifo_failed (some ewouldblock) = true
mkfifo_failed (some other_errno) = true

unfoldable pub is_fifo_mode : Option Mode → Bool
is_fifo_mode none = false
is_fifo_mode (some is_fifo) = true
is_fifo_mode (some is_other) = false

unfoldable pub ensure_fifo : System → Bool
unfolding mkfifo_failed is_fifo_mode
ensure_fifo sys = elim (mkfifo_failed sys.mkfifo) [ true ↦ false | false ↦ is_fifo_mode sys.stat ]

unfoldable pub opened_as : Opened → Fd
opened_as (descriptor n) = fd n
opened_as (refused enxio) = retry_fd
opened_as (refused eagain) = retry_fd
opened_as (refused ewouldblock) = retry_fd
opened_as (refused eexist) = no_fd
opened_as (refused other_errno) = no_fd

unfoldable pub open_fifo : System → Bytes → Flags → Fd
unfolding ensure_fifo opened_as
open_fifo sys [] flags = no_fd
open_fifo sys (b ∷ path) flags = elim (ensure_fifo sys) [
  | true ↦ opened_as (sys.open_ flags)
  | false ↦ no_fd
]

unfoldable pub mkfifo : System → Bytes → Fd
mkfifo sys path = open_fifo sys path rdwr

unfoldable pub r_mkfifo : System → Bytes → Fd
r_mkfifo sys path = open_fifo sys path rdonly

unfoldable pub w_mkfifo : System → Bytes → Fd
w_mkfifo sys path = open_fifo sys path wronly
